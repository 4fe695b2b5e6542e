-- ===== src/Malloc/Heap.antt =====
-- From `init_memory_region` to a heap that serves its clients.
use native.Mathlib.Nat.{pow-le-pow_right}
use cob_kernel.Common.{
  ℕ, ◌+◌, ◌-◌, ◌*◌, ◌/◌, ◌^◌, ◌≤◌, ◌<◌, ◌≡◌, ◌≢◌, inl, inr, sym, ap, ◌∙◌, arith, false,
}
use cob_kernel.Common.Int.{ℤ, pos}
use cob_kernel.Malloc.{MemoryRegion, Memory, init_memory_region, page_entry_start_addr}
use cob_kernel.Malloc.Table.{slot, clear_table-Outside}
use cob_kernel.Malloc.Init.{Accepted, init_outcome}
use cob_kernel.Malloc.Region.{IsFresh, init-IsFresh, fresh_overcommits}
use cob_kernel.Malloc.Refine.Held.{Represents}

-- A fresh region holds no page in use.
IsFresh-Represents :
    (start size ps : ℕ) (r : MemoryRegion) (m : Memory)
    → IsFresh start size ps r m
    → 0 < start
    → 0 < ps
    → ps ≤ size
    → ps + ps ≤ 2 ^ 64
    → start / ps * ps ≡ start
    → page_entry_start_addr (m (slot r.page_table r.page_table_entries))
      ≢ slot r.page_table (r.page_table_entries - 1)
    → Represents r m (λ _. false)
IsFresh-Represents start size ps r m f mapped ps_pos one small aligned behind = record {
  unlocked = f.unlocked;
  mapped = omega (arith, f.table, mapped);
  not_null = omega (arith, f.table, f.behind_table, mapped);
  some_size = omega (arith, f.pages, ps_pos);
  small = omega (arith, f.pages, small);
  covered = rw f.pages (fresh_overcommits start size ps r m f ps_pos one aligned);
  entry = λ i h. f.cleared i h;
  behind = behind;
}

-- The word behind the table is not written.
init-behind :
    (start size k : ℕ) (r : MemoryRegion) (m : Memory) (r' : MemoryRegion) (m' : Memory)
    → Accepted start size (2 ^ k) r m
    → 0 < start
    → init_memory_region start size (2 ^ k) r m ≡ (pos 0, r', m')
    → m' (slot start (size / 2 ^ k)) ≡ m (slot start (size / 2 ^ k))
init-behind start size k r m r' m' a mapped run = elim (init_outcome start size (2 ^ k) r m) [
  | inl (b, e) ↦
      ap (λ (t : ℤ × MemoryRegion × Memory). t.2 (slot start (size / 2 ^ k))) (sym run ∙ e)
      ∙ ground (
        arith,
        mapped,
        clear_table-Outside (size / 2 ^ k) start m (slot start (size / 2 ^ k))
            (λ i lt e. omega (arith, lt, e)),
      )
  | inr (no_way, _, _) ↦ absurd (no_way a)
]

-- A region that is accepted serves its clients from the empty set of pages on, if it begins at a multiple
-- of the page size above 0, nothing wraps around, and the word behind its table, which is not written,
-- does not look like a link to the last entry.
pub init-Represents :
    (start size k : ℕ) (r : MemoryRegion) (m : Memory)
    → 0 < start
    → start / 2 ^ k * 2 ^ k ≡ start
    → k < 63
    → start + size + 2 ^ k ≤ 2 ^ 64
    → Accepted start size (2 ^ k) r m
    → page_entry_start_addr (m (slot start (size / 2 ^ k))) ≢ slot start (size / 2 ^ k - 1)
    → (r' : MemoryRegion) × (m' : Memory) × (init_memory_region start size (2 ^ k) r m
        ≡ (pos 0, r', m'))
      × IsFresh start size (2 ^ k) r' m'
      × Represents r' m' (λ _. false)
init-Represents start size k r m mapped aligned lt fits a behind =
    let small : 2 ^ k ≤ 2 ^ 62 =
      pow-le-pow_right {n = 2} (omega arith) {i = k} {j = 62} (omega (arith, lt)) in
    let (r', m', run, f) = init-IsFresh start size k r m (omega (arith, lt)) fits a in
    let same = init-behind start size k r m r' m' a mapped run in
    (
      r',
      m',
      run,
      f,
      IsFresh-Represents start size (2 ^ k) r' m' f mapped (omega (arith, a.at_least)) a.holds_page
          (omega (arith, small)) aligned (rw (f.table, f.entries, same) behind),
    )
