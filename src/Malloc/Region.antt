-- ===== src/Malloc/Region.antt =====
-- The region that a successful `init_memory_region` hands out: what is right with it, and that its table
-- has more entries than it has pages.
use native.Mathlib.Nat.{div-mul-le_self, lt-div-mul-add, one-le-pow, mul-div_cancel}
use cob_kernel.Common.{
  ℕ, ◌+◌, ◌-◌, ◌*◌, ◌/◌, ◌%◌, ◌^◌, ◌≤◌, ◌<◌, ◌≡◌, inl, inr, refl, ap, arith, dec_lt, some,
}
use cob_kernel.Common.Int.{pos}
use cob_kernel.Util.{alignup, aligndown, ceildiv}
use cob_kernel.Util.Align.{alignup_lem, aligndown_lem}
use cob_kernel.Util.Ceildiv.{ceildiv-le, ceildiv-pos}
use cob_kernel.Malloc.{Memory, MemoryRegion, init_memory_region, malloc}
use cob_kernel.Malloc.Table.{slot, clear_table-inside}
use cob_kernel.Malloc.Correct.{malloc_first_fit}
use cob_kernel.Malloc.Init.{Accepted, table_end, init_outcome}

-- A fresh region inside the `size` bytes from `start` on: the table comes first, then whole pages.
pub record IsFresh (start size ps : ℕ) (r : MemoryRegion) (m : Memory) : Type 0 where
  pub table : r.page_table ≡ start
  pub entries : r.page_table_entries ≡ size / ps
  pub pages : r.page_size ≡ ps
  pub unlocked : r.sem ≡ 0
  pub behind_table : slot r.page_table r.page_table_entries ≤ r.top
  pub top_aligned : r.top / ps * ps ≡ r.top
  pub size_aligned : r.size / ps * ps ≡ r.size
  pub one_page : ps ≤ r.size
  pub inside : r.top + r.size ≤ start + size
  pub cleared : (i : ℕ) → i < r.page_table_entries → m (slot r.page_table i) ≡ 0

module _ (start size k : ℕ) (r : MemoryRegion) (m : Memory) where
  abbrev ps : ℕ
  ps = 2 ^ k

  abbrev end_addr : ℕ
  end_addr = table_end start size ps r m

  record Sizes : Type 0 where
    small : end_addr + ps ≤ 2 ^ 64
    below : end_addr ≤ alignup end_addr ps
    top_multiple : alignup end_addr ps / ps * ps ≡ alignup end_addr ps
    -- at least one page, and no more than is left
    one : ps ≤ aligndown (start + size - alignup end_addr ps) ps
    left : aligndown (start + size - alignup end_addr ps) ps ≤ start + size - alignup end_addr ps
    size_value :
        aligndown (start + size - alignup end_addr ps) ps
        ≡ (start + size - alignup end_addr ps) / ps * ps

  sizes : k < 64 → start + size + ps ≤ 2 ^ 64 → Accepted start size ps r m → Sizes
  sizes lt fits a = record {
    small = small;
    below = rw up (
        omega (
          arith,
          lt-div-mul-add {a = end_addr + (ps - 1)} {b = ps} (omega (arith, one-le-pow k 2)),
        ));
    top_multiple =
        rw up (
          rw
            (mul-div_cancel ((end_addr + (ps - 1)) / ps) {n = ps} (omega (arith, one-le-pow k 2))));
    one =
        rw down
          (grind (arith, a.room, lt-div-mul-add {a = start + size - alignup end_addr ps} {b = ps}));
    left = rw down (div-mul-le_self (start + size - alignup end_addr ps) ps);
    size_value = down;
  }
    where
      small : end_addr + ps ≤ 2 ^ 64
      small = grind (arith, a.at_least, div-mul-le_self size ps)

      down :
          aligndown (start + size - alignup end_addr ps) ps
          ≡ (start + size - alignup end_addr ps) / ps * ps
      down = aligndown_lem k (start + size - alignup end_addr ps) lt (omega arith)

      up : alignup end_addr ps ≡ (end_addr + (ps - 1)) / ps * ps
      up = alignup_lem k end_addr lt small

  -- With a page size of `2 ^ k`, and addresses that fit 64 bits, the region that is accepted is fresh: its
  -- table lies before its pages, its pages before the end of the memory given, and all entries are free.
  pub init-IsFresh :
      k < 64
      → start + size + ps ≤ 2 ^ 64
      → Accepted start size ps r m
      → (r' : MemoryRegion) × (m' : Memory) × (init_memory_region start size ps r m
          ≡ (pos 0, r', m'))
        × IsFresh start size ps r' m'
  init-IsFresh lt fits a = elim (init_outcome start size ps r m) [
    | inl (b, e) ↦
        let z = sizes lt fits a in
        (
          _,
          _,
          e,
          record {
            table = refl;
            entries = refl;
            pages = refl;
            unlocked = refl;
            behind_table = z.below;
            top_aligned = z.top_multiple;
            size_aligned = rw z.size_value (
                rw (
                  mul-div_cancel ((start + size - alignup end_addr ps) / ps) {n = ps}
                    (omega (arith, one-le-pow k 2))));
            one_page = z.one;
            inside = omega (arith, z.left, b.room);
            cleared = λ i h. ground (arith, clear_table-inside (size / ps) start m i h);
          },
        )
    | inr (no_way, _, _) ↦ absurd (no_way a)
  ]

-- Multiples of `p` are `p` apart.
next_multiple : (a b p : ℕ) → a * p < b * p → a * p + p ≤ b * p
next_multiple a b p h = elim (dec_lt a b) [
  | yes lt ↦ let s : a * p + p ≡ (a + 1) * p = omega arith in rw s (grind arith)
  | no ge ↦ absurd (grind arith)
]

module _ (start size ps : ℕ) (r : MemoryRegion) (m : Memory) where
  -- The table takes room from the pages and has an entry for each page of the whole memory, so it has
  -- more entries than there are pages, if the memory begins at a multiple of the page size.
  pub fresh_overcommits :
      IsFresh start size ps r m
      → 0 < ps
      → ps ≤ size
      → start / ps * ps ≡ start
      → r.size < r.page_table_entries * ps
  fresh_overcommits f ps_pos one aligned =
      let some_entry : 1 ≤ size / ps = grind (arith, lt-div-mul-add {a = size} {b = ps} ps_pos) in
      let above : start < r.top = omega (arith, f.behind_table, f.table, f.entries) in
      let next : start + ps ≤ r.top = rw (← aligned, ← f.top_aligned) (step above) in
      rw f.entries (omega (arith, f.inside, next, lt-div-mul-add {a = size} {b = ps} ps_pos))
    where
      step : start < r.top → start / ps * ps + ps ≤ r.top / ps * ps
      step lt = next_multiple (start / ps) (r.top / ps) ps (rw (aligned, f.top_aligned) lt)

  -- On a fresh region, a request for more bytes than it has, but for no more than the entries of its
  -- table stand for, is served from the first page on, though it reaches behind the region.
  pub malloc_beyond_region :
      (num_bytes : ℕ)
      → IsFresh start size ps r m
      → 0 < start
      → 0 < ps
      → r.size < num_bytes
      → num_bytes ≤ r.page_table_entries * ps
      → num_bytes + ps ≤ 2 ^ 64
      → (m' : Memory) × (malloc r m num_bytes ≡ some (r.top, r, m'))
  malloc_beyond_region num_bytes f mapped ps_pos more room fits =
      let at_top : 0 * r.page_size + r.top ≡ r.top = omega arith in
      let (m', e, _) =
        malloc_first_fit r m num_bytes 0 (rw f.table mapped) f.unlocked
          (rw f.pages (ceildiv-pos num_bytes ps ps_pos (omega arith) fits))
          (rw f.pages
            (omega (arith, ceildiv-le num_bytes ps r.page_table_entries ps_pos fits room)))
          (λ i h. absurd (omega arith)) (λ k h. free k h) in
      (m', rw at_top at e)
    where
      free : (k : ℕ) → k < ceildiv num_bytes r.page_size → m (slot r.page_table (k + 0)) % 2 ≡ 0
      free k h =
          let below : ceildiv num_bytes ps ≤ r.page_table_entries =
            ceildiv-le num_bytes ps r.page_table_entries ps_pos fits room in
          let e : k + 0 ≡ k = omega arith in
          rw (e, f.cleared k (omega (arith, below, ap (λ (t : ℕ). ceildiv num_bytes t) f.pages)))
