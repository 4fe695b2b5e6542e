-- ===== src/Malloc/FreeEnds.antt =====
-- `_free` on any page table: it ends when some word behind the entry does not link to it, and clears words
-- only.
use native.Mathlib.Nat.{div-lt_iff_lt-mul}
use cob_kernel.Common.{
  ℕ, zero, suc, ◌+◌, ◌-◌, ◌*◌, ◌/◌, ◌≤◌, ◌<◌, ◌≡◌, ◌≢◌, ◌⊎◌, inl, inr, refl, arith, not, ◌||◌, some,
  update, ℕ_discrete, Bool-cases, dec_lt, ==-of_eq, ==-of_ne, ◌==◌,
}
use cob_kernel.Semaphore.{arm64_take_semaphore_exclusive, arm64_put_semaphore_exclusive}
use cob_kernel.Malloc.{
  MemoryRegion, Memory, entry_size, page_entry_start_addr, is_first_page_in_block, free_loop,
  free_locked, free, done,
}
use cob_kernel.Malloc.Table.{slot}
use cob_kernel.Malloc.Free.{update-next, free_rejects}

-- Every word is kept or cleared, and the one at `kept` is kept.
pub record Cleared (m : Memory) (kept : ℕ) (m' : Memory) : Type 0 where
  pub word : (a : ℕ) → (m' a ≡ m a) ⊎ (m' a ≡ 0)
  pub same : m' kept ≡ m kept

Cleared-refl : (m : Memory) (kept : ℕ) → Cleared m kept m
Cleared-refl m kept = record { word = λ a. inl refl; same = refl }

-- A word is cleared first.
Cleared-update :
    {m m' : Memory} {kept : ℕ} (cur : ℕ)
    → cur ≢ kept
    → Cleared (update m cur 0) kept m'
    → Cleared m kept m'
Cleared-update {m} {m'} {kept} cur ne c = record {
  word = λ a. ground (arith, c.word a);
  same = ground (arith, c.same);
}

free_loop-ends :
    (n fuel start cur : ℕ) (m : Memory)
    → n < fuel
    → page_entry_start_addr (m (slot cur n)) ≢ start
    → (m' : Memory) × (free_loop fuel start cur m ≡ some m') × Cleared m (slot cur n) m'
unfolding free_loop
free_loop-ends n zero start cur m enough stop = absurd (omega (arith, enough))
free_loop-ends zero (suc fuel) start cur m enough stop =
    let e : slot cur 0 ≡ cur = omega arith in
    (m, rw (==-of_ne _ _ (rw e at stop)) refl, Cleared-refl m (slot cur 0))
free_loop-ends (suc n) (suc fuel) start cur m enough stop =
    let next : slot (cur + entry_size) n ≡ slot cur (suc n) = omega arith in
    let (m', run, c) =
      free_loop-ends n fuel start (cur + entry_size) (update m cur 0) (omega (arith, enough))
        (rw (update-next m cur n) stop) in
    elim (ℕ_discrete (page_entry_start_addr (m cur)) start) [
      | no now ↦ (m, rw (==-of_ne _ _ now) refl, Cleared-refl m (slot cur (suc n)))
      | yes linked ↦ (
        m',
        rw (==-of_eq _ _ linked) run,
        Cleared-update cur (λ e. omega (arith, e)) (rw next at c),
      )
    ]

-- The word that stops the loop lies `n` entries behind the one that `addr` names.
free_locked-ends :
    (n fuel : ℕ) (r : MemoryRegion) (m : Memory) (addr : ℕ)
    → let entry = slot r.page_table ((addr - r.top) / r.page_size) in
      n < fuel
      → page_entry_start_addr (m (slot entry (suc n))) ≢ entry
      → (m' : Memory) × (free_locked fuel r m addr ≡ done (record r { sem = 0 }) m')
        × Cleared m (slot entry (suc n)) m'
unfolding free_locked arm64_put_semaphore_exclusive
free_locked-ends n fuel r m addr enough stop =
    let idx = (addr - r.top) / r.page_size in
    let entry = slot r.page_table idx in
    let next : slot (entry + entry_size) n ≡ slot entry (suc n) = omega arith in
    let rejected =
      not (addr == r.top + idx * r.page_size) || not (is_first_page_in_block (m entry)) in
    elim (Bool-cases rejected) [
      | inl bad ↦ (m, rw bad refl, Cleared-refl m _)
      | inr good ↦
          let (m', run, c) =
            free_loop-ends n fuel entry (entry + entry_size) (update m entry 0) enough
              (rw (update-next m entry n) stop) in
          (m', rw (good, run) refl, Cleared-update entry (λ e. omega (arith, e)) (rw next at c))
    ]

-- The same, with the index of the word that stops the loop.
free_locked-at :
    (n fuel : ℕ) (r : MemoryRegion) (m : Memory) (addr b : ℕ)
    → suc ((addr - r.top) / r.page_size) + n ≡ b
    → n < fuel
    → ((j : ℕ) → page_entry_start_addr (m (slot r.page_table b)) ≢ slot r.page_table j)
    → (m' : Memory) × (free_locked fuel r m addr ≡ done (record r { sem = 0 }) m')
      × Cleared m (slot r.page_table b) m'
free_locked-at n fuel r m addr b last enough stop =
    let idx = (addr - r.top) / r.page_size in
    let far : slot (slot r.page_table idx) (suc n) ≡ slot r.page_table b = omega (arith, last) in
    let (m', run, c) = free_locked-ends n fuel r m addr enough (rw far (stop idx)) in
    (m', run, rw far at c)

-- `_free` under the semaphore.
free-locked :
    (fuel : ℕ) (r : MemoryRegion) (m m' : Memory) (addr : ℕ)
    → r.sem ≡ 0
    → addr ≢ 0
    → r.top ≤ addr
    → addr ≤ r.top + r.size
    → free_locked fuel (record r { sem = 1 }) m addr ≡ done (record r { sem = 0 }) m'
    → free fuel r m addr ≡ done r m'
unfolding free arm64_take_semaphore_exclusive
free-locked fuel r m m' addr sem nz lo hi run = ground (arith, run)

index-le :
    (r : MemoryRegion) (addr : ℕ)
    → 0 < r.page_size
    → r.size ≤ r.page_table_entries * r.page_size
    → addr ≤ r.top + r.size
    → (addr - r.top) / r.page_size ≤ r.page_table_entries
index-le r addr some_size covered hi =
    let below =
      (div-lt_iff_lt-mul {k = r.page_size} {x = addr - r.top} {y = suc r.page_table_entries}
          some_size).1
        (omega (arith, covered, hi, some_size)) in
    omega (arith, below)

-- A table whose region has no more pages than the table has entries.
pub free-ends :
    (fuel limit : ℕ) (r : MemoryRegion) (m : Memory) (addr : ℕ)
    → r.sem ≡ 0
    → 0 < r.page_size
    → r.size ≤ r.page_table_entries * r.page_size
    → 0 < limit
    → r.page_table_entries + limit < fuel
    → ((j : ℕ)
        → page_entry_start_addr (m (slot r.page_table (r.page_table_entries + limit)))
          ≢ slot r.page_table j)
    → (m' : Memory) × (free fuel r m addr ≡ done r m')
      × Cleared m (slot r.page_table (r.page_table_entries + limit)) m'
free-ends fuel limit r m addr sem some_size covered more enough stop = elim (ℕ_discrete addr 0) [
  | yes null ↦ (m, free_rejects fuel r m addr sem (inl null), Cleared-refl m _)
  | no nz ↦ elim (dec_lt addr r.top) [
    | yes below ↦ (m, free_rejects fuel r m addr sem (inr (inl below)), Cleared-refl m _)
    | no lo ↦ elim (dec_lt (r.top + r.size) addr) [
      | yes above ↦ (m, free_rejects fuel r m addr sem (inr (inr (inl above))), Cleared-refl m _)
      | no hi ↦
          let top_le : r.top ≤ addr = omega (arith, lo) in
          let le_end : addr ≤ r.top + r.size = omega (arith, hi) in
          let idx = (addr - r.top) / r.page_size in
          let few : idx ≤ r.page_table_entries = index-le r addr some_size covered le_end in
          let n = r.page_table_entries + limit - suc idx in
          let last : suc idx + n ≡ r.page_table_entries + limit = omega (arith, few, more) in
          let (m', run, c) =
            free_locked-at n fuel (record r { sem = 1 }) m addr (r.page_table_entries + limit) last
              (omega (arith, enough)) stop in
          (m', free-locked fuel r m m' addr sem nz top_le le_end run, c)
    ]
  ]
]
