-- ===== src/Malloc/Refine/Give.antt =====
-- `_free`, on a page table that holds a set of pages.
use native.Mathlib.Nat.{div-mul-le_self}
use cob_kernel.Common.{
  ℕ, suc, ◌+◌, ◌-◌, ◌*◌, ◌≤◌, ◌<◌, ◌≡◌, ◌≢◌, ◌⊎◌, inl, inr, ap, ◌∙◌, arith, true, false, update,
  Bool-cases, dec_lt, ℕ_discrete,
}
use cob_kernel.Malloc.{
  MemoryRegion, Memory, free, done, page_entry_start_addr, is_first_page_in_block, clear_table,
}
use cob_kernel.Malloc.Table.{slot, Outside, clear_table-inside, clear_table-Outside}
use cob_kernel.Malloc.Free.{page, free_rejects, free_whole}
use cob_kernel.Malloc.Pages.{PageSet, kfree, page_of, is_block, promise}
use cob_kernel.Malloc.Refine.Held.{Represents}

module _ {r : MemoryRegion} {m : Memory} {used : PageSet} (v : Represents r m used) where
  open r use {page_table as pt, page_table_entries as total, page_size as ps}

  kfree-Represents :
      (i : ℕ) (m' : Memory)
      → i < total
      → m' (slot pt i) ≡ 0
      → ((a : ℕ) → Outside (slot pt i) 1 a → m' a ≡ m a)
      → Represents r m' (update used i false)
  kfree-Represents i m' lt cleared unchanged = record {
    unlocked = v.unlocked;
    mapped = v.mapped;
    not_null = v.not_null;
    some_size = v.some_size;
    small = v.small;
    covered = v.covered;
    entry = λ j h. elim (ℕ_discrete i j) [
      | yes same ↦ rw (← same) (ground (arith, cleared))
      | no other ↦
          ground
            (arith, unchanged (slot pt j) (λ n one e. other (omega (arith, one, e))), v.entry j h)
    ];
    behind = rw (unchanged (slot pt total) (λ n one e. omega (arith, one, e, lt))) v.behind;
  }

  -- The entry behind a block of one page does not link to it.
  no_link : (i : ℕ) → i < total → page_entry_start_addr (m (slot pt (suc 0 + i))) ≢ slot pt i
  no_link i lt = elim (dec_lt (suc 0 + i) total) [
    | yes next ↦ elim (Bool-cases (used (suc 0 + i))) [
      | inl t ↦ rw (v.entry (suc 0 + i) next, t) (λ e. omega (arith, e, v.mapped))
      | inr f ↦ rw (v.entry (suc 0 + i) next, f) (λ e. omega (arith, e, v.mapped))
    ]
    | no last ↦
        let e : suc 0 + i ≡ total = omega (arith, last, lt) in
        let e' : i ≡ total - 1 = omega (arith, last, lt) in rw (e, e') v.behind
  ]

  kfree_block :
      (fuel i : ℕ)
      → 0 < fuel
      → i < total
      → i * ps ≤ r.size
      → used i ≡ true
      → (m' : Memory) × (free fuel r m (page r i) ≡ done r m')
        × Represents r m' (update used i false)
  kfree_block fuel i enough lt inside t =
      let one : m (slot pt i) ≡ 1 = rw t at (v.entry i lt) in
      (
        clear_table 1 (slot pt i) m,
        free_whole fuel 0 r m i enough v.unlocked
            (record {
              inside = inside;
              not_null = v.not_null;
              some_size = v.some_size;
              first = rw one;
            })
            (λ k h. absurd (omega (arith, h))) (no_link i lt),
        kfree-Represents i (clear_table 1 (slot pt i) m) lt
            (let e : slot (slot pt i) 0 ≡ slot pt i = omega arith in
              rw e at (clear_table-inside 1 (slot pt i) m 0 (omega arith)))
            (λ a out. clear_table-Outside 1 (slot pt i) m a out),
      )

  in_table : (i : ℕ) → i * ps ≤ r.size → i < total
  in_table i inside = elim (dec_lt i total) [
    | yes lt ↦ lt
    | no ge ↦
        let le : total * ps ≤ i * ps = grind (arith, ge) in
        absurd (omega (arith, le, inside, v.covered))
  ]

  -- An address below the end of the region names a page that has an entry.
  page_inside : (addr : ℕ) → addr ≤ r.top + r.size → page_of r addr * ps ≤ r.size
  page_inside addr le = omega (arith, div-mul-le_self (addr - r.top) ps, le)

  -- Why an address is no block.
  not_block :
      (addr : ℕ)
      → is_block r used addr ≡ false
      → (addr ≡ 0)
        ⊎ ((addr < r.top)
            ⊎ ((r.top + r.size < addr)
                ⊎ ((addr ≢ page r (page_of r addr))
                    ⊎ (is_first_page_in_block (m (slot pt (page_of r addr))) ≡ false))))
  not_block addr other = elim (dec_lt (r.top + r.size) addr) [
    | yes beyond ↦ inr (inr (inl beyond))
    | no below ↦
        let entry =
          v.entry (page_of r addr)
            (in_table (page_of r addr) (page_inside addr (omega (arith, below)))) in
        elim (Bool-cases (used (page_of r addr))) [
          | inr f ↦
              let zero_entry : m (slot pt (page_of r addr)) ≡ 0 = rw f at entry in
              inr (inr (inr (inr (rw zero_entry))))
          | inl t ↦ ground (arith, other, t, below)
        ]
  ]

  -- `kfree` of any address does what the specification says.
  pub kfree_refines :
      (fuel addr : ℕ)
      → 0 < fuel
      → (m' : Memory) × (free fuel r m addr ≡ done r m')
        × Represents r m' (promise (kfree addr) r used).1
  unfolding promise
  kfree_refines fuel addr enough = elim (Bool-cases (is_block r used addr)) [
    | inl block ↦
        let here : addr ≡ page r (page_of r addr) = ground (arith, block) in
        let below : addr ≤ r.top + r.size = ground (arith, block) in
        let inside = page_inside addr below in
        let (m', run, kept) =
          kfree_block fuel (page_of r addr) enough (in_table (page_of r addr) inside) inside
            (ground (arith, block)) in
        (m', ap (free fuel r m) here ∙ run, rw block kept)
    | inr other ↦ (m, free_rejects fuel r m addr v.unlocked (not_block addr other), rw other v)
  ]
