-- ===== src/Malloc/Refine/Held.antt =====
-- A page table that holds a set of pages, and the search of the specification.
use cob_kernel.Common.{
  ℕ, zero, suc, ◌+◌, ◌-◌, ◌*◌, ◌^◌, ◌≤◌, ◌<◌, ◌≡◌, ◌≢◌, inl, inr, arith, true, false, none, some,
  if◌then◌else◌, Bool-cases, ℕ_discrete,
}
use cob_kernel.Malloc.{MemoryRegion, Memory, page_entry_start_addr}
use cob_kernel.Malloc.Table.{slot}
use cob_kernel.Malloc.Pages.{PageSet, first_free}

-- The table of a region that is not locked holds a set of pages: an entry is 1 for a page in use and 0 for
-- a free one. Every address of the region has an entry, and the word behind the table does not link to the
-- last entry.
pub record Represents (r : MemoryRegion) (m : Memory) (used : PageSet) : Type 0 where
  pub unlocked : r.sem ≡ 0
  pub mapped : 0 < r.page_table
  pub not_null : 0 < r.top
  pub some_size : 0 < r.page_size
  pub small : r.page_size + r.page_size ≤ 2 ^ 64
  pub covered : r.size < r.page_table_entries * r.page_size
  pub entry :
      (i : ℕ) → i < r.page_table_entries → m (slot r.page_table i) ≡ (if used i then 1 else 0)
  pub behind :
      page_entry_start_addr (m (slot r.page_table r.page_table_entries))
      ≢ slot r.page_table (r.page_table_entries - 1)

-- The search of the specification.
pub first_free-none :
    (used : PageSet) (n k i : ℕ) → first_free used n k ≡ none → k ≤ i → i < k + n → used i ≡ true
unfolding first_free
first_free-none used zero k i e lo hi = absurd (omega (arith, lo, hi))
first_free-none used (suc n) k i e lo hi = elim (Bool-cases (used k)) [
  | inr open_page ↦ absurd (cc (rw open_page at e))
  | inl taken ↦
      let rest : first_free used n (suc k) ≡ none = rw taken at e in
      elim (ℕ_discrete i k) [
        | yes same ↦ rw same taken
        | no later ↦
            first_free-none used n (suc k) i rest (omega (arith, lo, later)) (omega (arith, hi))
      ]
]

pub first_free-some :
    (used : PageSet) (n k s : ℕ)
    → first_free used n k ≡ some s
    → (k ≤ s) × (s < k + n) × (used s ≡ false) × ((i : ℕ) → k ≤ i → i < s → used i ≡ true)
unfolding first_free
first_free-some used zero k s e = cc
first_free-some used (suc n) k s e = elim (Bool-cases (used k)) [
  | inr open_page ↦
      let same : k ≡ s = cc (rw open_page at e) in
      (
        omega (arith, same),
        omega (arith, same),
        rw (← same) open_page,
        λ i lo hi. absurd (omega (arith, lo, hi, same)),
      )
  | inl taken ↦
      let (lo, hi, open_page, before) = first_free-some used n (suc k) s (rw taken at e) in
      (
        omega (arith, lo),
        omega (arith, hi),
        open_page,
        λ i from_k below. elim (ℕ_discrete i k) [
          | yes same ↦ rw same taken
          | no later ↦ before i (omega (arith, from_k, later)) below
        ],
      )
]
