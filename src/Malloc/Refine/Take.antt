-- ===== src/Malloc/Refine/Take.antt =====
-- `_malloc` of one page, on a page table that holds a set of pages.
use cob_kernel.Common.{
  ℕ, ◌+◌, ◌*◌, ◌%◌, ◌≤◌, ◌<◌, ◌≡◌, inl, inr, refl, arith, true, false, none, some, if◌then◌else◌,
  update, Option-cases, Bool-cases, ℕ_discrete,
}
use cob_kernel.Util.{ceildiv}
use cob_kernel.Util.Ceildiv.{ceildiv-le, ceildiv-pos}
use cob_kernel.Malloc.{MemoryRegion, Memory, malloc, find_hole}
use cob_kernel.Malloc.Table.{slot}
use cob_kernel.Malloc.FindHole.{Found, find_hole_lem}
use cob_kernel.Malloc.Alloc.{malloc-null}
use cob_kernel.Malloc.Correct.{Marked, malloc_first_fit}
use cob_kernel.Malloc.Pages.{PageSet, kmalloc, first_free, promise}
use cob_kernel.Malloc.Refine.Held.{Represents, first_free-none, first_free-some}

module _ {r : MemoryRegion} {m : Memory} {used : PageSet} (v : Represents r m used) where
  open r use {page_table as pt, page_table_entries as total, page_size as ps}

  low_bit : (i : ℕ) → i < total → m (slot pt i) % 2 ≡ (if used i then 1 else 0)
  low_bit i h = elim (Bool-cases (used i)) [
    | inl t ↦ rw (v.entry i h, t) refl
    | inr f ↦ rw (v.entry i h, f) refl
  ]

  one_page : (bytes : ℕ) → 0 < bytes → bytes ≤ ps → ceildiv bytes ps ≡ 1
  one_page bytes some_bytes few = omega (
    arith,
    ceildiv-le bytes ps 1 v.some_size (omega (arith, few, v.small)) (omega (arith, few)),
    ceildiv-pos bytes ps v.some_size some_bytes (omega (arith, few, v.small)),
  )

  -- No page is free: the search of the code fails.
  full-malloc :
      (bytes : ℕ)
      → 0 < bytes
      → bytes ≤ ps
      → ((i : ℕ) → i < total → used i ≡ true)
      → malloc r m bytes ≡ some (0, r, m)
  full-malloc bytes some_bytes few full =
      malloc-null r m bytes v.mapped v.unlocked (go (find_hole_lem r m (ceildiv bytes ps) v.mapped))
    where
      go :
          Found m pt total (ceildiv bytes ps) (find_hole r m (ceildiv bytes ps))
          → find_hole r m (ceildiv bytes ps) ≡ 0
      go (inl (e, why)) = e
      go (inr (s, j, e, h)) =
          let bit = low_bit j h.in_table in
          let taken : used j ≡ true = full j h.in_table in
          let one : m (slot pt j) % 2 ≡ 1 = rw taken at bit in
          absurd (omega (arith, one, h.run.open_from j h.start_le (omega arith)))

  kmalloc-Represents :
      (pages i : ℕ) (m' : Memory)
      → pages ≡ 1
      → i < total
      → Marked m pt pages i m'
      → Represents r m' (update used i true)
  kmalloc-Represents pages i m' single lt k = record {
    unlocked = v.unlocked;
    mapped = v.mapped;
    not_null = v.not_null;
    some_size = v.some_size;
    small = v.small;
    covered = v.covered;
    entry = λ j h. elim (ℕ_discrete i j) [
      | yes same ↦ rw (← same) (ground (arith, k.first))
      | no other ↦ ground (
        arith,
        k.unchanged (slot pt j) (λ n one e. other (omega (arith, single, one, e))),
        v.entry j h,
      )
    ];
    behind =
        rw (k.unchanged (slot pt total) (λ n one e. omega (arith, single, one, e, lt))) v.behind;
  }

  promise-full :
      (bytes : ℕ) → first_free used total 0 ≡ none → promise (kmalloc bytes) r used ≡ (0, used)
  unfolding promise
  promise-full bytes e = rw (e, promise)

  pub promise-take :
      (bytes s : ℕ)
      → first_free used total 0 ≡ some s
      → promise (kmalloc bytes) r used ≡ (s * ps + r.top, update used s true)
  unfolding promise
  promise-take bytes s e = rw (e, promise)

  -- `kmalloc` of at most a page returns what the specification says.
  pub kmalloc_refines :
      (bytes : ℕ)
      → 0 < bytes
      → bytes ≤ ps
      → (m' : Memory) × (malloc r m bytes ≡ some ((promise (kmalloc bytes) r used).0, r, m'))
        × Represents r m' (promise (kmalloc bytes) r used).1
  kmalloc_refines bytes some_bytes few = elim (Option-cases (first_free used total 0)) [
    | inl e ↦ rw (promise-full bytes e) (
      m,
      full-malloc bytes some_bytes few
          (λ i h. first_free-none used total 0 i e (omega arith) (omega (arith, h))),
      v,
    )
    | inr (s, e) ↦
        let (_, lt, open_page, before) = first_free-some used total 0 s e in
        let one = one_page bytes some_bytes few in
        let (m', run, marked) =
          malloc_first_fit r m bytes s v.mapped v.unlocked (omega (arith, one))
            (omega (arith, one, lt))
            (λ i h. used_bit i (omega (arith, h, lt)) (before i (omega arith) h))
            (λ k h. free_bit k s (omega (arith, h, one)) (omega (arith, lt)) open_page) in
        rw (promise-take bytes s e)
          (m', run, kmalloc-Represents (ceildiv bytes ps) s m' one (omega (arith, lt)) marked)
  ]
    where
      used_bit : (i : ℕ) → i < total → used i ≡ true → m (slot pt i) % 2 ≡ 1
      used_bit i h t = rw t at (low_bit i h)

      free_bit : (k s : ℕ) → k ≡ 0 → s < total → used s ≡ false → m (slot pt (k + s)) % 2 ≡ 0
      free_bit k s z h t = let e : k + s ≡ s = omega (arith, z) in rw e (rw t at (low_bit s h))
