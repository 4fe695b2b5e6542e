-- ===== src/Malloc/Shape.antt =====
-- The page table under calls for any number of pages.
use cob_kernel.Common.{
  ℕ, ◌+◌, ◌-◌, ◌*◌, ◌≤◌, ◌<◌, ◌≡◌, ◌≢◌, ◌⊎◌, inl, inr, refl, arith, some, List, [], ◌∷◌, All,
  dec_lt, ℕ_discrete,
}
use cob_kernel.Util.{ceildiv}
use cob_kernel.Malloc.{MemoryRegion, Memory, page_entry_start_addr, malloc}
use cob_kernel.Malloc.Table.{slot, link, Outside, free_count}
use cob_kernel.Malloc.FindHole.{Hole}
use cob_kernel.Malloc.Correct.{Marked, malloc_outcome, mark_pages_used-Marked}
use cob_kernel.Malloc.FreeEnds.{Cleared, free-ends}
use cob_kernel.Malloc.Refine.{serve-done}
use cob_kernel.Malloc.Pages.{Call, kmalloc, kfree, serve, serve_all}

-- An entry is free, or the first of a block, or links to an entry before it.
abbrev pub IsEntry : ℕ → ℕ → ℕ → Type 0
IsEntry pt i w = (w ≡ 0) ⊎ ((w ≡ 1) ⊎ ((j : ℕ) × (j < i) × (w ≡ link (slot pt j))))

-- The table of a region whose semaphore is free, under requests for at most `limit` pages. The word `limit`
-- entries behind the table does not look like a link.
pub record Shaped (r : MemoryRegion) (m : Memory) (limit : ℕ) : Type 0 where
  pub unlocked : r.sem ≡ 0
  pub mapped : 0 < r.page_table
  pub some_size : 0 < r.page_size
  pub covered : r.size ≤ r.page_table_entries * r.page_size
  pub entry : (i : ℕ) → i < r.page_table_entries → IsEntry r.page_table i (m (slot r.page_table i))
  pub barrier :
      (j : ℕ)
      → page_entry_start_addr (m (slot r.page_table (r.page_table_entries + limit)))
        ≢ slot r.page_table j

module _ {r : MemoryRegion} {m : Memory} {limit : ℕ} (v : Shaped r m limit) where
  -- Entries that are marked keep the shape.
  Marked-Shaped :
      (pages s : ℕ) (m' : Memory)
      → s < r.page_table_entries
      → pages ≤ limit
      → Marked m r.page_table pages s m'
      → Shaped r m' limit
  Marked-Shaped pages s m' lt few k = record {
    unlocked = v.unlocked;
    mapped = v.mapped;
    some_size = v.some_size;
    covered = v.covered;
    entry = λ i h. entry i h;
    barrier =
        λ j. rw (k.unchanged (slot r.page_table (r.page_table_entries + limit)) far) (v.barrier j);
  }
    where
      far : Outside (slot r.page_table s) pages (slot r.page_table (r.page_table_entries + limit))
      far i h e = omega (arith, h, e, lt, few)

      entry : (i : ℕ) → i < r.page_table_entries → IsEntry r.page_table i (m' (slot r.page_table i))
      entry i h = elim (dec_lt i s) [
        | yes before ↦
            rw (k.unchanged (slot r.page_table i) (λ n q e. omega (arith, before, e))) (v.entry i h)
        | no from ↦ elim (dec_lt i (pages + s)) [
          | no behind ↦
              rw (k.unchanged (slot r.page_table i) (λ n q e. omega (arith, behind, q, e)))
                (v.entry i h)
          | yes within ↦ elim (ℕ_discrete i s) [
            | yes same ↦ rw same (inr (inl k.first))
            | no later ↦
                let e : i - s + s ≡ i = omega (arith, from) in
                inr (
                  inr (
                    s,
                    omega (arith, from, later),
                    rw e at (
                        k.others (i - s) (omega (arith, from, later))
                          (omega (arith, within, from))),
                  ))
          ]
        ]
      ]

  -- Words that are cleared keep the shape.
  Cleared-Shaped :
      (m' : Memory)
      → Cleared m (slot r.page_table (r.page_table_entries + limit)) m'
      → Shaped r m' limit
  Cleared-Shaped m' c = record {
    unlocked = v.unlocked;
    mapped = v.mapped;
    some_size = v.some_size;
    covered = v.covered;
    entry = λ i h. elim (c.word (slot r.page_table i)) [
      | inl same ↦ rw same (v.entry i h)
      | inr zero' ↦ inl zero'
    ];
    barrier = λ j. rw (c.same) (v.barrier j);
  }

  -- A run that is handed out is not empty.
  Hole-pos : (pages s j : ℕ) → Hole m r.page_table r.page_table_entries pages s j → 0 < pages
  unfolding free_count
  Hole-pos pages s j h =
      let last = h.run.open_from j h.start_le (omega arith) in ground (arith, h.counted)

  malloc-Shaped :
      (bytes : ℕ)
      → ceildiv bytes r.page_size ≤ limit
      → (a : ℕ) × (m' : Memory) × (malloc r m bytes ≡ some (a, r, m')) × Shaped r m' limit
  malloc-Shaped bytes few = elim (malloc_outcome r m bytes v.mapped v.unlocked) [
    | inl (why, run) ↦ (0, m, run, v)
    | inr (s, j, h, run) ↦ (
      _,
      _,
      run,
      Marked-Shaped (ceildiv bytes r.page_size) s _ (omega (arith, h.start_le, h.in_table)) few
          (mark_pages_used-Marked m r.page_table (ceildiv bytes r.page_size) s (Hole-pos _ s j h)),
    )
  ]

-- A request for at most `limit` pages; `kfree` may have any address.
abbrev pub IsLimited : MemoryRegion → ℕ → Call → Type 0
IsLimited r limit (kmalloc bytes) = ceildiv bytes r.page_size ≤ limit
IsLimited r limit (kfree addr) = Unit

serve-Shaped :
    {r : MemoryRegion} {m : Memory} {limit : ℕ} (fuel : ℕ) (c : Call)
    → 0 < limit
    → r.page_table_entries + limit < fuel
    → Shaped r m limit
    → IsLimited r limit c
    → (a : ℕ) × (m' : Memory) × (serve fuel c r m ≡ some (a, r, m')) × Shaped r m' limit
unfolding serve
serve-Shaped fuel (kmalloc bytes) more enough v few = malloc-Shaped v bytes few
serve-Shaped {r} {m} {limit} fuel (kfree addr) more enough v few =
    let (m', run, c) =
      free-ends fuel limit r m addr v.unlocked v.some_size v.covered more enough v.barrier in
    (0, m', serve-done fuel r m m' addr run, Cleared-Shaped v m' c)

-- Every sequence of calls returns, with requests for at most `limit` pages and any addresses to free, and
-- leaves the table in shape: every entry is free, the first of a block, or a link to an entry before it,
-- and the semaphore is free. The word `limit` entries behind the table must not look like a link to any
-- entry, and fuel of the entries of the table and `limit` and 1 is enough.
pub serve_all-Shaped :
    (fuel limit : ℕ) (r : MemoryRegion) (m : Memory) (calls : List Call)
    → 0 < limit
    → r.page_table_entries + limit < fuel
    → Shaped r m limit
    → All (IsLimited r limit) calls
    → (answers : List ℕ) × (m' : Memory) × (serve_all fuel calls r m ≡ some (answers, r, m'))
      × Shaped r m' limit
unfolding serve_all
serve_all-Shaped fuel limit r m [] more enough v few = ([], m, refl, v)
serve_all-Shaped fuel limit r m (c ∷ cs) more enough v (one, ones) =
    let (a, m1, first, v1) = serve-Shaped fuel c more enough v one in
    let (answers, m2, rest, v2) = serve_all-Shaped fuel limit r m1 cs more enough v1 ones in
    (a ∷ answers, m2, rw (first, rest) refl, v2)
