-- ===== src/Malloc/Correct.antt =====
-- `_malloc`, stated on the page table.
use cob_kernel.Common.{
  ℕ, zero, suc, ◌+◌, ◌-◌, ◌*◌, ◌%◌, ◌≤◌, ◌<◌, ◌≡◌, ◌⊎◌, inl, inr, refl, arith, some,
}
use cob_kernel.Util.{ceildiv}
use cob_kernel.Malloc.{Memory, MemoryRegion, find_hole, mark_pages_used, malloc}
use cob_kernel.Malloc.Table.{
  slot, free_count, link, mark_pages_used-first, mark_pages_used-next, mark_pages_used-Outside,
  Outside,
}
use cob_kernel.Malloc.FindHole.{Hole, Found, find_hole_lem}
use cob_kernel.Malloc.Alloc.{Placed, find_hole-Placed, malloc-null, malloc-some}

pub free_count-used :
    (m : Memory) (pt n : ℕ) → ((i : ℕ) → i < n → m (slot pt i) % 2 ≡ 1) → free_count m pt n ≡ 0
unfolding free_count
free_count-used m pt zero used = refl
free_count-used m pt (suc n) used =
    ground (arith, used n (omega arith), free_count-used m pt n (λ i h. used i (omega arith)))

-- For a table that is not at NULL, and with the semaphore free, `_malloc` returns NULL and changes nothing if the request comes to no page or
-- to more pages than the table has free entries; else it marks `num_pages` entries from the run that
-- `find_hole` names, and returns the address of its first page. The semaphore is free afterwards.
pub malloc_outcome :
    (r : MemoryRegion) (m : Memory) (num_bytes : ℕ)
    → 0 < r.page_table
    → r.sem ≡ 0
    → let pages = ceildiv num_bytes r.page_size in
      ((((pages ≡ 0) ⊎ (free_count m r.page_table r.page_table_entries < pages))
          × (malloc r m num_bytes ≡ some (0, r, m)))
        ⊎ ((s : ℕ) × (j : ℕ) × Hole m r.page_table r.page_table_entries pages s j
            × (malloc r m num_bytes
                ≡ some
                    (s * r.page_size + r.top, r, mark_pages_used (slot r.page_table s) pages m))))
malloc_outcome r m num_bytes mapped sem = go (find_hole_lem r m pages mapped)
  where
    pages : ℕ
    pages = ceildiv num_bytes r.page_size

    go :
        Found m r.page_table r.page_table_entries
          (ceildiv num_bytes r.page_size)
          (find_hole r m (ceildiv num_bytes r.page_size))
        → (((ceildiv num_bytes r.page_size ≡ 0)
              ⊎ (free_count m r.page_table r.page_table_entries < ceildiv num_bytes r.page_size))
            × (malloc r m num_bytes ≡ some (0, r, m)))
          ⊎ ((s : ℕ) × (j : ℕ) × Hole m r.page_table r.page_table_entries
                (ceildiv num_bytes r.page_size)
                s
                j
              × (malloc r m num_bytes
                  ≡ some (
                    s * r.page_size + r.top,
                    r,
                    mark_pages_used (slot r.page_table s) (ceildiv num_bytes r.page_size) m,
                  )))
    go (inl (e, why)) = inl (why, malloc-null r m num_bytes mapped sem e)
    go (inr (s, j, e, h)) = inr (s, j, h, malloc-some r m num_bytes mapped s sem e)

-- What a call leaves in memory that marks `pages` entries from the entry `s` on.
pub record Marked (m : Memory) (pt pages s : ℕ) (m' : Memory) : Type 0 where
  pub first : m' (slot pt s) ≡ 1
  pub others : (i : ℕ) → 0 < i → i < pages → m' (slot pt (i + s)) ≡ link (slot pt s)
  pub unchanged : (a : ℕ) → Outside (slot pt s) pages a → m' a ≡ m a

pub mark_pages_used-Marked :
    (m : Memory) (pt pages s : ℕ)
    → 0 < pages
    → Marked m pt pages s (mark_pages_used (slot pt s) pages m)
mark_pages_used-Marked m pt pages s pos = record {
  first = mark_pages_used-first (slot pt s) pages m;
  others = λ i lo hi.
      let e : slot pt (i + s) ≡ slot (slot pt s) i = omega arith in
      rw e (mark_pages_used-next (slot pt s) pages m i lo hi);
  unchanged = λ a out. mark_pages_used-Outside (slot pt s) pages m a pos out;
}

module _ (r : MemoryRegion) (m : Memory) (num_bytes s : ℕ) (mapped : 0 < r.page_table) where
  open r use {page_table as pt, page_table_entries as total}

  -- For a table that is not at NULL, with the semaphore free: if the request is not empty, the entries before `s`
  -- are in use and the `num_pages` entries from `s` on are free, `_malloc` returns the page of `s`, and
  -- exactly those entries are marked.
  pub malloc_first_fit :
      r.sem ≡ 0
      → 0 < ceildiv num_bytes r.page_size
      → ceildiv num_bytes r.page_size + s ≤ total
      → ((i : ℕ) → i < s → m (slot pt i) % 2 ≡ 1)
      → ((k : ℕ) → k < ceildiv num_bytes r.page_size → m (slot pt (k + s)) % 2 ≡ 0)
      → (m' : Memory) × (malloc r m num_bytes ≡ some (s * r.page_size + r.top, r, m'))
        × Marked m pt (ceildiv num_bytes r.page_size) s m'
  malloc_first_fit sem pos fits used free = (
    _,
    malloc-some r m num_bytes mapped s sem (find_hole-Placed r m _ mapped s _ placed),
    mark_pages_used-Marked m pt _ s pos,
  )
    where
      none_free : free_count m pt s ≡ 0
      none_free = free_count-used m pt s used

      edge : (n : ℕ) → n ≡ s → (s ≡ 0) ⊎ (m (slot pt (s - 1)) % 2 ≡ 1)
      edge zero e = inl (omega arith)
      edge (suc n) e = inr (used (s - 1) (omega arith))

      placed : Placed m pt total (ceildiv num_bytes r.page_size) s (ceildiv num_bytes r.page_size)
      placed = record {
        edge = edge s refl;
        free = free;
        fewer = omega (arith, none_free);
        enough = omega (arith, none_free);
        in_table = fits;
      }

  -- Free entries that lie before a run are counted too. With the semaphore free, a run of `x` entries, fewer than the
  -- request, is handed out as well: the entry behind the run is overwritten though it is in use, and
  -- then names a page of the new block.
  pub malloc_overlaps :
      (x : ℕ)
      → r.sem ≡ 0
      → Placed m pt total (ceildiv num_bytes r.page_size) s x
      → 0 < x
      → x < ceildiv num_bytes r.page_size
      → m (slot pt (x + s)) % 2 ≡ 1
      → (m' : Memory) × (malloc r m num_bytes ≡ some (s * r.page_size + r.top, r, m'))
        × (m' (slot pt (x + s)) ≡ link (slot pt s))
  malloc_overlaps x sem placed pos short used = (
    _,
    malloc-some r m num_bytes mapped s sem (find_hole-Placed r m _ mapped s x placed),
    (mark_pages_used-Marked m pt _ s (omega arith)).others x pos short,
  )
