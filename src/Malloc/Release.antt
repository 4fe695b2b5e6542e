-- ===== src/Malloc/Release.antt =====
-- `_malloc` followed by `_free`: which blocks come back whole, and which do not.
use cob_kernel.Common.{ℕ, suc, ◌+◌, ◌-◌, ◌*◌, ◌%◌, ◌≤◌, ◌<◌, ◌≡◌, ◌≢◌, inr, ◌∙◌, arith, update}
use cob_kernel.Malloc.{Memory, MemoryRegion, page_entry_start_addr, clear_table, done, free}
use cob_kernel.Malloc.Table.{slot, clear_table-inside, clear_table-Outside, Outside}
use cob_kernel.Malloc.Correct.{Marked}
use cob_kernel.Malloc.Free.{BlockStart, page, free_rejects, free_first_only, free_whole, index-page}

module _ (fuel pages s : ℕ) (r : MemoryRegion) (m m' : Memory) where
  open r use {page_table as pt}

  -- The region as `free` wants it: the semaphore is free, and the page lies inside.
  pub record InRegion (i : ℕ) : Type 0 where
    pub sem : r.sem ≡ 0
    pub inside : i * r.page_size ≤ r.size
    pub not_null : 0 < r.top
    pub some_size : 0 < r.page_size

  block_start : InRegion s → Marked m pt pages s m' → BlockStart r m' s
  block_start g k = record {
    inside = g.inside;
    not_null = g.not_null;
    some_size = g.some_size;
    first = rw k.first;
  }

  -- A block of `pages` pages whose first entry lies at a multiple of 4096 is released whole: all its
  -- entries are 0 again, and no other word differs from what it was before the block was taken. The
  -- entry behind the block must not link to it, and the fuel must be the number of pages at least.
  pub free-malloc_aligned :
      InRegion s
      → Marked m pt pages s m'
      → 0 < pages
      → pages ≤ fuel
      → slot pt s % 0x1000 ≡ 0
      → page_entry_start_addr (m (slot pt (pages + s))) ≢ slot pt s
      → (m'' : Memory) × (free fuel r m' (page r s) ≡ done r m'')
        × ((i : ℕ) → i < pages → m'' (slot pt (i + s)) ≡ 0)
        × ((a : ℕ) → Outside (slot pt s) pages a → m'' a ≡ m a)
  free-malloc_aligned g k pos enough aligned stop = (
    clear_table pages (slot pt s) m',
    released,
    λ i h.
        let e : slot pt (i + s) ≡ slot (slot pt s) i = omega arith in
        rw e (clear_table-inside pages (slot pt s) m' i h),
    λ a out. clear_table-Outside pages (slot pt s) m' a out ∙ k.unchanged a out,
  )
    where
      linked :
          (i : ℕ) → i < pages - 1 → page_entry_start_addr (m' (slot pt (suc i + s))) ≡ slot pt s
      linked i h = rw (k.others (suc i) (omega arith) (omega arith)) (omega arith)

      released : free fuel r m' (page r s) ≡ done r (clear_table pages (slot pt s) m')
      released =
          let e : suc (pages - 1) ≡ pages = omega arith in
          rw e at (
            free_whole fuel (pages - 1) r m' s (omega arith) g.sem (block_start g k) linked
              (rw (e, k.unchanged (slot pt (pages + s)) (λ i h. omega arith)) stop))

  -- For a table from 4096 on, a block whose first entry does not lie at a multiple of 4096 leaks: only the entry of its
  -- first page is cleared; those of the others still link to it, so they stay in use, and a call for one
  -- of these pages changes nothing.
  pub free_leaks :
      InRegion s
      → Marked m pt pages s m'
      → 0 < fuel
      → slot pt s % 0x1000 ≢ 0
      → 0x1000 ≤ pt
      → (m'' : Memory) × (free fuel r m' (page r s) ≡ done r m'')
        × (m'' (slot pt s) ≡ 0)
        × ((i : ℕ)
            → 0 < i
            → i < pages
            → (m'' (slot pt (i + s)) % 2 ≡ 1) × (free fuel r m'' (page r (i + s)) ≡ done r m''))
  free_leaks g k pos unaligned mapped = (
    update m' (slot pt s) 0,
    free_first_only fuel r m' s pos g.sem (block_start g k) unaligned,
    ground arith,
    λ i lo hi. (kept i lo hi, refused i lo hi),
  )
    where
      kept : (i : ℕ) → 0 < i → i < pages → update m' (slot pt s) 0 (slot pt (i + s)) % 2 ≡ 1
      kept i lo hi = ground (arith, k.others i lo hi)

      refused :
          (i : ℕ)
          → 0 < i
          → i < pages
          → free fuel r (update m' (slot pt s) 0) (page r (i + s))
            ≡ done r (update m' (slot pt s) 0)
      refused i lo hi = free_rejects fuel r (update m' (slot pt s) 0) (page r (i + s)) g.sem (
          inr (
            inr (
              inr
                (inr (rw (index-page r (i + s) g.some_size) (ground (arith, k.others i lo hi)))))))
