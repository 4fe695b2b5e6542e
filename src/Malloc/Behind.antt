-- ===== src/Malloc/Behind.antt =====
-- What `_malloc` and `_free` write behind the page table.
use cob_kernel.Common.{ℕ, ◌+◌, ◌-◌, ◌*◌, ◌<◌, ◌≡◌, arith, some}
use cob_kernel.Util.{ceildiv}
use cob_kernel.Malloc.{MemoryRegion, Memory, malloc}
use cob_kernel.Malloc.Table.{slot, link}
use cob_kernel.Malloc.Alloc.{Placed, find_hole-Placed, malloc-some}
use cob_kernel.Malloc.Correct.{mark_pages_used-Marked}

-- The pages are marked from the last run of free entries on, without a look at the end of the table. For a
-- table that is not at NULL, with the semaphore free: if the run of free entries in which the count of free
-- entries reaches the request begins fewer entries before the end of the table than the request has pages,
-- the word behind the table is overwritten with the link of an entry.
pub malloc_writes_behind :
    (r : MemoryRegion) (m : Memory) (num_bytes s x : ℕ)
    → 0 < r.page_table
    → r.sem ≡ 0
    → Placed m r.page_table r.page_table_entries (ceildiv num_bytes r.page_size) s x
    → r.page_table_entries < s + ceildiv num_bytes r.page_size
    → (m' : Memory) × (malloc r m num_bytes ≡ some (s * r.page_size + r.top, r, m'))
      × (m' (slot r.page_table r.page_table_entries) ≡ link (slot r.page_table s))
malloc_writes_behind r m num_bytes s x mapped sem placed far =
    let total = r.page_table_entries in
    let pages = ceildiv num_bytes r.page_size in
    let marked = mark_pages_used-Marked m r.page_table pages s (omega (arith, placed.fewer)) in
    let last : total - s + s ≡ total = omega (arith, placed.in_table) in
    (
      _,
      malloc-some r m num_bytes mapped s sem (find_hole-Placed r m pages mapped s x placed),
      rw last at (
          marked.others (total - s) (omega (arith, placed.in_table, placed.fewer, placed.enough))
            (omega (arith, far, placed.in_table))),
    )
