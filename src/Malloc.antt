-- ===== src/Malloc.antt =====
-- malloc.c: the page allocator. Memory is a function from the address of an aligned 8-byte word to the
-- word; a region's page table is the words from `page_table` on. Pointers are numbers, and NULL is 0.
-- Where the code masks by a constant, the mask is written as division and remainder.
pub mod Table
pub mod FindHole
pub mod Alloc
pub mod Correct
pub mod Free
pub mod Release
pub mod DoubleFree
pub mod Init
pub mod Locking
pub mod Pages
pub mod Refine
pub mod Heap
pub mod Region
pub mod Behind
pub mod FreeEnds
pub mod Shape
pub mod Report
mod Tests
mod Runs
mod ShapeRuns
use cob_kernel.Common.{
  ℕ, zero, suc, ◌+◌, ◌-◌, ◌*◌, ◌/◌, ◌%◌, ◌^◌, ◌≡◌, refl, Bool, true, false, not, ◌||◌, Option, none,
  some, ltb, leb, ◌==◌, if◌then◌else◌, update, add64,
}
use cob_kernel.Common.Int.{ℤ, pos, negsuc}
use cob_kernel.Util.{ceildiv, alignup, aligndown, ispow2}
use cob_kernel.Semaphore.{
  arm64_take_semaphore_exclusive, arm64_put_semaphore_exclusive, arm64_init_semaphore,
}

-- `struct memory_region`
pub record MemoryRegion : Type 0 where
  pub top : ℕ
  pub size : ℕ
  pub page_table : ℕ
  pub page_table_entries : ℕ
  pub page_size : ℕ
  pub sem : ℕ

abbrev pub Memory : Type 0
Memory = ℕ → ℕ

-- `sizeof(void*)`, the size of an entry of the page table.
abbrev pub entry_size : ℕ
entry_size = 8

-- PAGE_ENTRY_START_ADDR: `entry & ~0xFFF`
abbrev pub page_entry_start_addr : ℕ → ℕ
page_entry_start_addr entry = entry / 0x1000 * 0x1000

-- IS_FIRST_PAGE_IN_BLOCK: `(entry & ~0xFFE) == 1`, which drops the bits 1 to 11.
abbrev pub is_first_page_in_block : ℕ → Bool
is_first_page_in_block entry = page_entry_start_addr entry + entry % 2 == 1

-- The loop that clears the page table in `init_memory_region`, with the entries that are left.
unfoldable pub clear_table : ℕ → ℕ → Memory → Memory
clear_table zero cur m = m
clear_table (suc n) cur m = clear_table n (cur + entry_size) (update m cur 0)

-- `init_memory_region`, on the region that the pointer names (so far `r`): the status, and the region
-- and the memory as they are left, also on failure.
unfoldable pub init_memory_region : ℕ → ℕ → ℕ → MemoryRegion → Memory → ℤ × MemoryRegion × Memory
init_memory_region top size page_size r m =
    let entries = size / page_size in
    let r1 = record r {
      page_table_entries = entries;
      page_table = top;
      top = alignup (top + entries * entry_size) page_size;
    } in
    let cleared = clear_table entries top m in
    let init = arm64_init_semaphore r1.sem (cleared 0) in
    let r2 = record r1 {
      size = aligndown (top + size - r1.top) page_size;
      page_size = page_size;
      sem = init.sem;
    } in
    if not (ispow2 page_size) || ltb page_size 4096
    then (negsuc 0, r, m)
    else if ltb size page_size
    then (negsuc 0, r1, m)
    else if ltb (top + size) (r1.top + page_size)
    then (negsuc 0, r1, m)
    else if init.status == 0
    then (pos 0, r2, update cleared 0 init.word_at_zero)
    else (negsuc 0, r2, update cleared 0 init.word_at_zero)

-- The loop of `find_hole`, with the entries that are left. NULL is 0.
unfoldable pub find_hole_from : Memory → ℕ → ℕ → ℕ → ℕ → ℕ → ℕ
find_hole_from m zero cur start num_found num_pages = 0
find_hole_from m (suc n) cur start num_found num_pages =
    let start' = if start == 0 then cur else start in
    let found = find_hole_from m n (cur + entry_size) start' (num_found + 1) num_pages in
    let skipped = find_hole_from m n (cur + entry_size) 0 num_found num_pages in
    if m cur % 2 == 0 then (if num_found + 1 == num_pages then start' else found) else skipped

unfoldable pub find_hole : MemoryRegion → Memory → ℕ → ℕ
find_hole r m num_pages = find_hole_from m r.page_table_entries r.page_table 0 0 num_pages

-- The loop of `mark_pages_used`, with the pages that are left: `1 | start_entry` sets the low bit.
unfoldable pub mark_rest : ℕ → ℕ → ℕ → Memory → Memory
mark_rest start_entry zero cur m = m
mark_rest start_entry (suc n) cur m =
    mark_rest start_entry n (cur + entry_size) (update m cur (start_entry / 2 * 2 + 1))

unfoldable pub mark_pages_used : ℕ → ℕ → Memory → Memory
mark_pages_used start_entry num_pages m =
    mark_rest start_entry (num_pages - 1) (start_entry + entry_size) (update m start_entry 1)

-- `_malloc`: the address (0 for NULL), the region and the memory; `none` when the core waits for the
-- semaphore. On success the semaphore is put before the label and once more behind it.
unfoldable pub malloc : MemoryRegion → Memory → ℕ → Option (ℕ × MemoryRegion × Memory)
malloc r m num_bytes =
    let num_pages = ceildiv num_bytes r.page_size in
    let start = find_hole r m num_pages in
    elim (arm64_take_semaphore_exclusive r.sem) [
      | none ↦ none
      | some taken ↦
          if start == 0
          then some (0, record r { sem = arm64_put_semaphore_exclusive taken }, m)
          else some (
            (start - r.page_table) / entry_size * r.page_size + r.top,
            record r { sem = arm64_put_semaphore_exclusive (arm64_put_semaphore_exclusive taken) },
            mark_pages_used start num_pages m,
          )
    ]

-- The loop of `_free` from its first test, with fuel; `none` when the fuel runs out.
unfoldable pub free_loop : ℕ → ℕ → ℕ → Memory → Option Memory
free_loop zero start_entry cur m = none
free_loop (suc fuel) start_entry cur m =
    let rest = free_loop fuel start_entry (cur + entry_size) (update m cur 0) in
    if page_entry_start_addr (m cur) == start_entry then rest else some m

-- How a call of `_free` ends.
pub data FreeResult : Type 0 where
  -- returned, with the region and the memory
  done : MemoryRegion → Memory → FreeResult
  -- the core waits for the semaphore
  waiting : FreeResult
  -- the fuel of the loop ran out
  out_of_fuel : FreeResult

-- The part of `_free` under the semaphore.
unfoldable pub free_locked : ℕ → MemoryRegion → Memory → ℕ → FreeResult
free_locked fuel r m addr =
    let page_entry_idx = (addr - r.top) / r.page_size in
    let start_entry = r.page_table + page_entry_idx * entry_size in
    let released = record r { sem = arm64_put_semaphore_exclusive r.sem } in
    if not (addr == r.top + page_entry_idx * r.page_size)
      || not (is_first_page_in_block (m start_entry))
    then done released m
    else elim (free_loop fuel start_entry (start_entry + entry_size) (update m start_entry 0)) [
      | none ↦ out_of_fuel
      | some m' ↦ done released m'
    ]

-- `_free`, on a region that is not NULL.
unfoldable pub free : ℕ → MemoryRegion → Memory → ℕ → FreeResult
free fuel r m addr =
    if addr == 0
    then done r m
    else if ltb addr r.top || ltb (r.top + r.size) addr
    then done r m
    else elim (arm64_take_semaphore_exclusive r.sem) [
      | none ↦ waiting
      | some taken ↦ free_locked fuel (record r { sem = taken }) m addr
    ]
