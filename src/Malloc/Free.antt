-- ===== src/Malloc/Free.antt =====
-- What `_free` releases, and what it leaves.
use native.Mathlib.Nat.{mul-div_cancel}
use cob_kernel.Common.{
  ℕ, zero, suc, ◌+◌, ◌-◌, ◌*◌, ◌/◌, ◌%◌, ◌≤◌, ◌<◌, ◌≡◌, ◌≢◌, ◌⊎◌, refl, arith, true, false,
  ==-of_eq, ==-of_ne, some, update,
}
use cob_kernel.Semaphore.{arm64_take_semaphore_exclusive, arm64_put_semaphore_exclusive}
use cob_kernel.Malloc.{
  Memory, MemoryRegion, entry_size, page_entry_start_addr, is_first_page_in_block, clear_table,
  free_loop, done, free_locked, free,
}
use cob_kernel.Malloc.Table.{slot}

pub update-next :
    (m : Memory) (cur i : ℕ) → update m cur 0 (slot (cur + entry_size) i) ≡ m (slot cur (suc i))
update-next m cur i =
    let e : slot (cur + entry_size) i ≡ slot cur (suc i) = omega arith in rw e (ground arith)

-- The loop clears the entries that link to the block and stops at the first that does not.
free_loop_lem :
    (n fuel start cur : ℕ) (m : Memory)
    → n < fuel
    → ((i : ℕ) → i < n → page_entry_start_addr (m (slot cur i)) ≡ start)
    → page_entry_start_addr (m (slot cur n)) ≢ start
    → free_loop fuel start cur m ≡ some (clear_table n cur m)
unfolding free_loop clear_table
free_loop_lem n zero start cur m lt linked stop = absurd (omega arith)
free_loop_lem zero (suc fuel) start cur m lt linked stop =
    let e : slot cur 0 ≡ cur = omega arith in rw (==-of_ne _ _ (rw e at stop))
free_loop_lem (suc n) (suc fuel) start cur m lt linked stop =
    let e : slot cur 0 ≡ cur = omega arith in
    rw (==-of_eq _ _ (rw e at (linked 0 (omega arith)))) (
      free_loop_lem n fuel start (cur + entry_size) (update m cur 0) (omega arith)
        (λ i h. rw (update-next m cur i) (linked (suc i) (omega arith)))
        (rw (update-next m cur n) stop))

-- The entry `i` of the region, at which the address `addr` points, is the first of a block.
pub record BlockStart (r : MemoryRegion) (m : Memory) (i : ℕ) : Type 0 where
  pub inside : i * r.page_size ≤ r.size
  pub not_null : 0 < r.top
  pub some_size : 0 < r.page_size
  pub first : is_first_page_in_block (m (slot r.page_table i)) ≡ true

-- The address of a page.
abbrev pub page : MemoryRegion → ℕ → ℕ
page r i = r.top + i * r.page_size

pub index-page : (r : MemoryRegion) (i : ℕ) → 0 < r.page_size → (page r i - r.top) / r.page_size ≡ i
index-page r i pos =
    let e : page r i - r.top ≡ i * r.page_size = omega arith in rw e (mul-div_cancel i pos)

free_locked-page :
    (fuel : ℕ) (r : MemoryRegion) (m m' : Memory) (i : ℕ)
    → BlockStart r m i
    → free_loop fuel
        (slot r.page_table i)
        (slot r.page_table i + entry_size)
        (update m (slot r.page_table i) 0)
      ≡ some m'
    → free_locked fuel r m (page r i) ≡ done (record r { sem = 0 }) m'
unfolding free_locked arm64_put_semaphore_exclusive
free_locked-page fuel r m m' i b loop =
    rw (index-page r i b.some_size, b.first, ==-of_eq (page r i) (page r i) refl, loop)

free-page :
    (fuel : ℕ) (r : MemoryRegion) (m m' : Memory) (i : ℕ)
    → r.sem ≡ 0
    → BlockStart r m i
    → free_loop fuel
        (slot r.page_table i)
        (slot r.page_table i + entry_size)
        (update m (slot r.page_table i) 0)
      ≡ some m'
    → free fuel r m (page r i) ≡ done r m'
unfolding free arm64_take_semaphore_exclusive
free-page fuel r m m' i sem b loop = ground (
  arith,
  b.inside,
  b.not_null,
  free_locked-page fuel (record r { sem = 1 }) m m' i
      (record {
        inside = b.inside;
        not_null = b.not_null;
        some_size = b.some_size;
        first = b.first;
      })
      loop,
)

-- A call that names no block changes nothing: NULL, an address below the region or more than its size above its
-- start, one inside a page, and one whose entry is not the first of a block (such as a block that was freed
-- before). The address right behind the region passes the test of the source.
pub free_rejects :
    (fuel : ℕ) (r : MemoryRegion) (m : Memory) (addr : ℕ)
    → r.sem ≡ 0
    → (addr ≡ 0)
      ⊎ ((addr < r.top)
          ⊎ ((r.top + r.size < addr)
              ⊎ ((addr ≢ page r ((addr - r.top) / r.page_size))
                  ⊎ (is_first_page_in_block (m (slot r.page_table ((addr - r.top) / r.page_size)))
                      ≡ false))))
    → free fuel r m addr ≡ done r m
unfolding free free_locked arm64_take_semaphore_exclusive arm64_put_semaphore_exclusive
free_rejects fuel r m addr sem why = ground arith

not_multiple : (v a : ℕ) → a % 0x1000 ≢ 0 → page_entry_start_addr v ≢ a
not_multiple v a odd e = odd (omega arith)

-- The first page of a block whose entry does not lie at a multiple of 4096 is the only one that is
-- released, since the comparison drops the low bits of the entries that link to it.
pub free_first_only :
    (fuel : ℕ) (r : MemoryRegion) (m : Memory) (i : ℕ)
    → 0 < fuel
    → r.sem ≡ 0
    → BlockStart r m i
    → slot r.page_table i % 0x1000 ≢ 0
    → free fuel r m (page r i) ≡ done r (update m (slot r.page_table i) 0)
unfolding free_loop
free_first_only zero r m i pos sem b odd = absurd (omega arith)
free_first_only (suc fuel) r m i pos sem b odd =
    free-page (suc fuel) r m (update m (slot r.page_table i) 0) i sem b (
      let ne =
        not_multiple (update m (slot r.page_table i) 0 (slot r.page_table i + entry_size))
          (slot r.page_table i) odd in
      rw (==-of_ne _ _ ne))

-- A block whose entry lies at a multiple of 4096 is released whole, if `fuel` is more than its pages.
pub free_whole :
    (fuel n : ℕ) (r : MemoryRegion) (m : Memory) (i : ℕ)
    → n < fuel
    → r.sem ≡ 0
    → BlockStart r m i
    → ((k : ℕ)
        → k < n
        → page_entry_start_addr (m (slot r.page_table (suc k + i))) ≡ slot r.page_table i)
    → page_entry_start_addr (m (slot r.page_table (suc n + i))) ≢ slot r.page_table i
    → free fuel r m (page r i) ≡ done r (clear_table (suc n) (slot r.page_table i) m)
unfolding clear_table
free_whole fuel n r m i lt sem b linked stop = free-page fuel r m _ i sem b (
    free_loop_lem n fuel (slot r.page_table i) (slot r.page_table i + entry_size)
      (update m (slot r.page_table i) 0) lt (λ k h. rw (skip k) (linked k h)) (rw (skip n) stop))
  where
    skip :
        (k : ℕ)
        → update m (slot r.page_table i) 0 (slot (slot r.page_table i + entry_size) k)
          ≡ m (slot r.page_table (suc k + i))
    skip k =
        let e : slot (slot r.page_table i + entry_size) k ≡ slot r.page_table (suc k + i) =
          omega arith in
        rw e (ground arith)
