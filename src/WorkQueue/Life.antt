-- ===== src/WorkQueue/Life.antt =====
-- Entries of the work queue that are created and deleted, on the page allocator.
use mathlib.Core.Path.{fun_ext, subst}
use native.Mathlib.Nat.{mul-div_cancel}
use cob_kernel.Common.{
  ℕ, ◌+◌, ◌-◌, ◌*◌, ◌≤◌, ◌<◌, ◌≡◌, refl, arith, true, false, some, update, ==-of_ne,
}
use cob_kernel.Semaphore.{arm64_init_semaphore, arm64_take_semaphore_exclusive}
use cob_kernel.Malloc.{MemoryRegion, Memory, malloc, done}
use cob_kernel.Malloc.Pages.{PageSet, first_free, kmalloc, kfree, serve, promise, is_block}
use cob_kernel.Malloc.Refine.{serve_refines}
use cob_kernel.Malloc.Refine.Held.{Represents, first_free-some}
use cob_kernel.Malloc.Refine.Take.{promise-take}
use cob_kernel.Malloc.Refine.Give.{kfree_refines}
use cob_kernel.WorkQueue.{
  WorkQueueEntry, init_entry, create_work_queue_entry, delete_work_queue_entry,
}

-- The word at address 0 is no entry of the table.
Represents-zero :
    {r : MemoryRegion} {m : Memory} {used : PageSet} (z : ℕ)
    → Represents r m used
    → Represents r (update m 0 z) used
Represents-zero {r} {m} z v = record {
  unlocked = v.unlocked;
  mapped = v.mapped;
  not_null = v.not_null;
  some_size = v.some_size;
  small = v.small;
  covered = v.covered;
  entry = λ i h. ground (arith, v.mapped, v.entry i h);
  behind = ground (arith, v.mapped, v.behind);
}

-- A new entry: the submission semaphore is taken, and the completion semaphore is free.
abbrev pub new_entry : WorkQueueEntry → WorkQueueEntry
new_entry q = record q { submission_sem = 1; completion_sem = 0; result = 0xffff }

init_entry_lem : (q : WorkQueueEntry) (w : ℕ) → (w' : ℕ) × (init_entry q w ≡ some (new_entry q, w'))
unfolding init_entry arm64_init_semaphore arm64_take_semaphore_exclusive
init_entry_lem q w = (_, refl)

-- A new entry takes the first page that is not in use.
pub create-Represents :
    {r : MemoryRegion} {m : Memory} {used : PageSet} (c : ℕ) (q : WorkQueueEntry)
    → Represents r m used
    → 40 ≤ r.page_size
    → first_free used r.page_table_entries 0 ≡ some c
    → (m' : Memory) × (create_work_queue_entry r m q
        ≡ some (some (c * r.page_size + r.top, new_entry q), r, m'))
      × Represents r m' (update used c true)
unfolding create_work_queue_entry serve
create-Represents {r} {m} {used} c q v big page =
    let (m1, run, v1) = serve_refines 1 (kmalloc 40) (omega arith) v (omega arith, big) in
    let (w, made) = init_entry_lem q (m1 0) in
    let spec = promise-take v 40 c page in
    let block : malloc r m 40 ≡ some (c * r.page_size + r.top, r, m1) = rw spec at run in
    let kept : Represents r m1 (update used c true) = rw spec at v1 in
    (
      update m1 0 w,
      rw (block, ==-of_ne (c * r.page_size + r.top) 0 (omega (arith, v.not_null)), made),
      Represents-zero w kept,
    )

-- The address of a page is that of a block.
is_block-page :
    (r : MemoryRegion) (used : PageSet) (c : ℕ)
    → 0 < r.top
    → 0 < r.page_size
    → c * r.page_size ≤ r.size
    → is_block r (update used c true) (c * r.page_size + r.top) ≡ true
is_block-page r used c mapped some_size inside =
    let off : c * r.page_size + r.top - r.top ≡ c * r.page_size = omega arith in
    rw (off, mul-div_cancel c some_size) (ground (arith, inside, mapped))

-- Giving a page back that has just been taken.
page-released :
    {r : MemoryRegion} {m : Memory} {used : PageSet}
    → Represents r m used
    → (c : ℕ) → first_free used r.page_table_entries 0 ≡ some c
    → c * r.page_size ≤ r.size
    → (promise (kfree (c * r.page_size + r.top)) r (update used c true)).1 ≡ used
unfolding promise
page-released {r} {m} {used} v c page inside =
    let off : c * r.page_size + r.top - r.top ≡ c * r.page_size = omega arith in
    let was_free : used c ≡ false = (first_free-some used r.page_table_entries 0 c page).2 in
    let back : update (update used c true) c false ≡ used =
      fun_ext (λ i. ground (arith, was_free)) in
    rw
      (
        is_block-page r used c v.not_null v.some_size inside,
        off,
        mul-div_cancel c {n = r.page_size} v.some_size,
      )
      back

-- Creating an entry and deleting it leaves the pages in use as they were: on a heap that holds a set of
-- pages, with pages of at least 40 bytes and a free page in the region, the entry is new and lies in the
-- first free page, and `delete_work_queue_entry` of it returns and gives the page back.
pub delete-create :
    (fuel : ℕ) (r : MemoryRegion) (m : Memory) (used : PageSet) (c : ℕ) (q : WorkQueueEntry)
    → 0 < fuel
    → Represents r m used
    → 40 ≤ r.page_size
    → first_free used r.page_table_entries 0 ≡ some c
    → c * r.page_size ≤ r.size
    → (m' m'' : Memory) × (create_work_queue_entry r m q
        ≡ some (some (c * r.page_size + r.top, new_entry q), r, m'))
      × Represents r m' (update used c true)
      × (delete_work_queue_entry fuel r m' (c * r.page_size + r.top) ≡ done r m'')
      × Represents r m'' used
unfolding delete_work_queue_entry
delete-create fuel r m used c q enough v big page inside =
    let (m', made, v') = create-Represents c q v big page in
    let (m'', run, v'') = kfree_refines v' fuel (c * r.page_size + r.top) enough in
    (m', m'', made, v', run, subst (Represents r m'') (page-released v c page inside) v'')
