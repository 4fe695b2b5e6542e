-- ===== src/Malloc/Runs.antt =====
-- Runs of the allocator from its start, and of its clients.
use cob_kernel.Common.{◌^◌, ◌≡◌, refl, arith, false, some, List, [], ◌∷◌, All, update, ◌==◌}
use cob_kernel.Common.Int.{pos}
use cob_kernel.Util.{ispow2, ispow2_loop, alignup}
use cob_kernel.Semaphore.{arm64_take_semaphore_exclusive, arm64_put_semaphore_exclusive}
use cob_kernel.Malloc.{Memory, MemoryRegion, init_memory_region, free, free_locked, free_loop, done}
use cob_kernel.Malloc.DoubleFree.{free_again}
use cob_kernel.Malloc.Init.{Accepted}
use cob_kernel.Malloc.Region.{IsFresh}
use cob_kernel.Malloc.Pages.{
  Call, kmalloc, kfree, serve_all, promise, promise_all, first_free, IsOnePage,
}
use cob_kernel.Malloc.Refine.Held.{Represents}
use cob_kernel.Malloc.Refine.{serve_all_refines}
use cob_kernel.Malloc.Heap.{init-Represents}

-- Four pages, one of which does not fit behind the table.
abbrev heap : MemoryRegion
heap = record {
  top = 0x101000;
  size = 0x3000;
  page_table = 0x100000;
  page_table_entries = 4;
  page_size = 0x1000;
  sem = 0;
}

-- The second page is in use.
abbrev table : Memory
table = update (λ _. 0) 0x100008 1

table-Represents : Represents heap table (λ i. i == 1)
table-Represents = record {
  unlocked = refl;
  mapped = omega arith;
  not_null = omega arith;
  some_size = omega arith;
  small = omega arith;
  covered = omega arith;
  entry = λ i h. ground arith;
  behind = λ e. omega (arith, e);
}

-- Two blocks are taken, an address that names no page and a page in use are given back, and one is taken.
abbrev calls : List Call
calls = kmalloc 40 ∷ kmalloc 0x1000 ∷ kfree 0x101001 ∷ kfree 0x102000 ∷ kmalloc 1 ∷ []

calls-IsOnePage : All (IsOnePage heap) calls
calls-IsOnePage = (
  (omega arith, omega arith),
  ((omega arith, omega arith), (tt, (tt, ((omega arith, omega arith), tt)))),
)

serve_all_refines_example :
    (m' : Memory) × (serve_all 1 calls heap table
      ≡ some ((promise_all calls heap (λ i. i == 1)).0, heap, m'))
    × Represents heap m' (promise_all calls heap (λ i. i == 1)).1
serve_all_refines_example =
    serve_all_refines 1 heap table (λ i. i == 1) calls (omega arith) table-Represents
      calls-IsOnePage

-- The addresses that the specification says.
addresses : (promise_all calls heap (λ i. i == 1)).0 ≡ 0x101000 ∷ 0x103000 ∷ 0 ∷ 0 ∷ 0x102000 ∷ []
unfolding promise_all promise first_free
addresses = refl

accepted : Accepted 0x100000 0x4000 (2 ^ 12) heap table
unfolding ispow2 ispow2_loop alignup
accepted = record {
  power = refl;
  at_least = omega arith;
  holds_page = omega arith;
  room = omega arith;
}

init-Represents_example :
    (r' : MemoryRegion) × (m' : Memory) × (init_memory_region 0x100000 0x4000 (2 ^ 12) heap table
      ≡ (pos 0, r', m'))
    × IsFresh 0x100000 0x4000 (2 ^ 12) r' m'
    × Represents r' m' (λ _. false)
init-Represents_example =
    init-Represents 0x100000 0x4000 12 heap table (omega arith) refl (omega arith) (omega arith)
      accepted (λ e. omega (arith, e))

-- Page 1 is given back twice.
free_again_example :
    free 1 heap (update table 0x100008 0) 0x102000 ≡ done heap (update table 0x100008 0)
unfolding free free_locked free_loop arm64_take_semaphore_exclusive arm64_put_semaphore_exclusive
free_again_example = free_again 1 heap table (update table 0x100008 0) 0x102000 refl refl
