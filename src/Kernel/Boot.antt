-- ===== src/Kernel/Boot.antt =====
-- `main` reaches the console.
use cob_kernel.Common.{
  ℕ, ◌+◌, ◌-◌, ◌*◌, ◌/◌, ◌^◌, ◌≤◌, ◌<◌, ◌≡◌, ◌≢◌, refl, ap, true, List, ==-of_ne,
}
use cob_kernel.Semaphore.{arm64_init_semaphore}
use cob_kernel.Clock.{Clock, aarch64_init_sysclk}
use cob_kernel.Printf.Format.{Printed, CharDevice, init_printf, init_printf_threadsafe}
use cob_kernel.Malloc.{MemoryRegion, Memory, page_entry_start_addr}
use cob_kernel.Malloc.Init.{Accepted}
use cob_kernel.Malloc.Table.{slot}
use cob_kernel.Malloc.Refine.Held.{Represents}
use cob_kernel.Kernel.Cores.{TurnsOn, queues, first_pages, main_cores_lem}
use cob_kernel.Kernel.Main.{Board, Ready, console_starts, main_setup, after_cores, main}

-- The clock runs and the console is guarded by a free semaphore.
pub record IsUp {D : Type 0} (b : Board D) (r : Ready D) : Type 0 where
  pub clock : r.clock ≡ record { frequency = b.cntfrq; read_count = b.cntpct }
  pub console : r.console ≡ record { sem = 0; thread_safe = true }

module _ {D : Type 0} (b : Board D) (clk : Clock) (dev : CharDevice) (m : Memory) (s : D) where
  setup-IsUp : b.cntfrq ≢ 0 → IsUp b (main_setup b clk dev m s)
  unfolding main_setup aarch64_init_sysclk init_printf_threadsafe init_printf arm64_init_semaphore
  setup-IsUp runs = record { clock = rw (==-of_ne b.cntfrq 0 runs) refl; console = refl }

  -- With a counter that runs, a heap that `init_kheap` accepts, aligned to 64 KiB above 0 and with at least
  -- three entries, that nothing wraps around in, with a word behind its table that does not look like a
  -- link to the last entry, and a firmware that after a pending `CPU_ON` reports the core as on within the fuel, `main` comes to
  -- `start_console`, whether or not the link of the bus is up: the clock runs, the console is guarded by a
  -- free semaphore, and each of the three cores has a new queue in one of the first three pages of the heap,
  -- of which no others are in use.
  pub main_lem :
      (start end_addr polls : ℕ) (heap : MemoryRegion)
      → let ready = main_setup b clk dev m s in
        b.cntfrq ≢ 0
        → 0 < start
        → start / 2 ^ 16 * 2 ^ 16 ≡ start
        → start + (end_addr - start) + 2 ^ 16 ≤ 2 ^ 64
        → Accepted start (end_addr - start) (2 ^ 16) heap ready.memory
        → page_entry_start_addr (ready.memory (slot start ((end_addr - start) / 2 ^ 16)))
          ≢ slot start ((end_addr - start) / 2 ^ 16 - 1)
        → 3 ≤ (end_addr - start) / 2 ^ 16
        → TurnsOn b.smc b.secondary_start b.garbage b.fuel b.held polls
        → polls < b.fuel
        → (r : MemoryRegion) × (m' : Memory) × (s' : D) × (texts : List Printed) × (main b start
              end_addr clk dev heap m s
            ≡ console_starts ready
                (queues b.smc b.secondary_start b.garbage b.fuel b.held 3 0 1 r)
                r
                m'
                s'
                texts)
          × IsUp b ready
          × (r.page_size ≡ 2 ^ 16)
          × Represents r m' (first_pages 3)
  unfolding main after_cores
  main_lem start end_addr polls heap runs mapped aligned fits a behind three on enough =
      let ready = main_setup b clk dev m s in
      let (r, m', s', run, size, v) =
        main_cores_lem b.smc b.secondary_start b.garbage b.fuel b.held start end_addr polls heap
          ready.memory ready.state mapped aligned fits a behind three on enough in
      (r, m', _, _, ap (after_cores b ready) run, setup-IsUp runs, size, v)
