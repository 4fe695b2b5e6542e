-- ===== src/Kernel.antt =====
-- kernel.c: the part of `main` that sets up the heap and starts the other cores.
mod Tests
pub mod Cores
pub mod Blink
pub mod Pin
pub mod Main
pub mod Boot
use cob_kernel.Common.{
  ℕ, zero, suc, ◌+◌, ◌-◌, ◌*◌, ◌/◌, ◌%◌, ◌^◌, Option, none, some, List, [], ◌∷◌, ◌==◌,
  if◌then◌else◌,
}
use cob_kernel.Common.Int.{ℤ, pos, negsuc}
use cob_kernel.Malloc.{MemoryRegion, Memory, init_memory_region}
use cob_kernel.WorkQueue.{WorkQueueEntry, create_work_queue_entry}
use cob_kernel.Psci.{Firmware, CpuAffinity, psci_cpu_on}

-- `init_kheap`, which ignores the status: the heap and the memory afterwards.
unfoldable pub init_kheap : ℕ → ℕ → ℕ → MemoryRegion → Memory → MemoryRegion × Memory
init_kheap start size page_size heap m =
    let (status, heap', m') = init_memory_region start size page_size heap m in (heap', m')

-- What the loop that starts the cores ends with.
pub data Started (D : Type 0) : Type 0 where
  -- the queues with their addresses, the heap, the memory and the firmware
  started : List (ℕ × WorkQueueEntry) → MemoryRegion → Memory → D → Started D
  -- a queue cannot be allocated, and `reboot` is called
  rebooting : Started D
  -- a semaphore is not free, or the fuel of a wait runs out
  stuck : Started D

module _ {D : Type 0} where
  -- `queues[i-1] = …`, before the queues of the later cores.
  unfoldable pub add_queue : ℕ × WorkQueueEntry → Started D → Started D
  add_queue q (started qs heap m s) = started (q ∷ qs) heap m s
  add_queue q rebooting = rebooting
  add_queue q stuck = stuck

  -- The test of the new queue.
  unfoldable pub after_create :
      Option (Option (ℕ × WorkQueueEntry) × MemoryRegion × Memory)
      → (ℕ × WorkQueueEntry → MemoryRegion → Memory → Started D)
      → Started D
  after_create none next = stuck
  after_create (some (none, heap, m)) next = rebooting
  after_create (some (some q, heap, m)) next = next q heap m

  -- What follows `psci_cpu_on`, whose status is ignored.
  unfoldable pub after_cpu_on : Option (ℤ × D) → (D → Started D) → Started D
  after_cpu_on none next = stuck
  after_cpu_on (some (status, s)) next = next s

-- `affinity` for core `i`, whose reserved bytes are not set.
abbrev pub core_affinity : ℕ → ℕ → CpuAffinity
core_affinity garbage i = record {
  aff0 = 0;
  aff1 = i % 2 ^ 8;
  aff2 = 0;
  res0 = garbage % 2 ^ 8;
  aff3 = 0;
  res1 = garbage / 2 ^ 8 % 2 ^ 24;
}

-- The firmware, the address of `_secondary_start`, what the reserved bytes of `affinity` and the blocks of the
-- queues hold before they are written, and the fuel of a wait for a core.
module _ {D : Type 0} (smc : Firmware D) (secondary_start garbage fuel : ℕ)
    (held : ℕ → WorkQueueEntry) where
  -- The loop of `main` over the cores, from core `i` on, with the cores that are left.
  unfoldable pub start_cores : ℕ → ℕ → MemoryRegion → Memory → D → Started D
  start_cores zero i heap m s = started [] heap m s
  start_cores (suc n) i heap m s =
      after_create (create_work_queue_entry heap m (held i)) (λ q heap' m'.
        after_cpu_on (psci_cpu_on smc garbage fuel (core_affinity garbage i) secondary_start q.0 s)
          (λ s'. add_queue q (start_cores n (i + 1) heap' m' s')))

  -- From `init_kheap` to the last core that is started: `main` with a heap from `heap_start` to
  -- `heap_end`, which sysinit.S puts above it.
  unfoldable pub main_cores : ℕ → ℕ → MemoryRegion → Memory → D → Started D
  main_cores heap_start heap_end heap m s =
      let (heap', m') = init_kheap heap_start (heap_end - heap_start) 65536 heap m in
      start_cores 3 1 heap' m' s
