-- ===== src/Kernel/Tests.antt =====
-- A run of the start of the cores.
use cob_kernel.Common.{
  ℕ, ◌/◌, ◌%◌, List, ◌-◌, ◌^◌, ◌≡◌, refl, arith, update, false, ◌==◌, if◌then◌else◌,
}
use cob_kernel.Util.{ispow2, ispow2_loop, alignup}
use cob_kernel.Malloc.{Memory, MemoryRegion}
use cob_kernel.Malloc.Init.{Accepted}
use cob_kernel.Malloc.Refine.Held.{Represents}
use cob_kernel.WorkQueue.{WorkQueueEntry}
use cob_kernel.Psci.{Firmware, cpuon_funcid, psci_on_pending, get_core_state}
use cob_kernel.Psci.CpuOn.{query}
use cob_kernel.Semaphore.{arm64_init_semaphore}
use cob_kernel.Clock.{Clock}
use cob_kernel.Device.{Bus}
use cob_kernel.Device.Led.{Holds, with_pin}
use cob_kernel.Printf.Format.{Printed, CharDevice, init_printf, init_printf_threadsafe}
use cob_kernel.Printf.Log.{verbosity_none}
use cob_kernel.Kernel.Blink.{blink_code}
use cob_kernel.Kernel.Pin.{run_signals, blink_code_lem}
use cob_kernel.Kernel.Main.{Board, main_setup, main, console_starts}
use cob_kernel.Kernel.Boot.{IsUp, main_lem}
use cob_kernel.Kernel.Cores.{TurnsOn, queues, first_pages}

-- PSCI_ALREADY_ON, -4
abbrev psci_already_on : ℕ
psci_already_on = 2 ^ 64 - 4

-- A firmware that holds the state of each core: 0 is on, 1 off and 2 pending. It starts a core that is off, which is
-- then pending, and it answers the call for a core that is pending already with -5. A query tells the state of
-- a core, and one that was pending is on at the next.
abbrev firmware : Firmware (ℕ → ℕ)
firmware funcid a b c s =
    let core = a / 2 ^ 8 % 2 ^ 8 in
    if funcid == cpuon_funcid
    then (if s core == 1
        then (0, update s core 2)
        else if s core == 2
        then (psci_on_pending, s)
        else (psci_already_on, s))
    else (s core, if s core == 2 then update s core 0 else s)

-- All cores are off but core 0, which runs, and core 2, which is on its way.
abbrev at_start : ℕ → ℕ
at_start i = if i == 0 then 0 else if i == 2 then 2 else 1

abbrev region : MemoryRegion
region = record {
  top = 0;
  size = 0;
  page_table = 0;
  page_table_entries = 0;
  page_size = 0;
  sem = 7;
}

abbrev ones : Memory
ones _ = 1

-- What the pages of the queues hold.
abbrev rubbish : ℕ → WorkQueueEntry
rubbish i = record {
  submission_sem = 9;
  completion_sem = 9;
  task = record { next_task = 0; params = i };
  result = i;
}

accepted : Accepted 0x200000 (0x600000 - 0x200000) (2 ^ 16) region ones
unfolding ispow2 ispow2_loop alignup
accepted = record {
  power = refl;
  at_least = omega arith;
  holds_page = omega arith;
  room = omega arith;
}

turns_on : TurnsOn firmware 0x80000 99 2 rubbish 1
unfolding query get_core_state
turns_on i ctxid s pending = ground (arith, pending)

-- The GPIO block alone: its registers hold one word.
abbrev gpio : Bus ℕ
gpio = record { read32 = λ addr s. (s % 2 ^ 32, s); write32 = λ addr v s. v }

gpio-Holds : Holds gpio (λ s. s % 2 ^ 32)
gpio-Holds = record {
  gives = λ s. refl;
  keeps = λ s. refl;
  takes = λ x s. refl;
  word = λ s. omega arith;
}

blink_code_lem_example : run_signals gpio (blink_code 1) 0x2ff % 2 ^ 32 ≡ with_pin false 0x2ff
blink_code_lem_example = blink_code_lem gpio (λ s. s % 2 ^ 32) gpio-Holds 1 0x2ff

-- A board whose link is down, and whose state is that of the cores.
abbrev board : Board (ℕ → ℕ)
board = record {
  bus = record { read32 = λ addr s. (0, s); write32 = λ addr v s. s };
  smc = firmware;
  cntfrq = 54000000;
  cntpct = λ k. k;
  registers = record {
    midr_el1 = 0x414fd0b1;
    current_el = 8;
    mpidr_el1 = 0x81000000;
    sctlr_el2 = 0x30c50830;
    tcr_el2 = 0;
    ttbr0_el2 = 0;
    ttbr1_el2 = 0;
    id_aa64mmfr0_el1 = 2;
    id_aa64mmfr1_el1 = 0x1000;
  };
  parange_to_bits = λ n. if n == 2 then 40 else 32;
  secondary_start = 0x80000;
  garbage = 99;
  verbosity = verbosity_none;
  fuel = 2;
  held = rubbish;
}

abbrev no_clock : Clock
no_clock = record { frequency = 0; read_count = λ k. 0 }

abbrev device : CharDevice
device = record { sem = 5; thread_safe = false }

ready_accepted :
    Accepted 0x200000
      (0x600000 - 0x200000)
      (2 ^ 16)
      region
      (main_setup board no_clock device ones at_start).memory
unfolding ispow2 ispow2_loop alignup
ready_accepted = record {
  power = refl;
  at_least = omega arith;
  holds_page = omega arith;
  room = omega arith;
}

main_lem_example :
    let ready = main_setup board no_clock device ones at_start in
    (r : MemoryRegion) × (m' : Memory) × (s' : ℕ → ℕ) × (texts : List Printed) × (main board
        0x200000 0x600000 no_clock device region ones at_start
      ≡ console_starts ready (queues firmware 0x80000 99 2 rubbish 3 0 1 r) r m' s' texts)
    × IsUp board ready
    × (r.page_size ≡ 2 ^ 16)
    × Represents r m' (first_pages 3)
unfolding main_setup init_printf_threadsafe init_printf arm64_init_semaphore
main_lem_example =
    main_lem board no_clock device ones at_start 0x200000 0x600000 1 region (λ e. omega (arith, e))
      (omega arith) refl (omega arith) ready_accepted (λ e. omega (arith, e)) (omega arith) turns_on
      (omega arith)
