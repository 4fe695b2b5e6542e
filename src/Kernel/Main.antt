-- ===== src/Kernel/Main.antt =====
-- kernel.c: `main` on the first core, from its first statement to `start_console`. What is printed is a list
-- of texts, one for each `printf`; the writes of the UART are left to uart.c.
use cob_kernel.Common.{ℕ, zero, suc, ◌+◌, List, [], ◌∷◌, ◌++◌, update}
use cob_kernel.Common.Bytes.{bytes}
use cob_kernel.Common.Int.{ℤ, pos, negsuc}
use cob_kernel.Clock.{Clock, aarch64_init_sysclk}
use cob_kernel.Device.{Bus, uart_fixups}
use cob_kernel.Pcie.{rp1_pcie_link_up, pcie_fixups}
use cob_kernel.Printf.Format.{word, Printed, tfp_format, CharDevice, init_printf_threadsafe}
use cob_kernel.Printf.Log.{Verbosity}
use cob_kernel.Malloc.{MemoryRegion, Memory}
use cob_kernel.WorkQueue.{WorkQueueEntry}
use cob_kernel.Psci.{Firmware}
use cob_kernel.Psci.Print.{get_psci_version, report_core_state}
use cob_kernel.KernelInfo.{SystemRegisters}
use cob_kernel.KernelInfo.Print.{context_texts}
use cob_kernel.Kernel.{Started, started, rebooting, stuck, main_cores}
use cob_kernel.Kernel.Blink.{blink_code}
use cob_kernel.Kernel.Pin.{run_signals}

-- The board that the kernel runs on, and how it was built.
pub record Board (D : Type 0) : Type 0 where
  pub bus : Bus D
  pub smc : Firmware D
  pub cntfrq : ℕ
  pub cntpct : ℕ → ℕ
  pub registers : SystemRegisters
  -- PARANGE_TO_BITS
  pub parange_to_bits : ℕ → ℕ
  -- the address of `_secondary_start`
  pub secondary_start : ℕ
  -- what the stack holds where a variable is not set
  pub garbage : ℕ
  pub verbosity : Verbosity
  -- the reads that a wait for a core may take
  pub fuel : ℕ
  -- what the blocks of the queues hold
  pub held : ℕ → WorkQueueEntry

-- `display_banner`
unfoldable pub display_banner : List Printed
display_banner =
    tfp_format (bytes "\n\r********************************\n\r") []
    ∷ tfp_format (bytes "*     Welcome to cobKernel     *\n\r") []
    ∷ tfp_format (bytes "********************************\n\r") []
    ∷ []

-- What `secondary_main` prints before it runs the queue, given the affinity of the core.
unfoldable pub hello : ℕ → Printed
hello affinity =
    tfp_format (bytes "hello from Core 0x%lx. Starting work queue\n\r") (word affinity ∷ [])

-- What `main` has set up when it comes to the heap.
pub record Ready (D : Type 0) : Type 0 where
  pub clock : Clock
  pub console : CharDevice
  pub memory : Memory
  pub state : D
  pub printed : List Printed

-- How `main` ends.
pub data End (D : Type 0) : Type 0 where
  -- at `start_console`, with the queues, the heap, the memory and the hardware
  console_starts :
      Ready D → List (ℕ × WorkQueueEntry) → MemoryRegion → Memory → D → List Printed → End D
  reboots : End D
  -- a core waits for a semaphore, or for a core that does not come up within the fuel
  waits : End D

module _ {D : Type 0} (b : Board D) where
  -- `get_core_state(0, i, 0)` for `n` cores from core `i` on: what is printed, and the hardware.
  unfoldable pub report_cores : ℕ → ℕ → D → List Printed × D
  report_cores zero i s = ([], s)
  report_cores (suc n) i s =
      let (state, texts, s') = report_core_state b.smc b.garbage b.verbosity 0 i 0 s in
      let (rest, s'') = report_cores n (i + 1) s' in (texts ++ rest, s'')

  -- `if (err) blink_code(1);`
  unfoldable pub after_link : ℤ × D → D
  after_link (pos zero, s) = s
  after_link (pos (suc n), s) = run_signals b.bus (blink_code 1) s
  after_link (negsuc n, s) = run_signals b.bus (blink_code 1) s

  -- From `init_kernel_clk` to the first report of the cores, given what the kernel's clock and console hold.
  unfoldable pub main_setup : Clock → CharDevice → Memory → D → Ready D
  main_setup clk dev m s =
      let linked = after_link (rp1_pcie_link_up b.bus (uart_fixups b.bus (pcie_fixups b.bus s))) in
      let (console, at_zero) = init_printf_threadsafe dev (m 0) in
      let (version, version_text, s1) = get_psci_version b.smc linked in
      let (states, s2) = report_cores 4 0 s1 in
      record {
        clock = (aarch64_init_sysclk b.cntfrq b.cntpct clk).1;
        console = console;
        memory = update m 0 at_zero;
        state = s2;
        printed =
            display_banner
            ++ context_texts b.parange_to_bits b.registers
            ++ version_text ∷ states
            ++ tfp_format (bytes "Initializing memory allocator...\n\r") [] ∷ [];
      }

  -- From the start of the cores on.
  unfoldable pub after_cores : Ready D → Started D → End D
  after_cores r (started qs heap m s) =
      let (states, s') = report_cores 4 0 s in
      console_starts r qs heap m s'
        (r.printed ++ tfp_format (bytes "Trying to power other cores\n\r") [] ∷ states)
  after_cores r rebooting = reboots
  after_cores r stuck = waits

  -- `main` on the first core, with the heap from `heap_start` to `heap_end`, given what the kernel's clock,
  -- console and heap hold.
  unfoldable pub main : ℕ → ℕ → Clock → CharDevice → MemoryRegion → Memory → D → End D
  main heap_start heap_end clk dev heap m s =
      let r = main_setup clk dev m s in
      after_cores r (
        main_cores b.smc b.secondary_start b.garbage b.fuel b.held heap_start heap_end heap r.memory
          r.state)
