-- ===== src/Lib.antt =====
-- A model of CobKernel, a small kernel for the Raspberry Pi 5, and of what makes its parts correct.
--
-- The boot code sets up a heap (malloc.c) and a console device (printf.c), starts the other cores, and runs
-- a console (console.c) that edits a line, splits it (string.c) and dispatches it to a command. The heap and
-- the console device are shared by the cores and are guarded by semaphores (arm.S).
--
-- Util.antt (include/util.h): ceildiv, alignup, aligndown and ispow2 on 64-bit words, with the wrap-around.
--   Util/Pow2, Util/Align and Util/Ceildiv have the theorems.
-- Semaphore.antt (arm.S): the semaphore routines, as a function on the word; `none` is a core that waits.
--   Semaphore/Exclusive: the exclusive loads and stores of the take and the put, as steps of any number of
--   cores. Semaphore/Atomic: what they promise, the functions on the word. Semaphore/Exclusion,
--   Semaphore/Wakeup and Semaphore/Progress: who has the semaphore, and who can go on.
-- Malloc.antt (malloc.c, include/malloc.h): `MemoryRegion` is `struct memory_region`, memory a function from
--   the address of a word to the word. Malloc/Table: the entries of the page table by index.
--   Malloc/FindHole, Malloc/Alloc and Malloc/Correct: `_malloc`. Malloc/Free and Malloc/Release: `_free`.
--   Malloc/Init and Malloc/Region: `init_memory_region`. Malloc/DoubleFree: a second `_free`.
--   Malloc/Locking: the cores' steps on the semaphore. Malloc/Pages: the set of pages that a client of
--   single pages sees, Malloc/Refine and its children: the calls against it, and Malloc/Heap: from
--   `init_kheap` on.
--   Malloc/FreeEnds and Malloc/Shape: calls for any number of pages. Malloc/Behind: behind the table.
--   Malloc/Report: what the allocator logs.
-- Printf.antt, Printf/Format.antt (printf.c): strings are lists of bytes before the NUL, words are numbers
--   with the wrap-around written out. Printf/Digits, Printf/Emit and Printf/Scan: the conversion of numbers.
--   Printf/Pad, Printf/Text and Printf/Directives: fields and `tfp_format`. Printf/Bounds: its buffer.
--   Printf/Log (include/util.h): the macros LOG_DEBUG, LOG_INFO and LOG_ERROR at each verbosity.
-- Strings.antt (string.c; `strcmp` of console.c), with Strings/Memcpy, Strings/Split and Strings/Compare.
-- Console.antt (console.c, include/console.h): the line editor of `start_console` and the dispatch of
--   commands, with Console/Edit, Console/Dispatch and Console/Layout. A pointer into a buffer is an offset;
--   an access out of range is `none`. Console/Escape: `_handle_esc` and the loop of `start_console`, where
--   pointers are addresses; its children: Arrows, the sequences that move the cursor, and Sequence and
--   Inside, the bounds of the two buffers. Console/HeapTest: the command `heap_test`. Console/Commands: the commands that
--   print, with Console/TempText. Console/Report: what the dispatch prints. Console/Args: `get_next_arg` and
--   `split_args`, which are not called.
-- WorkQueue.antt (work_queue.c, include/work_queue.h): an entry of the work queue, and the steps of the core
--   that posts tasks and of the core that runs them; WorkQueue/Order has the theorems, and
--   WorkQueue/Life those on entries that are created and deleted.
-- Device.antt (reset.c, led.c, uart.c, fixups.c): `read32` and `write32`, which are assembly on hardware,
--   are the parameter `Bus`; Device/Uart: the loops on the UART's flags, Device/Led: the LED on a register
--   that holds what is written.
-- Pcie.antt (rp1_pcie.c, include/pci_ecam.h, fixups.c) on that bus, with Pcie/Ecam, Pcie/ConfigSpace and
--   Pcie/Scan (`print_pcie_cfg` of console.c), over a device with an index register, and Pcie/Windows.
-- Temperature.antt (bcm2712_temp.c) on that bus, with Temperature/Reading.
-- Psci.antt (psci.c): the firmware call is a parameter; Psci/CpuOn: `psci_cpu_on`.
--   Psci/Print: what the queries print, and Psci/Buffer: the buffer of `get_core_state`.
-- Primes.antt (primes.c; `prime_multicore_test` of console.c): Primes/Trial and Primes/Count, the counter
--   against the definition of a prime; Primes/Tiles, the ranges that the cores get, and Primes/Total, what
--   they find together. `sqrt` is a parameter. Primes/Multicore: `prime_multicore_test` on core 0 together
--   with the cores of the three queues, as interleaved steps. Its children: Queues and Places, what each
--   queue is in at each place of the test; Pending and Counts, what the cores count; Ranges, what core 0
--   posts; Progress, Measure and Ends, the steps that are left. Primes/Report: the log.
-- Kernel.antt (kernel.c): the part of `main` that sets up the heap and starts the cores, which composes the
--   allocator, the work queue and Psci.antt; Kernel/Cores has the lemmas. Kernel/Main: the whole of
--   `main` on the first core, on a `Board`, and Kernel/Boot: that it comes to the console. Kernel/Blink: the
--   blink codes, and Kernel/Pin: what they do to the register of the LED.
-- KernelInfo.antt (kernel_info.c, exceptions.c): the affinity of a core and what the handlers of exceptions
--   call, with KernelInfo/Affinity; KernelInfo/Cache has the write to SCTLR_EL2, KernelInfo/Print what is
--   printed, KernelInfo/Numbers texts with a number, and KernelInfo/Reports the numbers that are reported.
-- Clock.antt (time.c, include/time.h): the counter is the sequence of its reads; Clock/Wait has the
--   theorems.
-- Common.antt: the names the modules share, and lemmas on tests, lists and bits. The modules named Tests and
--   Runs run the theorems on concrete inputs.
--
-- Fuel: `grow` has 65 rounds and `emit` 66, as many as a 64-bit word has binary digits and more; `ispow2`
-- has the 64 shifts of a word; `format_loop` has a round for each character; the loop of `_free` takes its
-- fuel as an argument, and a block's number of pages is enough, or in Malloc/Shape the entries of the
-- table and the largest request. The loops that wait for hardware (`poll`, `wait_cpu_on`, `wait_loop`) have
-- fuel as an argument, and the number of reads until the answer is enough;
-- `prime_multicore_test` has a round for each number below its limit, and one more; `console_keys` has a
-- round for each key, and one more.
--
-- Not modelled: the assembly that boots the cores, which runs before any C code on a processor that the
-- model takes as set up; the two lines that report a work queue that could not be allocated; and the
-- constants of headers that no modelled code uses. Memory is ordered as the steps of the cores are, so the
-- barriers `dmb` have no part of their own. In Primes/Multicore a task reads its range and counts it in one
-- step. The text of a C string is taken to have no more than the bytes before its NUL, and a pointer to be a
-- 64-bit number that does not wrap around in pointer arithmetic but where the model writes it out.
pub mod Common
pub mod Util
pub mod Semaphore
pub mod Malloc
pub mod Printf
pub mod Strings
pub mod Console
pub mod WorkQueue
pub mod Device
pub mod Psci
pub mod Pcie
pub mod Clock
pub mod Temperature
pub mod Kernel
pub mod KernelInfo
pub mod Primes
