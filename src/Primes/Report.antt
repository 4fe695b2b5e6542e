-- ===== src/Primes/Report.antt =====
-- What the prime test logs: the lines of core 0, in `prime_multicore_test` of console.c and in the calls of
-- work_queue.c that it makes, and those of the cores that run the tasks.
use cob_kernel.Common.{ℕ, zero, suc, ◌+◌, ◌-◌, ◌/◌, ◌%◌, ◌^◌, List, [], ◌∷◌, ◌++◌}
use cob_kernel.Printf.Format.{word, Printed}
use cob_kernel.Printf.Log.{Verbosity, log_debug, log_info}
use cob_kernel.KernelInfo.{get_core_affinity}
use cob_kernel.Primes.{calculate_primes}

-- `calculate_primes` with what it logs on the core with this MPIDR_EL1.
unfoldable pub report_primes : (ℕ → ℕ) → Verbosity → ℕ → ℕ → ℕ → List Printed
report_primes sqrt v mpidr start stop =
    log_info v "primes.c" "Core %ld: Found %ld primes in range %ld to %ld\n\r" (
      word (get_core_affinity mpidr / 2 ^ 8)
      ∷ word (calculate_primes sqrt start stop)
      ∷ word start
      ∷ word stop
      ∷ [])

-- The lines of `post_work_blocking`, of `wait_work_done`, and of `execute_work` before its task.
unfoldable pub post_texts : Verbosity → List Printed
post_texts v =
    log_debug v "work_queue.c" "Taking completion semaphore\n\r" []
    ++ log_debug v "work_queue.c" "Putting submission semaphore\n\r" []

unfoldable pub wait_texts : Verbosity → List Printed
wait_texts v =
    log_debug v "work_queue.c" "Waiting work done\n\r" []
    ++ log_debug v "work_queue.c" "work is done done\n\r" []

unfoldable pub execute_texts : Verbosity → List Printed
execute_texts v =
    log_debug v "work_queue.c" "Completer waiting for submission\n\r" []
    ++ log_debug v "work_queue.c" "Completer got submission\n\r" []

-- The first inner loop from `qidx` on, with the queues that are left, and the second.
unfoldable pub posts_texts : Verbosity → ℕ → ℕ → List Printed
posts_texts v zero qidx = []
posts_texts v (suc n) qidx =
    log_debug v "console.c" "Putting work into q %d\n\r" (word qidx ∷ [])
    ++ post_texts v
    ++ posts_texts v n (qidx + 1)

unfoldable pub waits_texts : Verbosity → ℕ → ℕ → List Printed
waits_texts v zero qidx = []
waits_texts v (suc n) qidx =
    log_debug v "console.c" "Waitng for work done on q %d\n\r" (word qidx ∷ [])
    ++ wait_texts v
    ++ waits_texts v n (qidx + 1)

unfoldable pub rounds_texts : Verbosity → ℕ → ℕ → List Printed
rounds_texts v cores zero = []
rounds_texts v cores (suc n) =
    posts_texts v cores 0 ++ waits_texts v cores 0 ++ rounds_texts v cores n

-- The lines of core 0 for a test of that many rounds, given the kernel's time at the start and at the end.
unfoldable pub test_texts : Verbosity → ℕ → ℕ → ℕ → ℕ → ℕ → ℕ → List Printed
test_texts v primes cores work rounds start stop =
    log_info v "console.c"
      "Executing multicore prime calculation test. Primes Per Core : %ld, cores: %d, work_size: %ld\n\r"
      (word (primes / cores) ∷ word cores ∷ word work ∷ [])
    ++ rounds_texts v cores rounds
    ++ log_info v "console.c" "Operation took %ld us\n\r"
        (word ((2 ^ 64 + stop - start) % 2 ^ 64) ∷ [])
