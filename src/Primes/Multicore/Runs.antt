-- ===== src/Primes/Multicore/Runs.antt =====
-- A run of `prime_multicore_test` with one core, in which the core of the queue goes on while core 0 waits.
use cob_kernel.Common.{
  ℕ, ◌+◌, ◌*◌, ◌/◌, ◌≤◌, ◌<◌, ◌≡◌, ◌⊎◌, refl, arith, [], ◌∷◌, if◌then◌else◌, leb,
}
use cob_kernel.Semaphore.{
  arm64_init_semaphore, arm64_take_semaphore_exclusive, arm64_put_semaphore_exclusive,
}
use cob_kernel.WorkQueue.{
  WorkQueueEntry, Queue, outside, idle, init_entry, post_take, post_write, post_put, wait_take,
  wait_put, work_take, work_run, work_put,
}
use cob_kernel.WorkQueue as WorkQueue
use cob_kernel.Primes.{
  calculate_primes, post_ranges, ranges, before, post_rounds, prime_multicore_test,
}
use cob_kernel.Primes.Total.{total}
use cob_kernel.Primes.Multicore.{
  PrimeParams, limit, start_at, stop_at, next_round, params_of, at_round, returned, Multicore,
  has_left, has_run, Step, enter_round, leave, write_start, write_stop, post, leave_posts, wait,
  leave_waits, work, IsQuiet, MulticoreReach, start, next, steps_of,
}
use cob_kernel.Primes.Multicore.Ranges.{multicore_counts, times, counted_each}
use cob_kernel.Primes.Multicore.Progress.{returned-IsQuiet}
use cob_kernel.Primes.Multicore.Ends.{multicore_ends}

-- Four primes, in ranges of five numbers.
abbrev one_core : PrimeParams
one_core = record {
  primes = 4;
  num_cores = 1;
  minimum_work_size = 5;
  task_handler = 0x81000;
  params = 0x7f000;
}

abbrev created : WorkQueueEntry
created = record {
  submission_sem = 1;
  completion_sem = 0;
  task = record { next_task = 0; params = 0 };
  result = 0xffff;
}

abbrev new_queue : Queue
new_queue = record { entry = created; poster = outside; worker = idle; posted = []; done = [] }

new_queue-IsQuiet : IsQuiet new_queue
unfolding init_entry arm64_init_semaphore arm64_take_semaphore_exclusive
new_queue-IsQuiet = record {
  reached = WorkQueue.start created created 0 0 refl;
  left = refl;
  opened = refl;
}

abbrev at_start : MulticoreReach one_core (record {
  queues = λ k. new_queue;
  memory = λ a. 0;
  place = at_round 0;
  posted = [];
  counted = [];
})
at_start = start (λ k. new_queue) (λ a. 0) (λ k lt. new_queue-IsQuiet)

unfoldable one_core_run : (s : Multicore) × MulticoreReach one_core s
unfolding limit has_left has_run arm64_take_semaphore_exclusive arm64_put_semaphore_exclusive
    start_at stop_at params_of next_round
one_core_run =
    let posted =
      next
        (next
          (next
            (next
              (next (next at_start (enter_round 0 refl (omega arith)))
                (write_start 0 0 refl (omega arith)))
              (write_stop 0 0 refl))
            (post 0 0 refl (post_take 1 refl refl)))
          (post 0 0 refl (post_write refl)))
        (post 0 0 refl (post_put refl)) in
    let worked =
      next
        (next
          (next (next posted (leave_posts 0 1 refl (omega arith)))
            (work 0 (omega arith) (work_take 1 refl refl) (λ c. absurd cc)))
          (work 0 (omega arith) (work_run refl) (λ c. refl)))
        (work 0 (omega arith) (work_put refl) (λ c. absurd cc)) in
    (
      _,
      next
          (next
            (next (next worked (wait 0 0 refl (omega arith) (wait_take 1 refl refl)))
              (wait 0 0 refl (omega arith) (wait_put refl)))
            (leave_waits 0 1 refl (omega arith)))
          (leave 5 refl (omega arith)),
    )

counts : one_core_run.0.counted ≡ (0, 5) ∷ []
unfolding has_run one_core_run
counts = refl

-- Square roots, rounded down, of the numbers in the range.
abbrev root : ℕ → ℕ
root n = if leb 4 n then 2 else 1

multicore_counts_example :
    (e : ℕ) × (total root one_core_run.0.counted ≡ calculate_primes root 0 e)
    × (4 / 1 * 1 ≤ e)
    × (e < 4 / 1 * 1 + 5 * 1)
unfolding one_core_run
multicore_counts_example =
    multicore_counts root one_core (omega arith) (omega arith) (omega arith) (omega arith)
      one_core_run.1 refl

alone : prime_multicore_test 5 4 1 5 ≡ ranges ((0, 5) ∷ [])
unfolding prime_multicore_test post_rounds post_ranges before
alone = refl

counted_each_example : times 0 5 one_core_run.0.counted ≡ times 0 5 ((0, 5) ∷ [])
unfolding one_core_run
counted_each_example =
    counted_each one_core 5 0 5 ((0, 5) ∷ []) (omega arith) alone one_core_run.1 refl

multicore_ends_example :
    (steps_of one_core_run.1 ≤ 64 * limit one_core + 1)
    × ((one_core_run.0.place ≡ returned) ⊎ ((t : Multicore) × Step one_core one_core_run.0 t))
multicore_ends_example =
    multicore_ends one_core (omega arith) (omega arith) (omega arith) (omega arith) one_core_run.1

returned-IsQuiet_example : IsQuiet (one_core_run.0.queues 0)
unfolding one_core_run
returned-IsQuiet_example = returned-IsQuiet (omega arith) one_core_run.1 refl 0 (omega arith)
