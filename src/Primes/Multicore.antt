-- ===== src/Primes/Multicore.antt =====
-- `prime_multicore_test` of console.c on core 0, and the cores that run `execute_work` on the queues of
-- kernel.c: each step is one access that another core can see, and the steps interleave in any order. The
-- accesses to an entry are those of WorkQueue.antt; a task is `_calculate_primes_task_handler`, which reads its
-- range from the place in `params` that its queue has, the same in every round.
pub mod Queues
pub mod Places
pub mod Pending
pub mod Counts
pub mod Ranges
pub mod Progress
pub mod Measure
pub mod Ends
mod Runs
use cob_kernel.Common.{
  ℕ, suc, ◌+◌, ◌*◌, ◌/◌, ◌%◌, ◌^◌, ◌≤◌, ◌<◌, ◌≡◌, ◌≢◌, Bool, true, false, List, [], ◌∷◌, ◌++◌,
  if◌then◌else◌, update,
}
use cob_kernel.WorkQueue.{
  Task, Poster, outside, posting, written, waited, Worker, idle, running, ran, Queue, Run, Post,
  Wait, Work, Reach,
}

-- `struct prime_params`, with the addresses of `_calculate_primes_task_handler` and of `params`
pub record PrimeParams : Type 0 where
  pub primes : ℕ
  pub num_cores : ℕ
  pub minimum_work_size : ℕ
  pub task_handler : ℕ
  pub params : ℕ

-- `primes_per_core*pparams->num_cores`
unfoldable pub limit : PrimeParams → ℕ
limit p = p.primes / p.num_cores * p.num_cores % 2 ^ 64

-- What is written to `params[qidx*2]`, to `params[qidx*2+1]`, and to `i` after a round.
unfoldable pub start_at : PrimeParams → ℕ → ℕ → ℕ
start_at p i qidx = (i + qidx * p.minimum_work_size % 2 ^ 64) % 2 ^ 64

unfoldable pub stop_at : PrimeParams → ℕ → ℕ → ℕ
stop_at p i qidx = (i + (qidx + 1) * p.minimum_work_size % 2 ^ 64) % 2 ^ 64

unfoldable pub next_round : PrimeParams → ℕ → ℕ
next_round p i = (i + p.minimum_work_size * p.num_cores % 2 ^ 64) % 2 ^ 64

-- `&params[qidx*2]`
unfoldable pub params_of : PrimeParams → ℕ → ℕ
params_of p qidx = p.params + qidx * 16

-- The task of `QUEUE_WORK(queues[qidx], calculate_primes, &params[qidx*2])`.
abbrev pub task_of : PrimeParams → ℕ → Task
task_of p qidx = record { next_task = p.task_handler; params = params_of p qidx }

-- What `calculate_primes` returns.
abbrev pub returns_zero : Run
returns_zero t = 0

-- Where core 0 stands in the test, with `i` and `qidx`.
pub data Position : Type 0 where
  -- at the test of the outer loop
  at_round : ℕ → Position
  -- at the test of the first inner loop
  at_post : ℕ → ℕ → Position
  -- `params[qidx*2]` is written
  at_stop : ℕ → ℕ → Position
  -- in `post_work_blocking`
  in_post : ℕ → ℕ → Position
  -- at the test of the second inner loop, or in `wait_work_done`
  at_wait : ℕ → ℕ → Position
  returned : Position

-- The queues, the words of the memory, core 0, the ranges that it posted, and those that the cores counted, in
-- the order in which they did.
pub record Multicore : Type 0 where
  pub queues : ℕ → Queue
  pub memory : ℕ → ℕ
  pub place : Position
  pub posted : List (ℕ × ℕ)
  pub counted : List (ℕ × ℕ)

-- Whether a call of `post_work_blocking` or of `wait_work_done` has come to its end.
unfoldable pub has_left : Poster → Bool
has_left outside = true
has_left (posting t) = false
has_left (written t) = false
has_left waited = false

-- Whether the task has just returned.
unfoldable pub has_run : Worker → Bool
has_run idle = false
has_run running = false
has_run ran = true

pub data Step (p : PrimeParams) (s : Multicore) : Multicore → Type 0 where
  enter_round :
      (i : ℕ) → s.place ≡ at_round i → i < limit p → Step p s (record s { place = at_post i 0 })
  leave : (i : ℕ) → s.place ≡ at_round i → limit p ≤ i → Step p s (record s { place = returned })
  write_start :
      (i k : ℕ)
      → s.place ≡ at_post i k
      → k < p.num_cores
      → Step p s (record s {
        memory = update s.memory (params_of p k) (start_at p i k);
        place = at_stop i k;
      })
  write_stop :
      (i k : ℕ)
      → s.place ≡ at_stop i k
      → Step p s (record s {
        memory = update s.memory (params_of p k + 8) (stop_at p i k);
        place = in_post i k;
      })
  post :
      {u : Queue} (i k : ℕ)
      → s.place ≡ in_post i k
      → Post (task_of p k) (s.queues k) u
      → Step p s (record s {
        queues = update s.queues k u;
        place = if has_left u.poster then at_post i (k + 1) else in_post i k;
        posted =
            if has_left u.poster
            then s.posted ++ (start_at p i k, stop_at p i k) ∷ []
            else s.posted;
      })
  leave_posts :
      (i k : ℕ)
      → s.place ≡ at_post i k
      → p.num_cores ≤ k
      → Step p s (record s { place = at_wait i 0 })
  wait :
      {u : Queue} (i k : ℕ)
      → s.place ≡ at_wait i k
      → k < p.num_cores
      → Wait (s.queues k) u
      → Step p s (record s {
        queues = update s.queues k u;
        place = if has_left u.poster then at_wait i (k + 1) else at_wait i k;
      })
  leave_waits :
      (i k : ℕ)
      → s.place ≡ at_wait i k
      → p.num_cores ≤ k
      → Step p s (record s { place = at_round (next_round p i) })
  -- the core of a queue; when its task runs, that is the handler, and counts the range it reads
  work :
      {u : Queue} (k : ℕ)
      → k < 3
      → Work returns_zero (s.queues k) u
      → (u.worker ≡ ran → (s.queues k).entry.task.next_task ≡ p.task_handler)
      → Step p s (record s {
        queues = update s.queues k u;
        counted =
            if has_run u.worker
            then s.counted
              ++ (
                s.memory (s.queues k).entry.task.params,
                s.memory ((s.queues k).entry.task.params + 8),
              )
                ∷ []
            else s.counted;
      })

-- A queue between two tests: nothing is posted, and no core is in it.
pub record IsQuiet (q : Queue) : Type 0 where
  pub reached : Reach returns_zero q
  pub left : q.poster ≡ outside
  pub opened : q.entry.completion_sem ≡ 0

-- From the start of the test, with queues that are quiet.
pub data MulticoreReach (p : PrimeParams) : Multicore → Type 0 where
  start :
      (queues : ℕ → Queue) (memory : ℕ → ℕ)
      → ((k : ℕ) → k < 3 → IsQuiet (queues k))
      → MulticoreReach p (record {
        queues = queues;
        memory = memory;
        place = at_round 0;
        posted = [];
        counted = [];
      })
  next : {s t : Multicore} → MulticoreReach p s → Step p s t → MulticoreReach p t

-- The steps of a run.
abbrev pub steps_of : {p : PrimeParams} {s : Multicore} → MulticoreReach p s → ℕ
steps_of (start queues memory quiet) = 0
steps_of (next r st) = suc (steps_of r)
