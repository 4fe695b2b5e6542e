-- ===== src/WorkQueue.antt =====
-- work_queue.c: one entry of the work queue, between the core that posts tasks and the core that runs them.
-- The code is written for one poster; each step below is one access that the other core can see, and the
-- steps of the two cores interleave in any order.
mod Tests
pub mod Order
pub mod Life
use cob_kernel.Common.{
  ℕ, ◌≡◌, List, [], ◌∷◌, ◌++◌, Option, none, some, ◌>>=◌, ◌==◌, if◌then◌else◌, update,
}
use cob_kernel.Semaphore.{
  arm64_take_semaphore_exclusive, arm64_put_semaphore_exclusive, arm64_init_semaphore,
}
use cob_kernel.Malloc.{MemoryRegion, Memory, malloc, free, FreeResult}

-- `next_task` and `params`
pub record Task : Type 0 where
  pub next_task : ℕ
  pub params : ℕ

-- `struct work_queue_entry`
pub record WorkQueueEntry : Type 0 where
  pub submission_sem : ℕ
  pub completion_sem : ℕ
  pub task : Task
  pub result : ℕ

-- Where the poster stands, in `post_work_blocking` or in `wait_work_done`.
pub data Poster : Type 0 where
  -- in neither, or in the loop of the first take
  outside : Poster
  -- `completion_sem` is taken, and the task is to be written
  posting : Task → Poster
  -- the task that was passed is written
  written : Task → Poster
  -- between the take and the put of `wait_work_done`
  waited : Poster

-- Where the worker stands in `execute_work`.
pub data Worker : Type 0 where
  -- before the take
  idle : Worker
  -- `submission_sem` is taken
  running : Worker
  -- the task has returned, and `result` is written
  ran : Worker

-- The entry, the two cores, the tasks that were posted, and those that were run, in order.
pub record Queue : Type 0 where
  pub entry : WorkQueueEntry
  pub poster : Poster
  pub worker : Worker
  pub posted : List Task
  pub done : List Task

-- What `create_work_queue_entry` writes into a new block, whose task fields it leaves as they are, and the
-- word at address 0 afterwards; `none` is a core that waits.
unfoldable pub init_entry : WorkQueueEntry → ℕ → Option (WorkQueueEntry × ℕ)
init_entry q word_at_zero =
    let submission = arm64_init_semaphore q.submission_sem word_at_zero in
    let completion = arm64_init_semaphore q.completion_sem submission.word_at_zero in
    arm64_take_semaphore_exclusive submission.sem >>= (λ taken. some (
      record q { submission_sem = taken; completion_sem = completion.sem; result = 0xffff },
      completion.word_at_zero,
    ))

-- `sizeof(struct work_queue_entry)`
abbrev entry_bytes : ℕ
entry_bytes = 40

-- `create_work_queue_entry`, given what the new block holds: the address and the entry (none for NULL),
-- and the heap and the memory afterwards.
unfoldable pub create_work_queue_entry :
    MemoryRegion
    → Memory
    → WorkQueueEntry
    → Option (Option (ℕ × WorkQueueEntry) × MemoryRegion × Memory)
create_work_queue_entry heap m q = malloc heap m entry_bytes >>= (λ block.
    if block.0 == 0
    then some (none, block.1, block.2)
    else init_entry q (block.2 0)
      >>= (λ made. some (some (block.0, made.0), block.1, update block.2 0 made.1)))

-- `delete_work_queue_entry`, which is `kfree` on the kernel's heap.
unfoldable pub delete_work_queue_entry : ℕ → MemoryRegion → Memory → ℕ → FreeResult
delete_work_queue_entry fuel heap m q = free fuel heap m q

-- What a task returns.
abbrev pub Run : Type 0
Run = Task → ℕ

-- `post_work_blocking` of a task
pub data Post (t : Task) (s : Queue) : Queue → Type 0 where
  post_take :
      (sem : ℕ)
      → s.poster ≡ outside
      → arm64_take_semaphore_exclusive s.entry.completion_sem ≡ some sem
      → Post t s (record s { entry = record s.entry { completion_sem = sem }; poster = posting t })
  post_write :
      s.poster ≡ posting t
      → Post t s (record s { entry = record s.entry { task = t }; poster = written t })
  post_put :
      s.poster ≡ written t
      → Post t s (record s {
        entry = record s.entry {
          submission_sem = arm64_put_semaphore_exclusive s.entry.submission_sem;
        };
        poster = outside;
        posted = s.posted ++ t ∷ [];
      })

-- `wait_work_done`
pub data Wait (s : Queue) : Queue → Type 0 where
  wait_take :
      (sem : ℕ)
      → s.poster ≡ outside
      → arm64_take_semaphore_exclusive s.entry.completion_sem ≡ some sem
      → Wait s (record s { entry = record s.entry { completion_sem = sem }; poster = waited })
  wait_put :
      s.poster ≡ waited
      → Wait s (record s {
        entry = record s.entry {
          completion_sem = arm64_put_semaphore_exclusive s.entry.completion_sem;
        };
        poster = outside;
      })

-- `execute_work`
pub data Work (run : Run) (s : Queue) : Queue → Type 0 where
  work_take :
      (sem : ℕ)
      → s.worker ≡ idle
      → arm64_take_semaphore_exclusive s.entry.submission_sem ≡ some sem
      → Work run s (record s { entry = record s.entry { submission_sem = sem }; worker = running })
  work_run :
      s.worker ≡ running
      → Work run s (record s {
        entry = record s.entry { result = run s.entry.task };
        worker = ran;
        done = s.done ++ s.entry.task ∷ [];
      })
  work_put :
      s.worker ≡ ran
      → Work run s (record s {
        entry = record s.entry {
          completion_sem = arm64_put_semaphore_exclusive s.entry.completion_sem;
        };
        worker = idle;
      })

-- A step of either core: the poster calls with any task.
pub data Step (run : Run) (s : Queue) : Queue → Type 0 where
  post : {u : Queue} (t : Task) → Post t s u → Step run s u
  wait : {u : Queue} → Wait s u → Step run s u
  work : {u : Queue} → Work run s u → Step run s u

-- From an entry that was just created, with both cores outside.
pub data Reach (run : Run) : Queue → Type 0 where
  start :
      (q e : WorkQueueEntry) (w w' : ℕ)
      → init_entry q w ≡ some (e, w')
      → Reach run (record { entry = e; poster = outside; worker = idle; posted = []; done = [] })
  next : {s t : Queue} → Reach run s → Step run s t → Reach run t
