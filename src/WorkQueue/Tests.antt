-- ===== src/WorkQueue/Tests.antt =====
-- Runs of the protocol of a work queue entry.
use cob_kernel.Common.{
  ◌+◌, ◌*◌, ◌==◌, some, true, update, arith, ◌≡◌, ◌≤◌, refl, List, [], ◌++◌, length,
}
use cob_kernel.Semaphore.{arm64_init_semaphore, arm64_take_semaphore_exclusive}
use cob_kernel.WorkQueue.{
  Task, WorkQueueEntry, outside, posting, idle, Queue, Run, Step, post, post_take, init_entry,
  Reach, create_work_queue_entry, delete_work_queue_entry, start, next,
}
use cob_kernel.Malloc.{MemoryRegion, Memory, done}
use cob_kernel.Malloc.Pages.{first_free}
use cob_kernel.Malloc.Refine.Held.{Represents}
use cob_kernel.WorkQueue.Life.{new_entry, delete-create}
use cob_kernel.WorkQueue.Order.{done-posted, poster_alone, never_stuck}

abbrev task : Task
task = record { next_task = 0x80000; params = 0x90000 }

abbrev run : Run
run t = 0

abbrev created : WorkQueueEntry
created = record { submission_sem = 1; completion_sem = 0; task = task; result = 0xffff }

abbrev taken_entry : WorkQueueEntry
taken_entry = record created { completion_sem = 1 }

abbrev at_start : Queue
at_start = record { entry = created; poster = outside; worker = idle; posted = []; done = [] }

abbrev at_post : Queue
at_post = record {
  entry = taken_entry;
  poster = posting task;
  worker = idle;
  posted = [];
  done = [];
}

Reach-at_start : Reach run at_start
unfolding init_entry arm64_init_semaphore arm64_take_semaphore_exclusive
Reach-at_start = start created created 0 0 refl

Reach-at_post : Reach run at_post
unfolding arm64_take_semaphore_exclusive
Reach-at_post = next Reach-at_start (post task (post_take 1 refl refl))

done-posted_example :
    (pending : List Task) × (at_post.posted ≡ at_post.done ++ pending) × (length pending ≤ 1)
done-posted_example = done-posted Reach-at_post

poster_alone_example : (at_post.worker ≡ idle) × (at_post.posted ≡ at_post.done)
poster_alone_example = poster_alone Reach-at_post (λ e. cc)

never_stuck_example : (t : Queue) × Step run at_post t
never_stuck_example = never_stuck Reach-at_post

-- A heap of three pages, whose first page is in use.
abbrev heap : MemoryRegion
heap = record {
  top = 0x101000;
  size = 0x3000;
  page_table = 0x100000;
  page_table_entries = 4;
  page_size = 0x1000;
  sem = 0;
}

abbrev first_used : Memory
first_used = update (λ _. 0) 0x100000 1

first_used-Represents : Represents heap first_used (λ i. i == 0)
first_used-Represents = record {
  unlocked = refl;
  mapped = omega arith;
  not_null = omega arith;
  some_size = omega arith;
  small = omega arith;
  covered = omega arith;
  entry = λ i h. ground arith;
  behind = λ e. omega (arith, e);
}

delete-create_example :
    (m' m'' : Memory) × (create_work_queue_entry heap first_used created
      ≡ some (some (1 * 0x1000 + 0x101000, new_entry created), heap, m'))
    × Represents heap m' (update (λ i. i == 0) 1 true)
    × (delete_work_queue_entry 1 heap m' (1 * 0x1000 + 0x101000) ≡ done heap m'')
    × Represents heap m'' (λ i. i == 0)
unfolding first_free
delete-create_example =
    delete-create 1 heap first_used (λ i. i == 0) 1 created (omega arith) first_used-Represents
      (omega arith) refl (omega arith)
