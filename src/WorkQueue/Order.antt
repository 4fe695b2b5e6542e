-- ===== src/WorkQueue/Order.antt =====
-- The protocol of a work queue entry: one core at a time has the entry, and each task that is posted is run
-- once, in order.
use cob_kernel.Common.{
  ℕ, ◌+◌, ◌≡◌, ◌≢◌, refl, arith, some, List, [], ◌∷◌, ◌++◌, append-nil, ℕ_discrete, ◌==◌, length,
  ◌≤◌, if◌then◌else◌,
}
use cob_kernel.Semaphore.{
  arm64_init_semaphore, arm64_take_semaphore_exclusive, arm64_put_semaphore_exclusive,
}
use cob_kernel.WorkQueue.{
  Task, Poster, outside, posting, written, waited, Worker, idle, running, ran, Queue, init_entry,
  Run, Step, post, wait, work, post_take, post_write, post_put, wait_take, wait_put, work_take,
  work_run, work_put, Reach, start, next,
}

-- Who has the entry: a count of one for a semaphore that is free and for a core that took one.
unfoldable pub free : ℕ → ℕ
free sem = if sem == 0 then 1 else 0

unfoldable pub poster_has : Poster → ℕ
poster_has outside = 0
poster_has (posting t) = 1
poster_has (written t) = 1
poster_has waited = 1

unfoldable pub worker_has : Worker → ℕ
worker_has idle = 0
worker_has running = 1
worker_has ran = 1

-- The task that is posted and not yet run.
pub pending_of : Worker → ℕ → Task → List Task
pending_of running sem t = t ∷ []
pending_of ran sem t = []
pending_of idle sem t = if sem == 0 then t ∷ [] else []

pub record Inv (s : Queue) : Type 0 where
  pub token :
      free s.entry.completion_sem
        + poster_has s.poster
        + free s.entry.submission_sem
        + worker_has s.worker
      ≡ 1
  pub kept : (t : Task) → s.poster ≡ written t → s.entry.task ≡ t
  pub order : s.posted ≡ s.done ++ pending_of s.worker s.entry.submission_sem s.entry.task

pub Step-Inv : {run : Run} {s t : Queue} → Step run s t → Inv s → Inv t
unfolding free poster_has worker_has pending_of arm64_take_semaphore_exclusive
    arm64_put_semaphore_exclusive
Step-Inv {run} {s} (post t (post_take sem e take)) i = record {
  token = ground (arith, i.token);
  kept = λ t' c. absurd cc;
  order = ground (arith, i.order, i.token);
}
Step-Inv {run} {s} (post t (post_write e)) i = record {
  token = ground (arith, i.token);
  kept = λ t' c. cc;
  order = ground (arith, i.order, i.token);
}
Step-Inv {run} {s} (post t (post_put e)) i = record {
  token = ground (arith, i.token);
  kept = λ t' c. absurd cc;
  order = ground (arith, i.order, i.token, i.kept t e, append-nil s.done);
}
Step-Inv {run} {s} (wait (wait_take sem e take)) i = record {
  token = ground (arith, i.token);
  kept = λ t' c. absurd cc;
  order = ground (arith, i.order, i.token);
}
Step-Inv {run} {s} (wait (wait_put e)) i = record {
  token = ground (arith, i.token);
  kept = λ t' c. absurd cc;
  order = ground (arith, i.order, i.token);
}
Step-Inv {run} {s} (work (work_take sem e take)) i = record {
  token = ground (arith, i.token);
  kept = i.kept;
  order = ground (arith, i.order, i.token);
}
Step-Inv {run} {s} (work (work_run e)) i = record {
  token = ground (arith, i.token);
  kept = i.kept;
  order = ground (arith, i.order, i.token, append-nil (s.done ++ s.entry.task ∷ []));
}
Step-Inv {run} {s} (work (work_put e)) i = record {
  token = ground (arith, i.token);
  kept = i.kept;
  order = ground (arith, i.order, i.token, append-nil s.done);
}

pub Reach-Inv : {run : Run} {s : Queue} → Reach run s → Inv s
unfolding free poster_has worker_has pending_of init_entry arm64_init_semaphore
    arm64_take_semaphore_exclusive
Reach-Inv (start q e w w' made) = record {
  token = ground (arith, made);
  kept = λ t c. absurd cc;
  order = ground (arith, made);
}
Reach-Inv (next r st) = Step-Inv st (Reach-Inv r)

pending-few : (w : Worker) (sem : ℕ) (t : Task) → length (pending_of w sem t) ≤ 1
unfolding pending_of
pending-few idle sem t = ground arith
pending-few running sem t = ground arith
pending-few ran sem t = ground arith

-- In every interleaving, the tasks that are run are those that were posted, in the same order and each
-- once: all of them, or all but the last.
pub done-posted :
    {run : Run} {s : Queue}
    → Reach run s
    → (pending : List Task) × (s.posted ≡ s.done ++ pending) × (length pending ≤ 1)
done-posted {run} {s} r = (
  pending_of s.worker s.entry.submission_sem s.entry.task,
  (Reach-Inv r).order,
  pending-few s.worker s.entry.submission_sem s.entry.task,
)

-- In every interleaving, while the poster is between its take and its put, in `post_work_blocking` or in
-- `wait_work_done`, the worker is outside `execute_work`'s access to the entry, and every task that was
-- posted has been run.
pub poster_alone :
    {run : Run} {s : Queue}
    → Reach run s
    → s.poster ≢ outside
    → (s.worker ≡ idle) × (s.posted ≡ s.done)
unfolding free poster_has worker_has pending_of
poster_alone {run} {s} r busy =
    let i = Reach-Inv r in ground (arith, i.token, i.order, append-nil s.done)

pub take_free : (sem : ℕ) → sem ≡ 0 → arm64_take_semaphore_exclusive sem ≡ some 1
unfolding arm64_take_semaphore_exclusive
take_free sem e = ground arith

-- The worker can take the submission if neither the poster nor a free completion semaphore has the token.
pub submitted :
    {s : Queue}
    → Inv s
    → s.poster ≡ outside
    → s.worker ≡ idle
    → s.entry.completion_sem ≢ 0
    → s.entry.submission_sem ≡ 0
unfolding free poster_has worker_has
submitted i p e taken = ground (arith, i.token)

-- In every interleaving some core can go on: the protocol never deadlocks.
pub never_stuck : {run : Run} {s : Queue} → Reach run s → (t : Queue) × Step run s t
never_stuck {run} {s} r = go s.poster refl s.worker refl
  where
    go : (p : Poster) → s.poster ≡ p → (w : Worker) → s.worker ≡ w → (t : Queue) × Step run s t
    go (posting t) p w e = (_, post t (post_write p))
    go (written t) p w e = (_, post t (post_put p))
    go waited p w e = (_, wait (wait_put p))
    go outside p running e = (_, work (work_run e))
    go outside p ran e = (_, work (work_put e))
    go outside p idle e = elim (ℕ_discrete s.entry.completion_sem 0) [
      | yes opened ↦ (_, wait (wait_take 1 p (take_free s.entry.completion_sem opened)))
      | no taken ↦ (
        _,
        work (work_take 1 e (take_free s.entry.submission_sem (submitted (Reach-Inv r) p e taken))),
      )
    ]
