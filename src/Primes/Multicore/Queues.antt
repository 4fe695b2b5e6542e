-- ===== src/Primes/Multicore/Queues.antt =====
-- What a queue of kernel.c is in, at each place of `prime_multicore_test`.
use cob_kernel.Common.{
  ℕ, ◌+◌, ◌<◌, ◌≡◌, ◌≢◌, refl, arith, Bool, true, false, ◌&&◌, ltb, leb, ◌==◌, if◌then◌else◌,
}
use cob_kernel.Semaphore.{arm64_take_semaphore_exclusive}
use cob_kernel.WorkQueue as WorkQueue
use cob_kernel.WorkQueue.{
  Task, Poster, outside, posting, written, waited, Worker, idle, running, ran, Queue, Post,
  post_take, post_write, post_put, Wait, wait_take, wait_put, Work, work_take, work_run, work_put,
  Reach, next,
}
use cob_kernel.WorkQueue.Order.{free, poster_has, worker_has, Inv, Reach-Inv}
use cob_kernel.Primes.Multicore.{
  PrimeParams, task_of, returns_zero, Position, at_round, at_post, at_stop, in_post, at_wait,
  returned, has_left,
}

-- Whether a task is posted and not yet run.
unfoldable pub is_unrun : Worker → ℕ → Bool
is_unrun idle sem = sem == 0
is_unrun running sem = true
is_unrun ran sem = false

-- Whether a queue may have a task, given the place.
unfoldable pub is_open : PrimeParams → Position → ℕ → Bool
is_open p (at_round i) k = false
is_open p (at_post i j) k = ltb k j && ltb k p.num_cores
is_open p (at_stop i j) k = ltb k j && ltb k p.num_cores
is_open p (in_post i j) k = ltb k j && ltb k p.num_cores
is_open p (at_wait i j) k = leb j k && ltb k p.num_cores
is_open p returned k = false

-- The poster of a queue is core 0, and stands where the place says.
abbrev pub Stands : PrimeParams → Position → ℕ → Task → Poster → Type 0
Stands p place k t outside = Unit
Stands p place k t (posting t') = (i : ℕ) × (place ≡ in_post i k) × (t' ≡ task_of p k)
Stands p place k t (written t') =
    (i : ℕ) × (place ≡ in_post i k) × (t ≡ task_of p k) × (t' ≡ task_of p k)
Stands p place k t waited = (i : ℕ) × (place ≡ at_wait i k) × (k < p.num_cores)

pub record IsSettled (q : Queue) : Type 0 where
  pub idles : q.worker ≡ idle
  pub taken : q.entry.submission_sem ≢ 0

pub record Kept (p : PrimeParams) (place : Position) (k : ℕ) (q : Queue) : Type 0 where
  pub reached : Reach returns_zero q
  pub stands : Stands p place k q.entry.task q.poster
  pub settled : is_open p place k ≡ false → IsSettled q
  pub known : is_unrun q.worker q.entry.submission_sem ≡ true → q.entry.task ≡ task_of p k

pub Stands-outside :
    (p : PrimeParams) {place : Position} {k : ℕ} (t : Task) (at : Poster)
    → Stands p place k t at
    → ((i : ℕ) → place ≢ in_post i k)
    → ((i : ℕ) → place ≡ at_wait i k → ¬ (k < p.num_cores))
    → at ≡ outside
Stands-outside p t outside st posts waits = refl
Stands-outside p t (posting t') st posts waits = absurd (posts st.0 st.1)
Stands-outside p t (written t') st posts waits = absurd (posts st.0 st.1)
Stands-outside p t waited st posts waits = absurd (waits st.0 st.1 st.2)

-- From a place at which core 0 is in other queues, or in none.
pub Kept-moved :
    {p : PrimeParams} {place place' : Position} {k : ℕ} {q : Queue}
    → Kept p place k q
    → ((i : ℕ) → place ≢ in_post i k)
    → ((i : ℕ) → place ≡ at_wait i k → ¬ (k < p.num_cores))
    → (is_open p place' k ≡ false → is_open p place k ≡ false)
    → Kept p place' k q
Kept-moved {p} {place} {place'} {k} {q} v posts waits closed =
    let out = Stands-outside p q.entry.task q.poster v.stands posts waits in
    record {
      reached = v.reached;
      stands = rw out tt;
      settled = λ e. v.settled (closed e);
      known = v.known;
    }

open-posted :
    (p : PrimeParams) (i k : ℕ) → k < p.num_cores → is_open p (at_post i (k + 1)) k ≢ false
unfolding is_open
open-posted p i k inside c = ground (arith, inside, c)

open-waiting : (p : PrimeParams) (i k : ℕ) → k < p.num_cores → is_open p (at_wait i k) k ≢ false
unfolding is_open
open-waiting p i k inside c = ground (arith, inside, c)

task_written :
    {p : PrimeParams} {place : Position} {k : ℕ} {q : Queue}
    → Kept p place k q
    → q.poster ≡ written (task_of p k)
    → q.entry.task ≡ task_of p k
task_written {p} {place} {k} {q} v e =
    let stands : Stands p place k q.entry.task (written (task_of p k)) = rw e at v.stands in
    stands.2

-- While core 0 is in a queue, no other core is.
poster_has-IsSettled : {q : Queue} → Inv q → q.poster ≡ waited → IsSettled q
unfolding free poster_has worker_has
poster_has-IsSettled {q} i e = record {
  idles = ground (arith, i.token, e);
  taken = λ z. ground (arith, i.token, e, z);
}

pub Post-Kept :
    {p : PrimeParams} {i k : ℕ} {q u : Queue}
    → Kept p (in_post i k) k q
    → k < p.num_cores
    → Post (task_of p k) q u
    → Kept p (if has_left u.poster then at_post i (k + 1) else in_post i k) k u
unfolding has_left is_open is_unrun arm64_take_semaphore_exclusive
Post-Kept {p} {i} {k} {q} v inside (post_take sem e take) = record {
  reached = next v.reached (WorkQueue.post (task_of p k) (post_take sem e take));
  stands = (i, refl, refl);
  settled = λ c. record { idles = (v.settled c).idles; taken = (v.settled c).taken };
  known = v.known;
}
Post-Kept {p} {i} {k} {q} v inside (post_write e) = record {
  reached = next v.reached (WorkQueue.post (task_of p k) (post_write e));
  stands = (i, refl, refl, refl);
  settled = λ c. record { idles = (v.settled c).idles; taken = (v.settled c).taken };
  known = λ c. refl;
}
Post-Kept {p} {i} {k} {q} v inside (post_put e) = record {
  reached = next v.reached (WorkQueue.post (task_of p k) (post_put e));
  stands = tt;
  settled = λ c. absurd (open-posted p i k inside c);
  known = λ c. task_written v e;
}

pub Wait-Kept :
    {p : PrimeParams} {i k : ℕ} {q u : Queue}
    → Kept p (at_wait i k) k q
    → k < p.num_cores
    → Wait q u
    → Kept p (if has_left u.poster then at_wait i (k + 1) else at_wait i k) k u
unfolding has_left
Wait-Kept {p} {i} {k} {q} v inside (wait_take sem e take) = record {
  reached = next v.reached (WorkQueue.wait (wait_take sem e take));
  stands = (i, refl, inside);
  settled = λ c. absurd (open-waiting p i k inside c);
  known = v.known;
}
Wait-Kept {p} {i} {k} {q} v inside (wait_put e) =
    let done = poster_has-IsSettled (Reach-Inv v.reached) e in
    record {
      reached = next v.reached (WorkQueue.wait (wait_put e));
      stands = tt;
      settled = λ c. record { idles = done.idles; taken = done.taken };
      known = v.known;
    }

-- A core that takes or runs a task was not at rest, and one that puts had taken the submission.
pub Work-Kept :
    {p : PrimeParams} {place : Position} {k : ℕ} {q u : Queue}
    → Kept p place k q
    → Work returns_zero q u
    → Kept p place k u
unfolding is_unrun free poster_has worker_has arm64_take_semaphore_exclusive
Work-Kept {p} {place} {k} {q} v (work_take sem e take) = record {
  reached = next v.reached (WorkQueue.work (work_take sem e take));
  stands = v.stands;
  settled = λ c. absurd (grind (arith, take, (v.settled c).taken));
  known = λ c. v.known (ground (arith, e, take));
}
Work-Kept {p} {place} {k} {q} v (work_run e) = record {
  reached = next v.reached (WorkQueue.work (work_run e));
  stands = v.stands;
  settled = λ c. absurd (ground (arith, e, (v.settled c).idles));
  known = λ c. absurd (ground (arith, c));
}
Work-Kept {p} {place} {k} {q} v (work_put e) = record {
  reached = next v.reached (WorkQueue.work (work_put e));
  stands = v.stands;
  settled = λ c. absurd (ground (arith, e, (v.settled c).idles));
  known = λ c. absurd (ground (arith, e, c, (Reach-Inv v.reached).token));
}
