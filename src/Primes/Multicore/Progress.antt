-- ===== src/Primes/Multicore/Progress.antt =====
-- The step that can be taken at each place of `prime_multicore_test`, and the queues at its end.
use cob_kernel.Common.{ℕ, ◌≤◌, ◌<◌, ◌≡◌, ◌≢◌, refl, ◌∙◌, ap, arith, false, dec_lt, ℕ_discrete}
use cob_kernel.WorkQueue.{
  Task, Poster, outside, posting, written, waited, Worker, idle, running, ran, Queue, post_take,
  post_write, post_put, wait_take, wait_put, work_take, work_run, work_put, Work,
}
use cob_kernel.WorkQueue.Order.{free, poster_has, worker_has, Reach-Inv, take_free, submitted}
use cob_kernel.Primes.Multicore.{
  PrimeParams, limit, returns_zero, Position, at_round, at_post, at_stop, in_post, at_wait,
  returned, Multicore, Step, enter_round, leave, write_start, write_stop, post, leave_posts, wait,
  leave_waits, work, IsQuiet, MulticoreReach,
}
use cob_kernel.Primes.Multicore.Queues.{is_open, is_unrun, IsSettled, Kept, Stands, Stands-outside}
use cob_kernel.Primes.Multicore.Places.{QueuesInv, MulticoreReach-QueuesInv}

-- A queue that has no task and whose poster is outside can be taken.
Kept-opened :
    {p : PrimeParams} {place : Position} {k : ℕ} {q : Queue}
    → Kept p place k q
    → IsSettled q
    → q.poster ≡ outside
    → q.entry.completion_sem ≡ 0
unfolding free poster_has worker_has
Kept-opened {q = q} v settled out =
    ground (arith, (Reach-Inv v.reached).token, settled.idles, settled.taken, out)

-- The core of a queue goes on, when the poster waits and the completion is taken.
Kept-works :
    {p : PrimeParams} {place : Position} {k : ℕ} {q : Queue}
    → Kept p place k q
    → q.poster ≡ outside
    → q.entry.completion_sem ≢ 0
    → (u : Queue) × Work returns_zero q u
      × (u.worker ≡ ran → q.entry.task.next_task ≡ p.task_handler)
unfolding is_unrun
Kept-works {p} {place} {k} {q} v out closed = go q.worker refl
  where
    go :
        (w : Worker)
        → q.worker ≡ w
        → (u : Queue) × Work returns_zero q u
          × (u.worker ≡ ran → q.entry.task.next_task ≡ p.task_handler)
    go idle e = (
      _,
      work_take 1 e
          (take_free q.entry.submission_sem (submitted (Reach-Inv v.reached) out e closed)),
      λ c. absurd cc,
    )
    go running e = (_, work_run e, λ c. ap (λ (t : Task). t.next_task) (v.known (rw e refl)))
    go ran e = (_, work_put e, λ c. absurd cc)

pub closed-in : (p : PrimeParams) (i k : ℕ) → is_open p (in_post i k) k ≡ false
unfolding is_open
closed-in p i k = ground arith

module _ {p : PrimeParams} (s : Multicore) (few : p.num_cores ≤ 3) where
  post-goes_on :
      (i k : ℕ)
      → s.place ≡ in_post i k
      → Kept p (in_post i k) k (s.queues k)
      → (t : Multicore) × Step p s t
  post-goes_on i k e v = go (s.queues k).poster refl
    where
      go : (w : Poster) → (s.queues k).poster ≡ w → (t : Multicore) × Step p s t
      go outside at = (
        _,
        post i k e (post_take 1 at (take_free _ (Kept-opened v (v.settled (closed-in p i k)) at))),
      )
      go (posting t) at =
          let stands : Stands p (in_post i k) k (s.queues k).entry.task (posting t) =
            rw at at v.stands in
          (_, post i k e (post_write (at ∙ ap posting stands.2)))
      go (written t) at =
          let stands : Stands p (in_post i k) k (s.queues k).entry.task (written t) =
            rw at at v.stands in
          (_, post i k e (post_put (at ∙ ap written stands.3)))
      go waited at =
          let stands : Stands p (in_post i k) k (s.queues k).entry.task waited =
            rw at at v.stands in
          let there = stands.1 in absurd cc

  wait-goes_on :
      (i k : ℕ)
      → s.place ≡ at_wait i k
      → k < p.num_cores
      → Kept p (at_wait i k) k (s.queues k)
      → (t : Multicore) × Step p s t
  wait-goes_on i k e lt v = go (s.queues k).poster refl
    where
      go : (w : Poster) → (s.queues k).poster ≡ w → (t : Multicore) × Step p s t
      go outside at = elim (ℕ_discrete (s.queues k).entry.completion_sem 0) [
        | yes opened ↦ (_, wait i k e lt (wait_take 1 at (take_free _ opened)))
        | no closed ↦
            let (u, m, handler) = Kept-works v at closed in
            (_, work k (omega (arith, lt, few)) m handler)
      ]
      go (posting t) at =
          let stands : Stands p (at_wait i k) k (s.queues k).entry.task (posting t) =
            rw at at v.stands in
          let there = stands.1 in absurd cc
      go (written t) at =
          let stands : Stands p (at_wait i k) k (s.queues k).entry.task (written t) =
            rw at at v.stands in
          let there = stands.1 in absurd cc
      go waited at = (_, wait i k e lt (wait_put at))

  pub goes_on : QueuesInv p s → s.place ≢ returned → (t : Multicore) × Step p s t
  goes_on v still = go s.place refl
    where
      go : (w : Position) → s.place ≡ w → (t : Multicore) × Step p s t
      go (at_round i) e = elim (dec_lt i (limit p)) [
        | yes lt ↦ (_, enter_round i e lt)
        | no past ↦ (_, leave i e (omega (arith, past)))
      ]
      go (at_post i k) e = elim (dec_lt k p.num_cores) [
        | yes lt ↦ (_, write_start i k e lt)
        | no past ↦ (_, leave_posts i k e (omega (arith, past)))
      ]
      go (at_stop i k) e = (_, write_stop i k e)
      go (in_post i k) e =
          let lt : k < p.num_cores = rw e at v.inside in
          post-goes_on i k e (rw e at (v.kept k (omega (arith, lt, few))))
      go (at_wait i k) e = elim (dec_lt k p.num_cores) [
        | yes lt ↦ wait-goes_on i k e lt (rw e at (v.kept k (omega (arith, lt, few))))
        | no past ↦ (_, leave_waits i k e (omega (arith, past)))
      ]
      go returned e = absurd (still e)

-- In every interleaving, when the test returns, the queues are quiet again, as they were at its start: reached
-- by the protocol, with the poster outside and the completion semaphore free. With at most three cores.
pub returned-IsQuiet :
    {p : PrimeParams} {s : Multicore}
    → p.num_cores ≤ 3
    → MulticoreReach p s
    → s.place ≡ returned
    → (k : ℕ) → k < 3
    → IsQuiet (s.queues k)
unfolding is_open
returned-IsQuiet {p} {s} few r e k lt =
    let v : Kept p returned k (s.queues k) = rw e at ((MulticoreReach-QueuesInv few r).kept k lt) in
    let out =
      Stands-outside p (s.queues k).entry.task (s.queues k).poster v.stands (λ j c. cc)
        (λ j c lt. cc) in
    record { reached = v.reached; left = out; opened = Kept-opened v (v.settled refl) out }
