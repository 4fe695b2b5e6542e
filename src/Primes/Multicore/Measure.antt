-- ===== src/Primes/Multicore/Measure.antt =====
-- The steps that the cores have before them in a queue.
use cob_kernel.Common.{
  ℕ, ◌+◌, ◌≤◌, ◌≡◌, ◌⊎◌, inl, inr, refl, arith, ==-of_ne, ==-of_eq, true, false, ◌==◌,
  if◌then◌else◌, update, ℕ_discrete,
}
use cob_kernel.Semaphore.{arm64_take_semaphore_exclusive, arm64_put_semaphore_exclusive}
use cob_kernel.WorkQueue.{
  Poster, outside, posting, written, waited, Worker, idle, running, ran, Queue, Post, post_take,
  post_write, post_put, Wait, wait_take, wait_put, Work, work_take, work_run, work_put,
}
use cob_kernel.WorkQueue.Order.{free, poster_has, worker_has, Inv}
use cob_kernel.Primes.Multicore.{PrimeParams, task_of, returns_zero, has_left}
use cob_kernel.Primes.Multicore.Queues.{IsSettled}

-- The steps that the core of a queue has before it.
owed_by : Worker → ℕ → ℕ
owed_by idle sem = if sem == 0 then 3 else 0
owed_by running sem = 2
owed_by ran sem = 1

pub owed : Queue → ℕ
owed q = owed_by q.worker q.entry.submission_sem

-- The steps that core 0 has before it in a call, but the last.
unfoldable pub post_left : Poster → ℕ
post_left outside = 2
post_left (posting t) = 1
post_left (written t) = 0
post_left waited = 0

unfoldable pub wait_left : Poster → ℕ
wait_left outside = 1
wait_left (posting t) = 0
wait_left (written t) = 0
wait_left waited = 0

pub post_left-few : (at : Poster) → post_left at ≤ 2
unfolding post_left
post_left-few outside = omega arith
post_left-few (posting t) = omega arith
post_left-few (written t) = omega arith
post_left-few waited = omega arith

pub wait_left-few : (at : Poster) → wait_left at ≤ 1
unfolding wait_left
wait_left-few outside = omega arith
wait_left-few (posting t) = omega arith
wait_left-few (written t) = omega arith
wait_left-few waited = omega arith

pub Post-owed :
    (p : PrimeParams) (k : ℕ) {q u : Queue}
    → IsSettled q
    → Post (task_of p k) q u
    → ((has_left u.poster ≡ true) × (owed u ≡ owed q + 3))
      ⊎ ((has_left u.poster ≡ false)
          × (post_left q.poster ≡ post_left u.poster + 1)
          × (owed u ≡ owed q))
unfolding has_left owed owed_by post_left arm64_put_semaphore_exclusive
Post-owed p k {q} v (post_take sem e take) = inr (refl, rw e refl, refl)
Post-owed p k {q} v (post_write e) = inr (refl, rw e refl, refl)
Post-owed p k {q} v (post_put e) = inl (refl, ground (arith, v.idles, v.taken))

pub IsSettled-owed : {q : Queue} → IsSettled q → owed q ≡ 0
unfolding owed owed_by
IsSettled-owed {q} v = ground (arith, v.idles, v.taken)

pub Wait-owed :
    {q u : Queue}
    → Wait q u
    → (owed u ≡ owed q)
      × ((has_left u.poster ≡ true)
          ⊎ ((has_left u.poster ≡ false) × (wait_left q.poster ≡ wait_left u.poster + 1)))
unfolding has_left owed wait_left
Wait-owed (wait_take sem e take) = (refl, inr (refl, rw e refl))
Wait-owed (wait_put e) = (refl, inl refl)

pub Work-owed :
    {q u : Queue} → Inv q → Work returns_zero q u → (owed q ≡ owed u + 1) × (u.poster ≡ q.poster)
unfolding owed owed_by free poster_has worker_has arm64_take_semaphore_exclusive
Work-owed i (work_take sem e take) = (ground (arith, e, take), refl)
Work-owed i (work_run e) = (ground (arith, e), refl)
Work-owed i (work_put e) = (ground (arith, e, i.token), refl)

pub update-poster :
    (queues : ℕ → Queue) (k j : ℕ) (u : Queue)
    → u.poster ≡ (queues k).poster
    → (update queues k u j).poster ≡ (queues j).poster
update-poster queues k j u same = elim (ℕ_discrete k j) [
  | yes e ↦ rw (← e, ==-of_eq k k refl) same
  | no ne ↦ rw (==-of_ne k j ne) refl
]
