-- ===== src/Primes/Multicore/Ends.antt =====
-- The steps of `prime_multicore_test` until it returns.
use native.Mathlib.Nat.{mul-le-mul}
use cob_kernel.Common.{
  ℕ, ◌+◌, ◌-◌, ◌*◌, ◌/◌, ◌^◌, ◌≤◌, ◌<◌, ◌≡◌, ◌≢◌, ◌⊎◌, inl, inr, refl, sym, arith, ==-of_ne,
  ==-of_eq, update,
}
use cob_kernel.WorkQueue.{Queue}
use cob_kernel.WorkQueue.Order.{Reach-Inv}
use cob_kernel.Primes.Multicore.{
  PrimeParams, limit, next_round, Position, at_round, at_post, at_stop, in_post, at_wait, returned,
  Multicore, steps_of, Step, enter_round, leave, write_start, write_stop, post, leave_posts, wait,
  leave_waits, work, IsQuiet, MulticoreReach, start, next,
}
use cob_kernel.Primes.Multicore.Queues.{Kept}
use cob_kernel.Primes.Multicore.Places.{QueuesInv, MulticoreReach-QueuesInv, IsQuiet-IsSettled}
use cob_kernel.Primes.Multicore.Pending.{all_of, all_of-none, all_of-moved}
use cob_kernel.Primes.Multicore.Progress.{goes_on, closed-in}
use cob_kernel.Primes.Multicore.Measure.{
  owed, post_left, wait_left, post_left-few, wait_left-few, Post-owed, Wait-owed, Work-owed,
  IsSettled-owed, update-poster,
}

module _ (p : PrimeParams) where
  -- The steps of the rounds after this one.
  abbrev later : ℕ → ℕ
  later i = 64 * (limit p - next_round p i)

  -- The steps that core 0 has before it, and at a queue those of its call.
  cost : (ℕ → Queue) → Position → ℕ
  cost queues (at_round i) = 64 * (limit p - i) + 1
  cost queues (at_post i k) = later i + 13 + 10 * (3 - k)
  cost queues (at_stop i k) = later i + 12 + 10 * (3 - k)
  cost queues (in_post i k) = later i + 9 + 10 * (3 - k) + post_left (queues k).poster
  cost queues (at_wait i k) = later i + 2 + 3 * (3 - k) + wait_left (queues k).poster
  cost queues returned = 0

  all_owed : (ℕ → Queue) → ℕ
  all_owed queues = all_of (λ k. owed (queues k))

  measure : Multicore → ℕ
  measure s = cost s.queues s.place + all_owed s.queues

  all_owed-update :
      (queues : ℕ → Queue) (k a b : ℕ) (u : Queue)
      → k < 3
      → owed (queues k) + a ≡ owed u + b
      → all_owed queues + a ≡ all_owed (update queues k u) + b
  unfolding all_owed
  all_owed-update queues k a b u lt here =
      all_of-moved _ _ k a b lt (rw (==-of_eq k k refl) here)
        (λ j h ne. rw (==-of_ne k j (λ c. ne (sym c))) refl)

  -- The core of a queue does not move core 0.
  cost-work :
      (queues : ℕ → Queue) (k : ℕ) (u : Queue) (place : Position)
      → u.poster ≡ (queues k).poster
      → cost (update queues k u) place ≡ cost queues place
  unfolding cost
  cost-work queues k u (at_round i) same = refl
  cost-work queues k u (at_post i j) same = refl
  cost-work queues k u (at_stop i j) same = refl
  cost-work queues k u (in_post i j) same =
      let there = update-poster queues k j u same in rw there refl
  cost-work queues k u (at_wait i j) same =
      let there = update-poster queues k j u same in rw there refl
  cost-work queues k u returned same = refl

  next_round-past :
      (i : ℕ)
      → 0 < p.minimum_work_size * p.num_cores
      → limit p + p.minimum_work_size * p.num_cores < 2 ^ 64
      → i < limit p
      → i < next_round p i
  unfolding next_round
  next_round-past i some fits lt = omega (arith, some, fits, lt)

  module _ (few : p.num_cores ≤ 3) (some : 0 < p.minimum_work_size * p.num_cores)
      (fits : limit p + p.minimum_work_size * p.num_cores < 2 ^ 64) where
    Step-measure : {s t : Multicore} → Step p s t → QueuesInv p s → measure t < measure s
    unfolding measure cost
    Step-measure {s} (enter_round i e lt) v =
        let past = next_round-past i some fits lt in rw e (omega (arith, past, lt))
    Step-measure {s} (leave i e le) v = rw e (omega arith)
    Step-measure {s} (write_start i k e lt) v = rw e (omega arith)
    Step-measure {s} (write_stop i k e) v =
        let few = post_left-few (s.queues k).poster in rw e (omega (arith, few))
    Step-measure {s} (leave_posts i k e le) v =
        let few = wait_left-few (s.queues 0).poster in rw e (omega (arith, few))
    Step-measure {s} (leave_waits i k e le) v = rw e (omega arith)
    Step-measure {s} (post {u} i k e m) v =
        let inside : k < p.num_cores = rw e at v.inside in
        let lt : k < 3 = omega (arith, inside, few) in
        let kept : Kept p (in_post i k) k (s.queues k) = rw e at (v.kept k lt) in
        let here = ==-of_eq k k refl in
        elim (Post-owed p k (kept.settled (closed-in p i k)) m) [
          | inl (left, more) ↦
              let owes = all_owed-update s.queues k 3 0 u lt (omega (arith, more)) in
              rw (e, left) (omega (arith, owes, lt))
          | inr (within, one, same) ↦
              let owes = all_owed-update s.queues k 0 0 u lt (omega (arith, same)) in
              rw (e, within, here) (omega (arith, owes, one))
        ]
    Step-measure {s} (wait {u} i k e lt m) v =
        let lt : k < 3 = omega (arith, lt, few) in
        let here = ==-of_eq k k refl in
        let (same, moved) = Wait-owed m in
        let owes = all_owed-update s.queues k 0 0 u lt (omega (arith, same)) in
        elim moved [
          | inl left ↦
              let next_one = wait_left-few (update s.queues k u (k + 1)).poster in
              rw (e, left) (omega (arith, owes, lt, next_one))
          | inr (within, one) ↦ rw (e, within, here) (omega (arith, owes, one))
        ]
    Step-measure {s} (work {u} k lt m handler) v =
        let (one, same) = Work-owed (Reach-Inv (v.kept k lt).reached) m in
        let owes = all_owed-update s.queues k 0 1 u lt (omega (arith, one)) in
        let there = cost-work s.queues k u s.place same in rw there (omega (arith, owes))

    start-measure :
        (queues : ℕ → Queue) → ((k : ℕ) → k < 3 → IsQuiet (queues k)) → all_owed queues ≡ 0
    unfolding all_owed
    start-measure queues quiet =
        all_of-none _ (λ k lt. IsSettled-owed (IsQuiet-IsSettled (quiet k lt)))

    MulticoreReach-measure :
        {s : Multicore} (r : MulticoreReach p s) → steps_of r + measure s ≤ 64 * limit p + 1
    unfolding measure cost
    MulticoreReach-measure (start queues memory quiet) = omega (arith, start-measure queues quiet)
    MulticoreReach-measure (next r st) =
        omega (arith, MulticoreReach-measure r, Step-measure st (MulticoreReach-QueuesInv few r))

returned-cases : (place : Position) → (place ≡ returned) ⊎ (place ≢ returned)
returned-cases (at_round i) = inr (λ c. cc)
returned-cases (at_post i k) = inr (λ c. cc)
returned-cases (at_stop i k) = inr (λ c. cc)
returned-cases (in_post i k) = inr (λ c. cc)
returned-cases (at_wait i k) = inr (λ c. cc)
returned-cases returned = inl refl

limit-fits :
    (p : PrimeParams)
    → p.primes / p.num_cores * p.num_cores + p.minimum_work_size * p.num_cores < 2 ^ 64
    → limit p + p.minimum_work_size * p.num_cores < 2 ^ 64
unfolding limit
limit-fits p fits = omega (arith, fits)

-- Every interleaving ends, and the test returns: with queues that are quiet at the start, one to three cores, a
-- work size above 0 and nothing that wraps around, a run has at most 64 steps for each number below the
-- limit of the loop and one more, and after each step the test has returned or some core can go on.
pub multicore_ends :
    (p : PrimeParams) {s : Multicore}
    → 0 < p.minimum_work_size
    → 0 < p.num_cores
    → p.num_cores ≤ 3
    → p.primes / p.num_cores * p.num_cores + p.minimum_work_size * p.num_cores < 2 ^ 64
    → (r : MulticoreReach p s)
    → (steps_of r ≤ 64 * limit p + 1) × ((s.place ≡ returned) ⊎ ((t : Multicore) × Step p s t))
multicore_ends p {s} pos some few fits r =
    let round : 1 * 1 ≤ p.minimum_work_size * p.num_cores =
      mul-le-mul {n₁ = 1} {m₁ = 1} {n₂ = p.minimum_work_size} {m₂ = p.num_cores}
        (omega (arith, pos)) (omega (arith, some)) in
    let bound = MulticoreReach-measure p few (omega (arith, round)) (limit-fits p fits) r in
    (
      omega (arith, bound),
      elim (returned-cases s.place) [
        | inl end ↦ inl end
        | inr still ↦ inr (goes_on s few (MulticoreReach-QueuesInv few r) still)
      ],
    )
