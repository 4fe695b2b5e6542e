-- ===== src/Primes/Multicore/Ranges.antt =====
-- What core 0 has posted at each step of `prime_multicore_test`.
use cob_kernel.Common.{
  ℕ, ◌==◌, ◌&&◌, if◌then◌else◌, zero, suc, ◌+◌, ◌-◌, ◌*◌, ◌/◌, ◌^◌, ◌≤◌, ◌<◌, ◌≡◌, inl, inr, refl,
  sym, ap, ◌∙◌, arith, List, [], ◌∷◌, ◌++◌, lt→ltb, append_assoc, append-nil, Bool-cases,
}
use cob_kernel.Primes.{
  calculate_primes, post_ranges, Posted, ranges, out_of_bounds, out_of_fuel, before, post_rounds,
  prime_multicore_test,
}
use cob_kernel.Primes.Tiles.{ltb-Outside}
use cob_kernel.Primes.Total.{total, multicore_total}
use cob_kernel.Primes.Multicore.{
  PrimeParams, limit, start_at, stop_at, next_round, Position, at_round, at_post, at_stop, in_post,
  at_wait, returned, Multicore, has_left, Step, enter_round, leave, write_start, write_stop, post,
  leave_posts, wait, leave_waits, work, MulticoreReach, start, next,
}
use cob_kernel.Primes.Multicore.Places.{QueuesInv, MulticoreReach-QueuesInv}
use cob_kernel.Primes.Multicore.Counts.{counted-posted}
use cob_kernel.Primes.Multicore.Pending.{weigh}

before-append : (xs ys : List (ℕ × ℕ)) (o : Posted) → before (xs ++ ys) o ≡ before xs (before ys o)
unfolding before
before-append xs ys (ranges zs) = ap ranges (append_assoc xs ys zs)
before-append xs ys out_of_bounds = refl
before-append xs ys out_of_fuel = refl

before-nil : (o : Posted) → before [] o ≡ o
unfolding before
before-nil (ranges zs) = refl
before-nil out_of_bounds = refl
before-nil out_of_fuel = refl

module _ (p : PrimeParams) where
  rounds : ℕ → ℕ → Posted
  rounds fuel i = post_rounds fuel (limit p) p.num_cores p.minimum_work_size i

  -- What is still posted from a place on.
  remaining : ℕ → Position → Posted
  unfolding rounds
  remaining fuel (at_round i) = rounds fuel i
  remaining fuel (at_post i k) =
      before (post_ranges (p.num_cores - k) k i p.minimum_work_size) (rounds fuel (next_round p i))
  remaining fuel (at_stop i k) =
      before (post_ranges (p.num_cores - k) k i p.minimum_work_size) (rounds fuel (next_round p i))
  remaining fuel (in_post i k) =
      before (post_ranges (p.num_cores - k) k i p.minimum_work_size) (rounds fuel (next_round p i))
  remaining fuel (at_wait i k) = rounds fuel (next_round p i)
  remaining fuel returned = ranges []

  rounds-enter :
      (fuel i : ℕ) (ys xs : List (ℕ × ℕ))
      → p.num_cores ≤ 3
      → i < limit p
      → before ys (rounds fuel i) ≡ ranges xs
      → (fuel' : ℕ) × (before ys (
            before
              (post_ranges (p.num_cores - 0) 0 i p.minimum_work_size)
              (rounds fuel' (next_round p i)))
          ≡ ranges xs)
  unfolding rounds post_rounds before next_round
  rounds-enter zero i ys xs few lt o = absurd cc
  rounds-enter (suc fuel) i ys xs few lt o =
      let all_cores : p.num_cores - 0 ≡ p.num_cores = omega arith in
      (fuel, rw all_cores (rw (lt→ltb i (limit p) lt, ltb-Outside 3 p.num_cores few) at o))

  rounds-leave :
      (fuel i : ℕ) (ys xs : List (ℕ × ℕ))
      → limit p ≤ i
      → before ys (rounds fuel i) ≡ ranges xs
      → before ys (ranges []) ≡ ranges xs
  unfolding rounds post_rounds before
  rounds-leave zero i ys xs le o = absurd cc
  rounds-leave (suc fuel) i ys xs le o = rw (ltb-Outside i (limit p) le) at o

  -- A post takes the first of the ranges that are left.
  ranges-post :
      (i k : ℕ) (ys xs : List (ℕ × ℕ)) (o : Posted)
      → k < p.num_cores
      → before ys (before (post_ranges (p.num_cores - k) k i p.minimum_work_size) o) ≡ ranges xs
      → before
          (ys ++ (start_at p i k, stop_at p i k) ∷ [])
          (before (post_ranges (p.num_cores - (k + 1)) (k + 1) i p.minimum_work_size) o)
        ≡ ranges xs
  unfolding post_ranges start_at stop_at
  ranges-post i k ys xs o lt e =
      let one_more : p.num_cores - k ≡ suc (p.num_cores - (k + 1)) = omega (arith, lt) in
      let range = (start_at p i k, stop_at p i k) ∷ [] in
      let rest = post_ranges (p.num_cores - (k + 1)) (k + 1) i p.minimum_work_size in
      let here : before ys (before (range ++ rest) o) ≡ ranges xs = rw one_more at e in
      before-append ys range (before rest o)
      ∙ ap (before ys) (sym (before-append range rest o))
      ∙ here

  ranges-done :
      (i k : ℕ) (ys xs : List (ℕ × ℕ)) (o : Posted)
      → p.num_cores ≤ k
      → before ys (before (post_ranges (p.num_cores - k) k i p.minimum_work_size) o) ≡ ranges xs
      → before ys o ≡ ranges xs
  unfolding post_ranges
  ranges-done i k ys xs o le e =
      let none_left : p.num_cores - k ≡ 0 = omega (arith, le) in
      ap (before ys) (sym (before-nil o)) ∙ (rw none_left at e)

  abbrev RangesInv : List (ℕ × ℕ) → Multicore → Type 0
  RangesInv xs s = (fuel : ℕ) × (before s.posted (remaining fuel s.place) ≡ ranges xs)

  Step-RangesInv :
      {s t : Multicore} {xs : List (ℕ × ℕ)}
      → p.num_cores ≤ 3
      → Step p s t
      → QueuesInv p s
      → RangesInv xs s
      → RangesInv xs t
  unfolding remaining rounds
  Step-RangesInv {s} {xs = xs} few (enter_round i e lt) v (fuel, o) =
      rounds-enter fuel i s.posted xs few lt (rw e at o)
  Step-RangesInv {s} {xs = xs} few (leave i e le) v (fuel, o) =
      (fuel, rounds-leave fuel i s.posted xs le (rw e at o))
  Step-RangesInv few (write_start i k e lt) v (fuel, o) = (fuel, rw e at o)
  Step-RangesInv few (write_stop i k e) v (fuel, o) = (fuel, rw e at o)
  Step-RangesInv {s} {xs = xs} few (post {u} i k e m) v (fuel, o) =
      let lt : k < p.num_cores = rw e at v.inside in
      elim (Bool-cases (has_left u.poster)) [
        | inl left ↦ (
          fuel,
          rw left (ranges-post i k s.posted xs (rounds fuel (next_round p i)) lt (rw e at o)),
        )
        | inr within ↦ (fuel, rw within (rw e at o))
      ]
  Step-RangesInv {s} {xs = xs} few (leave_posts i k e le) v (fuel, o) =
      (fuel, ranges-done i k s.posted xs (rounds fuel (next_round p i)) le (rw e at o))
  Step-RangesInv few (wait {u} i k e lt m) v (fuel, o) = elim (Bool-cases (has_left u.poster)) [
    | inl left ↦ (fuel, rw left (rw e at o))
    | inr within ↦ (fuel, rw within (rw e at o))
  ]
  Step-RangesInv few (leave_waits i k e le) v (fuel, o) = (fuel, rw e at o)
  Step-RangesInv few (work k lt m handler) v o = o

  MulticoreReach-RangesInv :
      {s : Multicore} (xs : List (ℕ × ℕ)) (fuel : ℕ)
      → p.num_cores ≤ 3
      → prime_multicore_test fuel p.primes p.num_cores p.minimum_work_size ≡ ranges xs
      → MulticoreReach p s
      → RangesInv xs s
  unfolding prime_multicore_test remaining rounds limit
  MulticoreReach-RangesInv xs fuel few run (start queues memory quiet) =
      (fuel, before-nil (rounds fuel 0) ∙ run)
  MulticoreReach-RangesInv xs fuel few run (next r st) =
      Step-RangesInv few st (MulticoreReach-QueuesInv few r)
        (MulticoreReach-RangesInv xs fuel few run r)

  -- When the test returns, core 0 has posted the ranges of `prime_multicore_test`.
  posted-ranges :
      {s : Multicore} (xs : List (ℕ × ℕ)) (fuel : ℕ)
      → p.num_cores ≤ 3
      → prime_multicore_test fuel p.primes p.num_cores p.minimum_work_size ≡ ranges xs
      → MulticoreReach p s
      → s.place ≡ returned
      → s.posted ≡ xs
  unfolding remaining before
  posted-ranges {s} xs fuel few run r e =
      let (left, o) = MulticoreReach-RangesInv xs fuel few run r in
      let end : ranges (s.posted ++ []) ≡ ranges xs = rw e at o in
      let same : s.posted ++ [] ≡ xs = cc in sym (append-nil s.posted) ∙ same

-- How often a range is in a list.
unfoldable pub times : ℕ → ℕ → List (ℕ × ℕ) → ℕ
times a b = weigh (λ c d. if a == c && b == d then 1 else 0)

-- In every interleaving of core 0 with the cores of the queues, when `prime_multicore_test` returns, the
-- cores have read and counted each range as often as the test hands it out when it is run alone: none is
-- lost, and none is counted again or in the place of another. With queues that are quiet at the start, and at
-- most three cores.
pub counted_each :
    (p : PrimeParams) {s : Multicore} (fuel a b : ℕ) (xs : List (ℕ × ℕ))
    → p.num_cores ≤ 3
    → prime_multicore_test fuel p.primes p.num_cores p.minimum_work_size ≡ ranges xs
    → MulticoreReach p s
    → s.place ≡ returned
    → times a b s.counted ≡ times a b xs
unfolding times
counted_each p {s} fuel a b xs few run r at_end =
    counted-posted (λ c d. if a == c && b == d then 1 else 0) p few r at_end
    ∙ ap (times a b) (posted-ranges p xs fuel few run r at_end)

total-weigh : (sqrt : ℕ → ℕ) (xs : List (ℕ × ℕ)) → total sqrt xs ≡ weigh (calculate_primes sqrt) xs
unfolding total weigh
total-weigh sqrt [] = refl
total-weigh sqrt ((a, b) ∷ xs) = omega (arith, total-weigh sqrt xs)

-- In every interleaving of core 0 with the cores of the queues, when `prime_multicore_test` returns, the
-- counts of the ranges that the cores read from `params` add up to what `calculate_primes` counts on one core,
-- from 0 to the end of the last range. With queues that are quiet at the start, one to three cores, a work
-- size above 0 and nothing that wraps around; the end is at or above the number of primes, rounded down to a
-- multiple of the cores, and less than one round above it.
pub multicore_counts :
    (sqrt : ℕ → ℕ) (p : PrimeParams) {s : Multicore}
    → 0 < p.minimum_work_size
    → 0 < p.num_cores
    → p.num_cores ≤ 3
    → p.primes / p.num_cores * p.num_cores + p.minimum_work_size * p.num_cores < 2 ^ 64
    → MulticoreReach p s
    → s.place ≡ returned
    → (e : ℕ) × (total sqrt s.counted ≡ calculate_primes sqrt 0 e)
      × (p.primes / p.num_cores * p.num_cores ≤ e)
      × (e < p.primes / p.num_cores * p.num_cores + p.minimum_work_size * p.num_cores)
multicore_counts sqrt p {s} pos some few fits r at_end =
    let fuel = suc (p.primes / p.num_cores * p.num_cores) in
    let (xs, e, run, sum, above, near) =
      multicore_total sqrt fuel p.primes p.num_cores p.minimum_work_size pos some few fits
        (omega arith) in
    let all_posted = posted-ranges p xs fuel few run r at_end in
    let counted =
      total-weigh sqrt s.counted
      ∙ counted-posted (calculate_primes sqrt) p few r at_end
      ∙ sym (total-weigh sqrt s.posted) in
    (e, counted ∙ ap (total sqrt) all_posted ∙ sum, above, near)
