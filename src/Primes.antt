-- ===== src/Primes.antt =====
-- primes.c, and `prime_multicore_test` of console.c, which hands ranges to the cores. `sqrt` of arm.S is
-- floating-point hardware, and a parameter.
mod Tests
pub mod Trial
pub mod Count
pub mod Tiles
pub mod Total
pub mod Multicore
pub mod Report
use cob_kernel.Common.{
  ℕ, zero, suc, ◌+◌, ◌-◌, ◌*◌, ◌/◌, ◌%◌, ◌^◌, Bool, true, false, Option, none, some, List, [], ◌∷◌,
  ◌++◌, ltb, ◌==◌, if◌then◌else◌, ◌>>=◌,
}

-- The inner loop of `calculate_primes` from `j` on, with the rounds that are left: `is_prime` at its end.
unfoldable pub no_divisor : ℕ → ℕ → ℕ → Bool
no_divisor zero j i = true
no_divisor (suc n) j i = let rest = no_divisor n (j + 1) i in if i % j == 0 then false else rest

-- `is_prime` at the end of a round of the outer loop: `j` runs from 3 to `root`, which is `sqrt(i)`.
unfoldable pub is_prime : ℕ → ℕ → Bool
is_prime root i = let odd = no_divisor (root - 2) 3 i in if i % 2 == 0 then false else odd

-- The outer loop from `i` on, with the rounds that are left.
unfoldable pub count_from : (ℕ → ℕ) → ℕ → ℕ → ℕ → ℕ
count_from sqrt zero i count = count
count_from sqrt (suc n) i count =
    count_from sqrt n (i + 1) (if is_prime (sqrt i) i then count + 1 else count)

-- `calculate_primes`: the count that it prints.
unfoldable pub calculate_primes : (ℕ → ℕ) → ℕ → ℕ → ℕ
calculate_primes sqrt start stop = count_from sqrt (stop - start) start 0

-- The ranges that a round of `prime_multicore_test` posts from queue `qidx` on, with the queues that are left;
-- `params` has a range for each.
unfoldable pub post_ranges : ℕ → ℕ → ℕ → ℕ → List (ℕ × ℕ)
post_ranges zero qidx i work = []
post_ranges (suc n) qidx i work =
    ((i + qidx * work % 2 ^ 64) % 2 ^ 64, (i + (qidx + 1) * work % 2 ^ 64) % 2 ^ 64)
    ∷ post_ranges n (qidx + 1) i work

-- How `prime_multicore_test` ends.
pub data Posted : Type 0 where
  -- the ranges, in the order in which they are posted
  ranges : List (ℕ × ℕ) → Posted
  -- `params` and `queues` have no place for a fourth core
  out_of_bounds : Posted
  out_of_fuel : Posted

unfoldable pub before : List (ℕ × ℕ) → Posted → Posted
before xs (ranges ys) = ranges (xs ++ ys)
before xs out_of_bounds = out_of_bounds
before xs out_of_fuel = out_of_fuel

-- The loop of `prime_multicore_test` from `i` on, with fuel.
unfoldable pub post_rounds : ℕ → ℕ → ℕ → ℕ → ℕ → Posted
post_rounds zero limit cores work i = out_of_fuel
post_rounds (suc fuel) limit cores work i =
    let rest = post_rounds fuel limit cores work ((i + work * cores % 2 ^ 64) % 2 ^ 64) in
    if ltb i limit
    then (if ltb 3 cores then out_of_bounds else before (post_ranges cores 0 i work) rest)
    else ranges []

-- `prime_multicore_test`; a division by 0 gives 0, as on the processor.
unfoldable pub prime_multicore_test : ℕ → ℕ → ℕ → ℕ → Posted
prime_multicore_test fuel primes num_cores minimum_work_size =
    let primes_per_core = primes / num_cores in
    post_rounds fuel (primes_per_core * num_cores % 2 ^ 64) num_cores minimum_work_size 0
