-- ===== src/Primes/Tests.antt =====
-- Runs of the prime counter.
use cob_kernel.Common.{ℕ, ◌-◌, ◌≤◌, ◌<◌, ◌≡◌, refl, arith, ltb, if◌then◌else◌}
use cob_kernel.Primes.{no_divisor, is_prime, count_from, calculate_primes}
use cob_kernel.Primes.Trial.{IsRoot, IsCounted}
use cob_kernel.Primes.Count.{Counts, calculate_primes-Counts}

-- The square root below 16.
abbrev small_sqrt : ℕ → ℕ
small_sqrt i = if ltb i 4 then 1 else if ltb i 9 then 2 else 3

small_sqrt-IsRoot : (i : ℕ) → 1 ≤ i → i < 16 → IsRoot (small_sqrt i) i
small_sqrt-IsRoot i lo hi = record { below = ground arith; above = ground arith }

calculate_primes-Counts_example : Counts IsCounted 1 (16 - 1) (calculate_primes small_sqrt 1 16)
calculate_primes-Counts_example =
    calculate_primes-Counts small_sqrt 1 16 (omega arith) (omega arith) small_sqrt-IsRoot

-- 1, 3, 5, 7, 11 and 13.
calculate_primes_run : calculate_primes small_sqrt 1 16 ≡ 6
unfolding calculate_primes count_from is_prime no_divisor
calculate_primes_run = refl
