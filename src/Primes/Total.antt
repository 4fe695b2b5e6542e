-- ===== src/Primes/Total.antt =====
-- What the cores that run `prime_multicore_test` find together.
use cob_kernel.Common.{
  ℕ, zero, suc, ◌+◌, ◌-◌, ◌*◌, ◌/◌, ◌^◌, ◌≤◌, ◌<◌, ◌≡◌, refl, sym, ◌∙◌, arith, List, [], ◌∷◌,
}
use cob_kernel.Primes.{count_from, calculate_primes, ranges, prime_multicore_test}
use cob_kernel.Primes.Count.{count_from-add}
use cob_kernel.Primes.Tiles.{Tiles, stop, tile, prime_multicore_test_lem}

-- The sum of the counts that the cores print, one for each range.
unfoldable pub total : (ℕ → ℕ) → List (ℕ × ℕ) → ℕ
total sqrt [] = 0
total sqrt ((from, to) ∷ xs) = calculate_primes sqrt from to + total sqrt xs

-- A range counts what its two parts count.
count_from-split :
    (sqrt : ℕ → ℕ) (n k i count : ℕ)
    → count_from sqrt (n + k) i count ≡ count_from sqrt k (i + n) (count_from sqrt n i count)
unfolding count_from
count_from-split sqrt zero k i count =
    let e : i + 0 ≡ i = omega arith in
    let none_left : 0 + k ≡ k = omega arith in rw (e, none_left) refl
count_from-split sqrt (suc n) k i count =
    let e : i + 1 + n ≡ i + suc n = omega arith in
    let more : suc n + k ≡ suc (n + k) = omega arith in
    rw (more, ← e) (count_from-split sqrt n k (i + 1) _)

-- Counting a range is counting its two parts.
calculate_primes-split :
    (sqrt : ℕ → ℕ) (i j e : ℕ)
    → i ≤ j
    → j ≤ e
    → calculate_primes sqrt i j + calculate_primes sqrt j e ≡ calculate_primes sqrt i e
unfolding calculate_primes
calculate_primes-split sqrt i j e le le' =
    let parts : e - i ≡ j - i + (e - j) = omega (arith, le, le') in
    let middle : i + (j - i) ≡ j = omega (arith, le) in
    let split : count_from sqrt (e - i) i 0
        ≡ count_from sqrt (e - j) j (count_from sqrt (j - i) i 0) =
      rw (← parts, middle) at (count_from-split sqrt (j - i) (e - j) i 0) in
    sym (split ∙ count_from-add sqrt (e - j) j (count_from sqrt (j - i) i 0))

calculate_primes-empty : (sqrt : ℕ → ℕ) (i : ℕ) → calculate_primes sqrt i i ≡ 0
unfolding calculate_primes count_from
calculate_primes-empty sqrt i = let e : i - i ≡ 0 = omega arith in rw e refl

Tiles-le : {work i e : ℕ} {xs : List (ℕ × ℕ)} → Tiles work i e xs → i ≤ e
Tiles-le stop = omega arith
Tiles-le (tile same t) = omega (arith, same, Tiles-le t)

total-Tiles :
    (sqrt : ℕ → ℕ) {work i e : ℕ} {xs : List (ℕ × ℕ)}
    → Tiles work i e xs
    → total sqrt xs ≡ calculate_primes sqrt i e
unfolding total
total-Tiles sqrt {work} {i} stop = sym (calculate_primes-empty sqrt i)
total-Tiles sqrt {e = e} (tile {i} {j} same t) =
    rw (total-Tiles sqrt t) (calculate_primes-split sqrt i j e (omega (arith, same)) (Tiles-le t))

-- Splitting the work over the cores loses and repeats nothing: with one to three cores, a work size above 0
-- and nothing that wraps around, the ranges that `prime_multicore_test` hands out have counts that add up to
-- what `calculate_primes` counts on one core, from 0 to the end of the last range, which is at or above the
-- number of primes, rounded down to a multiple of the cores, and less than one round above it.
pub multicore_total :
    (sqrt : ℕ → ℕ) (fuel primes cores work : ℕ)
    → 0 < work
    → 0 < cores
    → cores ≤ 3
    → primes / cores * cores + work * cores < 2 ^ 64
    → primes / cores * cores < fuel
    → (xs : List (ℕ × ℕ)) × (e : ℕ) × (prime_multicore_test fuel primes cores work ≡ ranges xs)
      × (total sqrt xs ≡ calculate_primes sqrt 0 e)
      × (primes / cores * cores ≤ e)
      × (e < primes / cores * cores + work * cores)
multicore_total sqrt fuel primes cores work pos some few fits enough =
    let (xs, e, run, tiles, above, near) =
      prime_multicore_test_lem fuel primes cores work pos some few fits enough in
    (xs, e, run, total-Tiles sqrt tiles, above, near)
