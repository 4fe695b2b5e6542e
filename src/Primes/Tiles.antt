-- ===== src/Primes/Tiles.antt =====
-- The ranges that `prime_multicore_test` posts.
use native.Mathlib.Nat.{mul-le-mul}
use cob_kernel.Common.{
  ℕ, zero, suc, ◌+◌, ◌*◌, ◌/◌, ◌%◌, ◌^◌, ◌≤◌, ◌<◌, ◌≡◌, refl, arith, false, List, [], ◌∷◌, ◌++◌,
  ltb, lt→ltb, dec_lt,
}
use cob_kernel.Primes.{post_ranges, ranges, before, post_rounds, prime_multicore_test}

-- Ranges of one size that follow one another from a number to another.
pub data Tiles (work : ℕ) : ℕ → ℕ → List (ℕ × ℕ) → Type 0 where
  stop : {i : ℕ} → Tiles work i i []
  tile :
      {i j k : ℕ} {rest : List (ℕ × ℕ)}
      → j ≡ i + work
      → Tiles work j k rest
      → Tiles work i k ((i, j) ∷ rest)

Tiles-append :
    {work i j k : ℕ} {xs ys : List (ℕ × ℕ)}
    → Tiles work i j xs
    → Tiles work j k ys
    → Tiles work i k (xs ++ ys)
Tiles-append stop t = t
Tiles-append (tile e s) t = tile e (Tiles-append s t)

wrapped : (i x : ℕ) → i + x < 2 ^ 64 → (i + x % 2 ^ 64) % 2 ^ 64 ≡ i + x
wrapped i x lt = omega (arith, lt)

post_ranges-Tiles :
    (n qidx i work : ℕ)
    → i + (qidx + n) * work < 2 ^ 64
    → Tiles work (i + qidx * work) (i + (qidx + n) * work) (post_ranges n qidx i work)
unfolding post_ranges
post_ranges-Tiles zero qidx i work fits = let e : qidx + 0 ≡ qidx = omega arith in rw e stop
post_ranges-Tiles (suc n) qidx i work fits =
    let from = wrapped i (qidx * work) (omega (arith, fits)) in
    let to = wrapped i ((qidx + 1) * work) (omega (arith, fits)) in
    let e : qidx + 1 + n ≡ qidx + suc n = omega arith in
    let rest = post_ranges-Tiles n (qidx + 1) i work (rw e fits) in
    rw (from, to) (tile (omega arith) (rw e at rest))

pub ltb-Outside : (i limit : ℕ) → limit ≤ i → ltb i limit ≡ false
ltb-Outside i limit le = ground arith

round_run :
    (fuel limit cores work i i' : ℕ) (ys : List (ℕ × ℕ))
    → i < limit
    → cores ≤ 3
    → (i + work * cores % 2 ^ 64) % 2 ^ 64 ≡ i'
    → post_rounds fuel limit cores work i' ≡ ranges ys
    → post_rounds (suc fuel) limit cores work i ≡ ranges (post_ranges cores 0 i work ++ ys)
unfolding post_rounds before
round_run fuel limit cores work i i' ys within few on run =
    rw (lt→ltb i limit within, ltb-Outside 3 cores few, on, run) refl

-- The end of the ranges is the first multiple of a round at which the loop stops.
post_rounds-Tiles :
    (rounds fuel limit cores work i : ℕ)
    → 0 < work
    → 0 < cores
    → cores ≤ 3
    → limit ≤ i + rounds * (work * cores)
    → limit + work * cores < 2 ^ 64
    → i < limit + work * cores
    → rounds < fuel
    → (xs : List (ℕ × ℕ)) × (e : ℕ) × (post_rounds fuel limit cores work i ≡ ranges xs)
      × Tiles work i e xs
      × (limit ≤ e)
      × (e < limit + work * cores)
unfolding post_rounds
post_rounds-Tiles rounds zero limit cores work i pos some few stops fits lt enough =
    absurd (omega (arith, enough))
post_rounds-Tiles zero (suc fuel) limit cores work i pos some few stops fits lt enough =
    ([], i, rw (ltb-Outside i limit (omega (arith, stops))) refl, stop, omega (arith, stops), lt)
post_rounds-Tiles (suc r) (suc fuel) limit cores work i pos some few stops fits lt enough =
    elim (dec_lt i limit) [
      | no past ↦ (
        [],
        i,
        rw (ltb-Outside i limit (omega (arith, past))) refl,
        stop,
        omega (arith, past),
        lt,
      )
      | yes within ↦
          let on : (i + work * cores % 2 ^ 64) % 2 ^ 64 ≡ i + work * cores =
            wrapped i (work * cores) (omega (arith, within, fits)) in
          let (ys, e, run, tiles, above, near) =
            post_rounds-Tiles r fuel limit cores work (i + work * cores) pos some few
              (omega (arith, stops)) fits (omega (arith, within)) (omega (arith, enough)) in
          let round : Tiles work i (i + work * cores) (post_ranges cores 0 i work) =
            rw (from_zero, whole) at
              (post_ranges-Tiles cores 0 i work (omega (arith, within, fits))) in
          (
            post_ranges cores 0 i work ++ ys,
            e,
            round_run fuel limit cores work i (i + work * cores) ys within few on run,
            Tiles-append round tiles,
            above,
            near,
          )
    ]
  where
    from_zero : i + 0 * work ≡ i
    from_zero = omega arith

    whole : i + (0 + cores) * work ≡ i + work * cores
    whole = omega arith

-- With one to three cores, a work size above 0 and nothing that wraps around, the test ends, and the
-- ranges that it hands out have the work size and follow one another from 0: every number below the
-- number of primes, rounded down to a multiple of the cores, is in one of them, and less than one round lies
-- beyond. Fuel of that number and 1 is enough.
pub prime_multicore_test_lem :
    (fuel primes cores work : ℕ)
    → 0 < work
    → 0 < cores
    → cores ≤ 3
    → primes / cores * cores + work * cores < 2 ^ 64
    → primes / cores * cores < fuel
    → (xs : List (ℕ × ℕ)) × (e : ℕ) × (prime_multicore_test fuel primes cores work ≡ ranges xs)
      × Tiles work 0 e xs
      × (primes / cores * cores ≤ e)
      × (e < primes / cores * cores + work * cores)
unfolding prime_multicore_test
prime_multicore_test_lem fuel primes cores work pos some few fits enough =
    let limit = primes / cores * cores in
    let whole : limit % 2 ^ 64 ≡ limit = omega (arith, fits) in
    let round : 1 * 1 ≤ work * cores =
      mul-le-mul {n₁ = 1} {m₁ = 1} {n₂ = work} {m₂ = cores} (omega (arith, pos))
        (omega (arith, some)) in
    let stops : limit ≤ limit * (work * cores) = grind (
      arith,
      mul-le-mul {n₁ = limit} {m₁ = 1} {n₂ = limit} {m₂ = work * cores} (omega arith)
          (omega (arith, round)),
    ) in
    rw whole (
      post_rounds-Tiles limit fuel limit cores work 0 pos some few (omega (arith, stops)) fits
        (omega (arith, round)) enough)
