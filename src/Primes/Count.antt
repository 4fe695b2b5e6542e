-- ===== src/Primes/Count.antt =====
-- What `calculate_primes` counts.
use cob_kernel.Common.{
  ℕ, zero, suc, ◌+◌, ◌-◌, ◌≤◌, ◌<◌, ◌≡◌, inl, inr, ◌∙◌, arith, if◌then◌else◌, Bool-cases,
}
use cob_kernel.Primes.{is_prime, count_from, calculate_primes}
use cob_kernel.Primes.Trial.{IsRoot, IsCounted, is_prime_iff}

-- Of the `n` numbers from `i` on, `count` have the property.
pub data Counts (P : ℕ → Type 0) : ℕ → ℕ → ℕ → Type 0 where
  nothing : {i : ℕ} → Counts P i zero zero
  hit : {i n count : ℕ} → P i → Counts P (suc i) n count → Counts P i (suc n) (suc count)
  miss : {i n count : ℕ} → ¬ P i → Counts P (suc i) n count → Counts P i (suc n) count

pub count_from-add :
    (sqrt : ℕ → ℕ) (n i count : ℕ) → count_from sqrt n i count ≡ count + count_from sqrt n i 0
unfolding count_from
count_from-add sqrt zero i count = omega arith
count_from-add sqrt (suc n) i count = ground (
  arith,
  count_from-add sqrt n (i + 1) (if is_prime (sqrt i) i then count + 1 else count),
  count_from-add sqrt n (i + 1) (if is_prime (sqrt i) i then 0 + 1 else 0),
)

count_from-Counts :
    (sqrt : ℕ → ℕ) (n i : ℕ)
    → 0 < i
    → ((k : ℕ) → i ≤ k → k < i + n → IsRoot (sqrt k) k)
    → Counts IsCounted i n (count_from sqrt n i 0)
unfolding count_from
count_from-Counts sqrt zero i some roots = nothing
count_from-Counts sqrt (suc n) i some roots =
    let e : i + 1 ≡ suc i = omega arith in
    let rest =
      count_from-Counts sqrt n (suc i) (omega arith)
        (λ k lo hi. roots k (omega (arith, lo)) (omega (arith, hi))) in
    let test = is_prime_iff (roots i (omega arith) (omega arith)) some in
    elim (Bool-cases (is_prime (sqrt i) i)) [
      | inl t ↦
          let total : count_from sqrt n (i + 1) 1 ≡ suc (count_from sqrt n (suc i) 0) =
            rw e (count_from-add sqrt n (suc i) 1 ∙ omega arith) in
          rw (t, total) (hit (test.0 t) rest)
      | inr f ↦ rw (f, e) (miss (λ c. cc (test.1 c)) rest)
    ]

-- `calculate_primes` counts 1 and every prime of the range from `start` to before `stop` but 2, if `start` is
-- not 0 and `sqrt` gives the integer part of the root throughout the range.
pub calculate_primes-Counts :
    (sqrt : ℕ → ℕ) (start stop : ℕ)
    → 0 < start
    → start ≤ stop
    → ((k : ℕ) → start ≤ k → k < stop → IsRoot (sqrt k) k)
    → Counts IsCounted start (stop - start) (calculate_primes sqrt start stop)
unfolding calculate_primes
calculate_primes-Counts sqrt start stop some le roots =
    count_from-Counts sqrt (stop - start) start some (λ k lo hi. roots k lo (omega (arith, hi, le)))
