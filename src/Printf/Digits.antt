-- ===== src/Printf/Digits.antt =====
-- The digits of a number, most significant first: what the printing loops are measured against.
use native.Mathlib.Nat.{
  pow-zero, div-eq_of_lt, pow-suc, pow-succ', one-le-pow, mod-lt, div-lt_iff_lt-mul, mul-div_cancel,
}
use cob_kernel.Common.{ℕ, zero, suc, ◌/◌, ◌%◌, ◌^◌, ◌≤◌, ◌<◌, ◌≡◌, refl, arith, List, [], ◌∷◌, All}

-- The last `k` digits of `num` in base `base`.
unfoldable pub fixed : ℕ → ℕ → ℕ → List ℕ
fixed base zero num = []
fixed base (suc k) num = num / base ^ k ∷ fixed base k (num % base ^ k)

-- The weight of the first of `k` digits; 0 when there is none, as the loops have it.
unfoldable pub weight : ℕ → ℕ → ℕ
weight base zero = 0
weight base (suc k) = base ^ k

pub weight-zero : (base k : ℕ) → k ≡ 0 → weight base k ≡ 0
unfolding weight
weight-zero base zero h = refl
weight-zero base (suc k) h = absurd (omega arith)

module _ (base : ℕ) (two : 2 ≤ base) where
  pub pow-pos : (k : ℕ) → 0 < base ^ k
  pow-pos k = one-le-pow k base (omega arith)

  pub weight-div : (k : ℕ) → base ^ k / base ≡ weight base k
  unfolding weight
  weight-div zero = rw (pow-zero base) (div-eq_of_lt two)
  weight-div (suc k) = rw (pow-suc base k) (mul-div_cancel (base ^ k) {n = base} (omega arith))

  pub first-lt : (k num : ℕ) → num < base ^ suc k → num / base ^ k < base
  first-lt k num h =
      (div-lt_iff_lt-mul {k = base ^ k} {x = num} {y = base} (pow-pos k)).1
        (rw (pow-succ' base k) at h)

  pub rest-lt : (k num : ℕ) → num % base ^ k < base ^ k
  rest-lt k num = mod-lt num (pow-pos k)

  -- Every digit is below the base.
  fixed-lt : (k num : ℕ) → num < base ^ k → All (λ d. d < base) (fixed base k num)
  unfolding fixed
  fixed-lt zero num h = tt
  fixed-lt (suc k) num h = (first-lt k num h, fixed-lt k (num % base ^ k) (rest-lt k num))
