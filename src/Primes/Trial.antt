-- ===== src/Primes/Trial.antt =====
-- Trial division by the odd and even numbers up to the root decides whether an odd number is prime.
use native.Mathlib.Nat.{div-add-mod', mul-mod_left, mul-le-mul}
use cob_kernel.Common.{
  ℕ, zero, suc, ◌+◌, ◌-◌, ◌*◌, ◌/◌, ◌%◌, ◌≤◌, ◌<◌, ◌≡◌, ◌≢◌, ◌↔◌, ◌⊎◌, inl, inr, refl, sym, arith,
  true, ◌==◌, Bool-cases, ℕ_discrete, dec_lt, dec_le, ==-of_ne,
}
use cob_kernel.Primes.{no_divisor, is_prime}

-- A number from 2 on whose only divisors are 1 and itself.
pub record IsPrime (p : ℕ) : Type 0 where
  pub two : 2 ≤ p
  pub only : (d : ℕ) → 0 < d → p % d ≡ 0 → (d ≡ 1) ⊎ (d ≡ p)

-- What `calculate_primes` counts.
abbrev pub IsCounted : ℕ → Type 0
IsCounted i = (i ≡ 1) ⊎ (IsPrime i × (i ≢ 2))

-- The integer part of the square root.
pub record IsRoot (root i : ℕ) : Type 0 where
  pub below : root * root ≤ i
  pub above : i < (root + 1) * (root + 1)

no_divisor-true : (n j i : ℕ) → no_divisor n j i ≡ true → (d : ℕ) → j ≤ d → d < j + n → i % d ≢ 0
unfolding no_divisor
no_divisor-true zero j i t d lo hi = absurd (omega (arith, lo, hi))
no_divisor-true (suc n) j i t d lo hi = elim (Bool-cases (i % j == 0)) [
  | inl divides ↦ absurd (cc (rw divides at t))
  | inr not_here ↦ elim (ℕ_discrete d j) [
    | yes same ↦ rw same (ground (arith, not_here))
    | no later ↦
        no_divisor-true n (j + 1) i (rw not_here at t) d (omega (arith, lo, later))
          (omega (arith, hi))
  ]
]

no_divisor-of_none :
    (n j i : ℕ) → ((d : ℕ) → j ≤ d → d < j + n → i % d ≢ 0) → no_divisor n j i ≡ true
unfolding no_divisor
no_divisor-of_none zero j i none = refl
no_divisor-of_none (suc n) j i none =
    rw (==-of_ne (i % j) 0 (none j (omega arith) (omega arith)))
      (no_divisor-of_none n (j + 1) i (λ d lo hi. none d (omega (arith, lo)) (omega (arith, hi))))

-- The other factor.
cofactor : (i d : ℕ) → i % d ≡ 0 → i ≡ i / d * d
cofactor i d e = omega (arith, div-add-mod' i d, e)

factor_divides : (i d q : ℕ) → i ≡ q * d → i % d ≡ 0
factor_divides i d q e = rw e (mul-mod_left q d)

le-not_lt : {a b : ℕ} → a ≤ b → b < a → ⊥
le-not_lt le lt = omega (arith, le, lt)

module _ {root i : ℕ} (r : IsRoot root i) where
  -- Of two factors one is at most the root.
  small_factor : (d q : ℕ) → i ≡ q * d → root < d → q ≤ root
  small_factor d q e big = elim (dec_le q root) [
    | yes le ↦ le
    | no gt ↦
        let over : (root + 1) * (root + 1) ≤ q * d =
          mul-le-mul {n₁ = root + 1} {m₁ = root + 1} {n₂ = q} {m₂ = d} (omega (arith, gt))
            (omega (arith, big)) in
        let lt : q * d < (root + 1) * (root + 1) = rw e at r.above in absurd (le-not_lt over lt)
  ]

  -- A factor up to the root is 1 if none from 3 on divides and 2 does not.
  is_one :
      (d : ℕ) → i % 2 ≡ 1 → no_divisor (root - 2) 3 i ≡ true → 0 < d → i % d ≡ 0 → d ≤ root → d ≡ 1
  is_one d odd t pos e le = elim (dec_le 3 d) [
    | yes three ↦ absurd (no_divisor-true (root - 2) 3 i t d three (omega (arith, three, le)) e)
    | no few ↦ elim (ℕ_discrete d 2) [
      | yes two ↦ absurd (omega (arith, odd, rw two at e))
      | no other ↦ omega (arith, few, pos, other)
    ]
  ]

  IsPrime-of_test : 3 ≤ i → i % 2 ≡ 1 → no_divisor (root - 2) 3 i ≡ true → IsPrime i
  IsPrime-of_test three odd t = record {
    two = omega (arith, three);
    only = λ d pos e. only d pos e;
  }
    where
      only : (d : ℕ) → 0 < d → i % d ≡ 0 → (d ≡ 1) ⊎ (d ≡ i)
      only d pos e =
          let product = cofactor i d e in
          elim (dec_lt root d) [
            | yes big ↦
                let swapped : i ≡ d * (i / d) = grind (arith, product) in
                let some_q : 0 < i / d = grind (arith, product, three) in
                let one : i / d ≡ 1 =
                  is_one (i / d) odd t some_q (factor_divides i (i / d) d swapped)
                    (small_factor d (i / d) product big) in
                inr (let same : i ≡ 1 * d = rw one at product in omega (arith, same))
            | no small ↦ inl (is_one d odd t pos e (omega (arith, small)))
          ]

  -- A prime but 2 passes: a divisor from 3 on would be the number itself, which is above its root.
  test-of_prime : IsPrime i → i ≢ 2 → (i % 2 ≡ 1) × (no_divisor (root - 2) 3 i ≡ true)
  test-of_prime p other =
      (odd, no_divisor-of_none (root - 2) 3 i (λ d lo hi e. absurd (none d lo hi e)))
    where
      odd : i % 2 ≡ 1
      odd = elim (ℕ_discrete (i % 2) 0) [
        | yes even ↦ elim (p.only 2 (omega arith) even) [
          | inl e ↦ absurd (omega (arith, e))
          | inr e ↦ absurd (other (sym e))
        ]
        | no e ↦ omega (arith, e)
      ]

      none : (d : ℕ) → 3 ≤ d → d < 3 + (root - 2) → i % d ≡ 0 → ⊥
      none d lo hi e = elim (p.only d (omega (arith, lo)) e) [
        | inl one ↦ omega (arith, one, lo)
        | inr same ↦
            let square : 3 * root ≤ root * root =
              mul-le-mul {n₁ = 3} {m₁ = root} {n₂ = root} {m₂ = root} (omega (arith, lo, hi))
                (omega arith) in
            omega (arith, square, r.below, same, lo, hi)
      ]

  -- With the root of the number, the test passes 1 and the primes but 2, and no other number.
  pub is_prime_iff : 0 < i → (is_prime root i ≡ true) ↔ IsCounted i
  unfolding is_prime
  is_prime_iff some = (sound, complete)
    where
      sound : is_prime root i ≡ true → IsCounted i
      sound t = elim (Bool-cases (i % 2 == 0)) [
        | inl even ↦ absurd (cc (rw even at t))
        | inr odd ↦
            let odd_bit : i % 2 ≡ 1 = ground (arith, odd) in
            elim (ℕ_discrete i 1) [
              | yes one ↦ inl one
              | no more ↦ inr (
                IsPrime-of_test (omega (arith, odd_bit, more)) odd_bit (rw odd at t),
                λ e. omega (arith, e, odd_bit),
              )
            ]
      ]

      complete : IsCounted i → is_prime root i ≡ true
      complete (inl one) =
          let odd : i % 2 ≡ 1 = omega (arith, one) in
          let no_round : root - 2 ≡ 0 = elim (dec_le 2 root) [
            | yes big ↦
                let square : 2 * root ≤ root * root =
                  mul-le-mul {n₁ = 2} {m₁ = root} {n₂ = root} {m₂ = root} big (omega arith) in
                absurd (omega (arith, square, r.below, one, big))
            | no small ↦ omega (arith, small)
          ] in
          rw (odd, no_round) (no_divisor-of_none 0 3 i (λ d lo hi. absurd (omega (arith, lo, hi))))
      complete (inr (p, other)) = let (odd, none) = test-of_prime p other in rw (odd, none) refl
