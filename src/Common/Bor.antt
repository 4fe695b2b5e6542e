-- ===== src/Common/Bor.antt =====
-- `bit_or` of two numbers that share no digit is their sum.
use Prim.Native.Nat.{max, bit_or, digits, bit_or-bitwise}
use native.Mathlib.Nat.{pow-suc}
use cob_kernel.Common.{ℕ, zero, suc, ◌+◌, ◌*◌, ◌/◌, ◌%◌, ◌^◌, ◌≤◌, ◌<◌, ◌≡◌, ◌∙◌, sym, refl, arith}

-- The fuel of `digits` does not matter from the first number on.
or_fuel : (x n k y : ℕ) → x ≤ n → x ≤ k → digits (λ b. b) max n x y ≡ digits (λ b. b) max k x y
or_fuel zero zero zero y p q = refl
or_fuel zero zero (suc k) y p q = refl
or_fuel zero (suc n) zero y p q = refl
or_fuel zero (suc n) (suc k) y p q = refl
or_fuel (suc x) zero k y p q = absurd (omega arith)
or_fuel (suc x) (suc n) zero y p q = absurd (omega arith)
or_fuel (suc x) (suc n) (suc k) y p q =
    omega (arith, or_fuel (suc x / 2) n k (y / 2) (omega arith) (omega arith))

none_or : (y : ℕ) → bit_or 0 y ≡ y
none_or y = bit_or-bitwise 0 y

or_rest : (x y : ℕ) → digits (λ b. b) max x (suc x / 2) (y / 2) ≡ bit_or (suc x / 2) (y / 2)
or_rest x y =
    or_fuel (suc x / 2) x (suc x / 2) (y / 2) (omega arith) (omega arith)
    ∙ sym (bit_or-bitwise (suc x / 2) (y / 2))

pub bit_or_step : (x y : ℕ) → bit_or x y ≡ 2 * bit_or (x / 2) (y / 2) + max (x % 2) (y % 2)
bit_or_step (suc x) y = omega (arith, or_rest x y, bit_or-bitwise (suc x) y)
bit_or_step zero y = omega (arith, none_or (y / 2), none_or y)

pub or_none : (n x : ℕ) → x ≤ n → bit_or x 0 ≡ x
or_none n zero h = none_or 0
or_none zero (suc x) h = absurd (omega arith)
or_none (suc n) (suc x) h =
    omega (arith, bit_or_step (suc x) 0, or_none n (suc x / 2) (omega arith))

-- A number below `2 ^ k`, and one that is shifted by `k` digits.
pub bit_or_shifted : (k x y : ℕ) → y < 2 ^ k → bit_or (x * 2 ^ k) y ≡ x * 2 ^ k + y
bit_or_shifted zero x y h =
    let z : y ≡ 0 = omega arith in
    let e : x * 2 ^ 0 ≡ x = omega arith in rw (z, e) (omega (arith, or_none x x (omega arith)))
bit_or_shifted (suc k) x y h =
    let shift : x * 2 ^ suc k ≡ 2 * (x * 2 ^ k) = rw (pow-suc 2 k) (grind arith) in
    let half : x * 2 ^ suc k / 2 ≡ x * 2 ^ k = omega (arith, shift) in
    let even : x * 2 ^ suc k % 2 ≡ 0 = omega (arith, shift) in
    let rest : bit_or (x * 2 ^ k) (y / 2) ≡ x * 2 ^ k + y / 2 =
      bit_or_shifted k x (y / 2) (omega (arith, pow-suc 2 k)) in
    rw (bit_or_step (x * 2 ^ suc k) y, half, even, rest) (omega (arith, shift))

-- The same with the two in the other order.
pub shifted_bit_or : (k x y : ℕ) → y < 2 ^ k → bit_or y (x * 2 ^ k) ≡ x * 2 ^ k + y
shifted_bit_or zero x y h =
    let z : y ≡ 0 = omega arith in
    let e : x * 2 ^ 0 ≡ x = omega arith in rw (z, e) (omega (arith, none_or x))
shifted_bit_or (suc k) x y h =
    let shift : x * 2 ^ suc k ≡ 2 * (x * 2 ^ k) = rw (pow-suc 2 k) (grind arith) in
    let half : x * 2 ^ suc k / 2 ≡ x * 2 ^ k = omega (arith, shift) in
    let even : x * 2 ^ suc k % 2 ≡ 0 = omega (arith, shift) in
    let rest : bit_or (y / 2) (x * 2 ^ k) ≡ x * 2 ^ k + y / 2 =
      shifted_bit_or k x (y / 2) (omega (arith, pow-suc 2 k)) in
    rw (bit_or_step y (x * 2 ^ suc k), half, even, rest) (omega (arith, shift))
