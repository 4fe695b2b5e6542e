-- ===== src/Common/Bits.antt =====
-- Laws of `bit_and` at variables, by recursion on the binary digits.
use Prim.Native.Nat.{min, bit_and, digits, bit_and-bitwise}
use native.Mathlib.Nat.{
  mod-lt, div-add-mod, mul-add-mod_self_left, mod-eq_of_lt, pow-suc, pow-succ', one-le-pow,
  div-div-eq-div-mul,
}
use cob_kernel.Common.{
  ℕ, zero, suc, ◌+◌, ◌-◌, ◌*◌, ◌/◌, ◌%◌, ◌^◌, ◌≤◌, ◌<◌, ◌≡◌, ◌∙◌, ap, sym, refl, arith,
}

-- `digits` does not depend on its fuel once that is at least the first number.
and_fuel :
    (a f g b : ℕ) → a ≤ f → a ≤ g → digits (λ b. zero) min f a b ≡ digits (λ b. zero) min g a b
and_fuel a zero zero b p q = refl
and_fuel zero zero (suc g) b p q = refl
and_fuel zero (suc f) zero b p q = refl
and_fuel zero (suc f) (suc g) b p q = refl
and_fuel (suc a) zero (suc g) b p q = absurd (omega arith)
and_fuel (suc a) (suc f) zero b p q = absurd (omega arith)
and_fuel (suc a) (suc f) (suc g) b p q =
    omega (arith, and_fuel (suc a / 2) f g (b / 2) (omega arith) (omega arith))

-- No digits of the first number leave none.
none_and : (n : ℕ) → bit_and 0 n ≡ 0
none_and n = bit_and-bitwise 0 n

-- The digits from the second on, with the fuel that the whole number gives.
and_rest : (x y : ℕ) → digits (λ b. zero) min x (suc x / 2) (y / 2) ≡ bit_and (suc x / 2) (y / 2)
and_rest x y =
    and_fuel (suc x / 2) x (suc x / 2) (y / 2) (omega arith) (omega arith)
    ∙ sym (bit_and-bitwise (suc x / 2) (y / 2))

-- The last digit, and the digits before it.
pub bit_and_step : (x y : ℕ) → bit_and x y ≡ 2 * bit_and (x / 2) (y / 2) + min (x % 2) (y % 2)
bit_and_step (suc x) y = omega (arith, and_rest x y, bit_and-bitwise (suc x) y)
bit_and_step zero y = omega (arith, none_and (y / 2), none_and y)

ones_half : (w : ℕ) → (2 ^ suc w - 1) / 2 ≡ 2 ^ w - 1
ones_half w = omega (arith, pow-suc 2 w)

-- A mask of `w` ones keeps a number of `w` digits.
bit_and_ones : (w a : ℕ) → a < 2 ^ w → bit_and a (2 ^ w - 1) ≡ a
bit_and_ones zero a h = let z : a ≡ 0 = omega arith in rw z (none_and 0)
bit_and_ones (suc w) a h =
    let rest : bit_and (a / 2) ((2 ^ suc w - 1) / 2) ≡ a / 2 =
      rw (ones_half w) (bit_and_ones w (a / 2) (omega (arith, pow-suc 2 w))) in
    omega (arith, bit_and_step a (2 ^ suc w - 1), pow-suc 2 w, one-le-pow w 2, rest)

high_half : (k w : ℕ) → (2 ^ suc w - 2 ^ suc k) / 2 ≡ 2 ^ w - 2 ^ k
high_half k w = omega (arith, pow-suc 2 w, pow-suc 2 k)

pub div-pow-suc : (k a : ℕ) → a / 2 ^ suc k * 2 ^ suc k ≡ 2 * (a / 2 / 2 ^ k * 2 ^ k)
div-pow-suc k a = rw (pow-succ' 2 k, ← div-div-eq-div-mul a 2 (2 ^ k)) (omega arith)

-- A mask of ones above `k` zeros rounds down to a multiple of `2 ^ k`.
pub bit_and_high : (k w a : ℕ) → k ≤ w → a < 2 ^ w → bit_and a (2 ^ w - 2 ^ k) ≡ a / 2 ^ k * 2 ^ k
bit_and_high zero w a le h = omega (arith, bit_and_ones w a h)
bit_and_high (suc k) zero a le h = absurd (omega arith)
bit_and_high (suc k) (suc w) a le h =
    let rest : bit_and (a / 2) ((2 ^ suc w - 2 ^ suc k) / 2) ≡ a / 2 / 2 ^ k * 2 ^ k =
      rw (high_half k w) (bit_and_high k w (a / 2) (omega arith) (omega (arith, pow-suc 2 w))) in
    omega (
      arith,
      bit_and_step a (2 ^ suc w - 2 ^ suc k),
      pow-suc 2 w,
      pow-suc 2 k,
      rest,
      div-pow-suc k a,
    )

mod-double : (a p : ℕ) → 0 < p → a % (2 * p) ≡ 2 * (a / 2 % p) + a % 2
mod-double a p pos =
    let x = 2 * (a / 2 % p) + a % 2 in
    let small : x < 2 * p = omega (arith, mod-lt (a / 2) pos) in
    let split : a ≡ 2 * p * (a / 2 / p) + x = grind (arith, div-add-mod (a / 2) p) in
    ap (λ n. n % (2 * p)) split ∙ (mul-add-mod_self_left (2 * p) (a / 2 / p) x ∙ mod-eq_of_lt small)

pub mod-pow-suc : (w a : ℕ) → a % 2 ^ suc w ≡ 2 * (a / 2 % 2 ^ w) + a % 2
mod-pow-suc w a = rw (pow-succ' 2 w) (mod-double a (2 ^ w) (one-le-pow w 2 (omega arith)))

bit_and_none : (n a : ℕ) → a ≤ n → bit_and a 0 ≡ 0
bit_and_none zero a le = let z : a ≡ 0 = omega arith in rw z (none_and 0)
bit_and_none (suc n) a le =
    omega (arith, bit_and_step a 0, bit_and_none n (a / 2) (omega (arith, le)))

-- A mask of `w` ones takes the low `w` digits.
pub bit_and_low : (w a : ℕ) → bit_and a (2 ^ w - 1) ≡ a % 2 ^ w
bit_and_low zero a = omega (arith, bit_and_none a a (omega arith))
bit_and_low (suc w) a =
    let rest : bit_and (a / 2) ((2 ^ suc w - 1) / 2) ≡ a / 2 % 2 ^ w =
      rw (ones_half w) (bit_and_low w (a / 2)) in
    omega
      (arith, bit_and_step a (2 ^ suc w - 1), pow-suc 2 w, one-le-pow w 2, rest, mod-pow-suc w a)

-- A mask of ones from digit `k` to before digit `w` takes those digits where they are.
pub bit_and_field : (k w a : ℕ) → k ≤ w → bit_and a (2 ^ w - 2 ^ k) ≡ a % 2 ^ w / 2 ^ k * 2 ^ k
bit_and_field zero w a le = omega (arith, bit_and_low w a)
bit_and_field (suc k) zero a le = absurd (omega (arith, le))
bit_and_field (suc k) (suc w) a le =
    let rest : bit_and (a / 2) ((2 ^ suc w - 2 ^ suc k) / 2) ≡ a / 2 % 2 ^ w / 2 ^ k * 2 ^ k =
      rw (high_half k w) (bit_and_field k w (a / 2) (omega (arith, le))) in
    let half : a % 2 ^ suc w / 2 ≡ a / 2 % 2 ^ w = omega (arith, mod-pow-suc w a) in
    let shifted : a % 2 ^ suc w / 2 ^ suc k * 2 ^ suc k ≡ 2 * (a / 2 % 2 ^ w / 2 ^ k * 2 ^ k) =
      rw half at (div-pow-suc k (a % 2 ^ suc w)) in
    omega (arith, bit_and_step a (2 ^ suc w - 2 ^ suc k), pow-suc 2 w, pow-suc 2 k, rest, shifted)
