-- ===== src/Common/Single.antt =====
-- Setting and clearing a single bit.
use Prim.Native.Nat.{bit_and, bit_or}
use native.Mathlib.Nat.{pow-suc, one-le-pow, pow-le-pow_right}
use cob_kernel.Common.{ℕ, zero, suc, ◌+◌, ◌-◌, ◌*◌, ◌/◌, ◌%◌, ◌^◌, ◌≤◌, ◌<◌, ◌≡◌, ◌∙◌, arith}
use cob_kernel.Common.Bits.{bit_and_step, bit_and_field, div-pow-suc, mod-pow-suc}
use cob_kernel.Common.Bor.{bit_or_step, or_none}

-- Digit `k` is set, and the others stay.
pub bit_or_bit : (k a : ℕ) → bit_or a (2 ^ k) ≡ a / 2 ^ suc k * 2 ^ suc k + 2 ^ k + a % 2 ^ k
bit_or_bit zero a = omega (arith, bit_or_step a 1, or_none (a / 2) (a / 2) (omega arith))
bit_or_bit (suc k) a =
    let half : 2 ^ suc k / 2 ≡ 2 ^ k = omega (arith, pow-suc 2 k) in
    let even : 2 ^ suc k % 2 ≡ 0 = omega (arith, pow-suc 2 k) in
    let rest : bit_or (a / 2) (2 ^ suc k / 2)
        ≡ a / 2 / 2 ^ suc k * 2 ^ suc k + 2 ^ k + a / 2 % 2 ^ k =
      rw half (bit_or_bit k (a / 2)) in
    omega (
      arith,
      bit_or_step a (2 ^ suc k),
      rest,
      even,
      pow-suc 2 k,
      div-pow-suc (suc k) a,
      mod-pow-suc k a,
    )

-- Digit `k` of the low `w` is cleared, and the other low digits stay.
pub bit_and_clear :
    (k w a : ℕ)
    → k < w
    → bit_and a (2 ^ w - 1 - 2 ^ k) ≡ a % 2 ^ w / 2 ^ suc k * 2 ^ suc k + a % 2 ^ k
bit_and_clear zero w a lt =
    let mask : 2 ^ w - 1 - 2 ^ 0 ≡ 2 ^ w - 2 ^ 1 = omega arith in
    rw mask (bit_and_field 1 w a (omega (arith, lt)) ∙ omega arith)
bit_and_clear (suc k) zero a lt = absurd (omega (arith, lt))
bit_and_clear (suc k) (suc w) a lt =
    let room : 2 ^ suc k ≤ 2 ^ w =
      pow-le-pow_right {n = 2} (omega arith) {i = suc k} {j = w} (omega (arith, lt)) in
    let half : (2 ^ suc w - 1 - 2 ^ suc k) / 2 ≡ 2 ^ w - 1 - 2 ^ k =
      omega (arith, pow-suc 2 w, pow-suc 2 k, room, one-le-pow k 2) in
    let odd : (2 ^ suc w - 1 - 2 ^ suc k) % 2 ≡ 1 =
      omega (arith, pow-suc 2 w, pow-suc 2 k, room, one-le-pow k 2) in
    let rest : bit_and (a / 2) ((2 ^ suc w - 1 - 2 ^ suc k) / 2)
        ≡ a / 2 % 2 ^ w / 2 ^ suc k * 2 ^ suc k + a / 2 % 2 ^ k =
      rw half (bit_and_clear k w (a / 2) (omega (arith, lt))) in
    let low : a % 2 ^ suc w / 2 ≡ a / 2 % 2 ^ w = omega (arith, mod-pow-suc w a) in
    let high : a % 2 ^ suc w / 2 ^ suc (suc k) * 2 ^ suc (suc k)
        ≡ 2 * (a / 2 % 2 ^ w / 2 ^ suc k * 2 ^ suc k) =
      rw low at (div-pow-suc (suc k) (a % 2 ^ suc w)) in
    omega (arith, bit_and_step a (2 ^ suc w - 1 - 2 ^ suc k), rest, odd, high, mod-pow-suc k a)
