-- ===== src/Util/Align.antt =====
-- What the alignment macros compute for an alignment that is a power of two.
use native.Mathlib.Nat.{one-le-pow}
use cob_kernel.Common.{ℕ, ◌+◌, ◌-◌, ◌*◌, ◌/◌, ◌%◌, ◌^◌, ◌≤◌, ◌<◌, ◌≡◌, arith}
use cob_kernel.Common.Bits.{bit_and_high}
use cob_kernel.Util.{alignup, aligndown, not64}

mask_eq : (k : ℕ) → k ≤ 64 → not64 (2 ^ k - 1) ≡ 2 ^ 64 - 2 ^ k
mask_eq k h = omega (arith, one-le-pow k 2)

-- `aligndown` by a power of two is the greatest multiple that is not above the number.
pub aligndown_lem : (k a : ℕ) → k < 64 → a < 2 ^ 64 → aligndown a (2 ^ k) ≡ a / 2 ^ k * 2 ^ k
unfolding aligndown
aligndown_lem k a hk ha = rw (mask_eq k (omega arith)) (bit_and_high k 64 a (omega arith) ha)

-- `alignup` by a power of two is the least multiple that is not below the number, if the sum of the
-- two fits a `u64`.
pub alignup_lem :
    (k a : ℕ) → k < 64 → a + 2 ^ k ≤ 2 ^ 64 → alignup a (2 ^ k) ≡ (a + (2 ^ k - 1)) / 2 ^ k * 2 ^ k
unfolding alignup
alignup_lem k a hk ha =
    let e : (a + (2 ^ k - 1)) % 2 ^ 64 ≡ a + (2 ^ k - 1) = omega (arith, one-le-pow k 2) in
    rw (mask_eq k (omega arith), e)
      (bit_and_high k 64 _ (omega arith) (omega (arith, one-le-pow k 2)))
