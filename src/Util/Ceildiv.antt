-- ===== src/Util/Ceildiv.antt =====
-- What `ceildiv` computes, and where its `u64` sum wraps.
use native.Mathlib.Nat.{div-mul-le_self, lt-div-mul-add, div-lt_iff_lt-mul}
use cob_kernel.Common.{ℕ, ◌+◌, ◌-◌, ◌*◌, ◌/◌, ◌%◌, ◌^◌, ◌≤◌, ◌<◌, ◌≡◌, arith}
use cob_kernel.Util.{ceildiv}

ceildiv_lem : (a b : ℕ) → 0 < b → a + b ≤ 2 ^ 64 → ceildiv a b ≡ (a + (b - 1)) / b
unfolding ceildiv
ceildiv_lem a b pos fits =
    let e : ((a + b) % 2 ^ 64 + 2 ^ 64 - 1) % 2 ^ 64 ≡ a + (b - 1) = omega arith in rw e

-- `ceildiv` is the least number of blocks of `b` that hold `a`, if the sum of the two fits a `u64`.
ceildiv_bounds :
    (a b : ℕ) → 0 < b → a + b ≤ 2 ^ 64 → (a ≤ ceildiv a b * b) × (ceildiv a b * b < a + b)
ceildiv_bounds a b pos fits =
    rw (ceildiv_lem a b pos fits)
      (omega (arith, div-mul-le_self (a + (b - 1)) b, lt-div-mul-add {a = a + (b - 1)} {b = b} pos))

pub ceildiv-le : (a b n : ℕ) → 0 < b → a + b ≤ 2 ^ 64 → a ≤ n * b → ceildiv a b ≤ n
ceildiv-le a b n pos fits le =
    let small : (a + (b - 1)) / b < n + 1 =
      (div-lt_iff_lt-mul {k = b} {x = a + (b - 1)} {y = n + 1} pos).1 (grind arith) in
    rw (ceildiv_lem a b pos fits) (omega arith)

pub ceildiv-pos : (a b : ℕ) → 0 < b → 0 < a → a + b ≤ 2 ^ 64 → 0 < ceildiv a b
ceildiv-pos a b pos some fits = grind (arith, ceildiv_bounds a b pos fits)

-- A request within `b` bytes of 2 ^ 64 wraps around and comes to no block at all.
ceildiv_wraps : (a b : ℕ) → a < 2 ^ 64 → b < 2 ^ 64 → 2 ^ 64 < a + b → ceildiv a b ≡ 0
unfolding ceildiv
ceildiv_wraps a b ha hb over =
    let e : ((a + b) % 2 ^ 64 + 2 ^ 64 - 1) % 2 ^ 64 ≡ a + b - 2 ^ 64 - 1 = omega arith in
    rw e (grind arith)
