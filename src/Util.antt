-- ===== src/Util.antt =====
-- include/util.h: the arithmetic macros and `ispow2`, on `u64` values.
mod Tests
pub mod Pow2
pub mod Align
pub mod Ceildiv
use Prim.Native.Nat.{bit_and, bit_or}
use cob_kernel.Common.{
  ℕ, zero, suc, ◌+◌, ◌-◌, ◌*◌, ◌/◌, ◌%◌, ◌^◌, ◌≡◌, refl, Bool, ltb, leb, ◌==◌, if◌then◌else◌, add64,
}

-- `~x` on a `u64`.
abbrev pub not64 : ℕ → ℕ
not64 x = 2 ^ 64 - 1 - x

-- `((a) + (b)-1)/(b)`, evaluated from the left in `u64`.
unfoldable pub ceildiv : ℕ → ℕ → ℕ
ceildiv a b = (add64 a b + 2 ^ 64 - 1) % 2 ^ 64 / b

-- `((a) + ((align) - 1)) & ~((align) - 1)`
unfoldable pub alignup : ℕ → ℕ → ℕ
alignup a align = bit_and (add64 a (align - 1)) (not64 (align - 1))

-- `(a) & ~((align)-1)`
unfoldable pub aligndown : ℕ → ℕ → ℕ
aligndown a align = bit_and a (not64 (align - 1))

-- `get_bits_sz(data, start, size)`
abbrev pub get_bits_sz : ℕ → ℕ → ℕ → ℕ
get_bits_sz word start size = word / 2 ^ start % 2 ^ size

-- `set_bits(data, val, start, size)` on a `u64`, as the macro is expanded in an assignment.
unfoldable pub set_bits : ℕ → ℕ → ℕ → ℕ → ℕ
set_bits word val start size =
    bit_or (bit_and word (not64 ((2 ^ size - 1) * 2 ^ start))) (val * 2 ^ start)

-- The loop of `ispow2`, with the rounds that are left: a `u64` is 0 after 64 shifts. `count` is a `u8`.
unfoldable pub ispow2_loop : ℕ → ℕ → ℕ → ℕ
ispow2_loop zero val count = count
ispow2_loop (suc fuel) val count =
    let rest = ispow2_loop fuel (val / 2) ((count + val % 2) % 256) in
    if val == 0 then count else rest

unfoldable pub ispow2 : ℕ → Bool
unfolding ispow2_loop
ispow2 val = ltb (ispow2_loop 64 val 0) 2
