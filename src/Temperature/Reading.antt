-- ===== src/Temperature/Reading.antt =====
-- What a reading of the temperature sensor says.
use cob_kernel.Common.{
  ℕ, ◌+◌, ◌-◌, ◌*◌, ◌/◌, ◌%◌, ◌^◌, ◌≤◌, ◌<◌, ◌≡◌, ◌⊎◌, inl, inr, arith, none, some, ◌&&◌, ◌==◌,
  Bool-cases, dec_le,
}
use cob_kernel.Temperature.{convert_temp}

-- The result fails exactly if neither valid bit is set. Else it is 450000 less 550 for each unit of the
-- reading, as an `int`: in two's complement where that is negative.
convert_temp_lem :
    (val : ℕ)
    → let d = val % 2 ^ 10 in
      ((val / 2 ^ 16 % 2 ≡ 0) × (val / 2 ^ 10 % 2 ≡ 0) × (convert_temp val ≡ none))
      ⊎ ((t : ℕ) × (convert_temp val ≡ some t)
          × (((550 * d ≤ 450000) × (t + 550 * d ≡ 450000))
              ⊎ ((450000 < 550 * d) × (t + 550 * d ≡ 2 ^ 32 + 450000))))
unfolding convert_temp
convert_temp_lem val = elim (Bool-cases ((val / 2 ^ 16 % 2 == 0) && (val / 2 ^ 10 % 2 == 0))) [
  | inl none_valid ↦ inl (ground arith, ground arith, rw none_valid)
  | inr valid ↦ inr (
    ((2 ^ 32 - 550) * (val % 2 ^ 10) + 450000) % 2 ^ 32,
    rw valid,
    elim (dec_le (550 * (val % 2 ^ 10)) 450000) [
      | yes le ↦ inl (le, omega (arith, le))
      | no gt ↦ inr (omega (arith, gt), omega (arith, gt))
    ],
  )
]
