-- ===== src/Temperature.antt =====
-- bcm2712_temp.c and include/bcm2712_temp.h: the temperature sensor.
mod Tests
pub mod Reading
use cob_kernel.Common.{
  ℕ, ◌+◌, ◌-◌, ◌*◌, ◌/◌, ◌%◌, ◌^◌, ◌&&◌, Option, none, some, ◌==◌, if◌then◌else◌,
}
use cob_kernel.Device.{Bus, avs_temp_base}

-- The conversion of the status word: `slope * val + offset` is computed on `u32`, and the result is the
-- pattern of an `int`; `none` is the status -1. The masks are written as remainders.
unfoldable pub convert_temp : ℕ → Option ℕ
convert_temp val =
    if (val / 2 ^ 16 % 2 == 0) && (val / 2 ^ 10 % 2 == 0)
    then none
    else some (((2 ^ 32 - 550) * (val % 2 ^ 10) + 450000) % 2 ^ 32)

module _ {D : Type 0} (bus : Bus D) where
  unfoldable pub avs_read32 : ℕ → D → ℕ × D
  avs_read32 offset s = bus.read32 (avs_temp_base + offset) s

  unfoldable pub bcm2712_get_temp : D → Option ℕ × D
  bcm2712_get_temp s = let (val, s') = avs_read32 0x200 s in (convert_temp val, s')
