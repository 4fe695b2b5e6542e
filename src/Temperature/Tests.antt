-- ===== src/Temperature/Tests.antt =====
-- A run of the temperature sensor.
use cob_kernel.Common.{ℕ, ◌+◌, ◌^◌, ◌≡◌, refl, some}
use cob_kernel.Temperature.{convert_temp}

abbrev reading : ℕ
reading = 2 ^ 16 + 700

-- 65 degrees.
convert_temp_run : convert_temp reading ≡ some 65000
unfolding convert_temp
convert_temp_run = refl
