-- ===== src/Device/Tests.antt =====
-- A run of `_get_char`.
use cob_kernel.Common.{ℕ, ◌-◌, ◌≡◌, refl, some, ◌==◌, if◌then◌else◌}
use cob_kernel.Device.{Bus, uart_base, poll, get_char}

-- A UART that has a byte with a framing error after as many reads of its flags as its state says.
abbrev uart : Bus ℕ
uart = record {
  read32 =
      λ addr s. if addr == uart_base then (0x141, s) else (if s == 0 then 0x80 else 0x10, s - 1);
  write32 = λ addr v s. s;
}

-- The byte is returned, and its error is not.
get_char_run : get_char uart 3 7 2 ≡ some (0x41, 7, 0)
unfolding get_char poll
get_char_run = refl
