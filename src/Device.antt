-- ===== src/Device.antt =====
-- The device registers: `read32` and `write32` of util.S, as the hardware answers them, are a parameter,
-- and `D` is the state of the hardware. pi5_watchdog_full_reset (reset.c), the LED (led.c), the UART (uart.c)
-- and the fixed register values of fixups.c.
mod Tests
pub mod Led
pub mod Uart
use Prim.Native.Nat.{bit_and, bit_or}
use cob_kernel.Common.{
  ℕ, zero, suc, ◌+◌, ◌-◌, ◌/◌, ◌^◌, Bool, not, Option, none, some, ltb, ◌>>=◌, ◌==◌, if◌then◌else◌,
}

pub record Bus (D : Type 0) : Type 0 where
  pub read32 : ℕ → D → ℕ × D
  pub write32 : ℕ → ℕ → D → D

abbrev pub uart_base : ℕ
uart_base = 0x1c00030000

abbrev pub pcie_base : ℕ
pcie_base = 0x1000120000

abbrev pub rpi5_soc_base : ℕ
rpi5_soc_base = 0x1000000000

abbrev pub bcm2712_pm_base : ℕ
bcm2712_pm_base = rpi5_soc_base + 0x7d200000

abbrev pub avs_temp_base : ℕ
avs_temp_base = rpi5_soc_base + 0x107d542000

abbrev pub arm_gpio2_data0 : ℕ
arm_gpio2_data0 = rpi5_soc_base + 0x7d517c00 + 0x04

-- `~x` on a `u32`.
abbrev pub not32 : ℕ → ℕ
not32 x = 2 ^ 32 - 1 - x

module _ {D : Type 0} (bus : Bus D) where
  -- What `pi5_watchdog_full_reset` does before it waits for ever.
  unfoldable pub pi5_watchdog_full_reset : D → D
  pi5_watchdog_full_reset s =
      let armed = bus.write32 (bcm2712_pm_base + 0x24) (bit_or 0x5a000000 (bit_and 10 0xfffff)) s in
      let (cur, s') = bus.read32 (bcm2712_pm_base + 0x1c) armed in
      bus.write32 (bcm2712_pm_base + 0x1c)
        (bit_or (bit_or (bit_and cur 0xffffffcf) 0x5a000000) 0x20) s'

  -- `LED_off`
  unfoldable pub led_off : D → D
  led_off s =
      let (reg, s') = bus.read32 arm_gpio2_data0 s in
      bus.write32 arm_gpio2_data0 (bit_and reg (not32 0x200)) s'

  -- `LED_on`
  unfoldable pub led_on : D → D
  led_on s =
      let (reg, s') = bus.read32 arm_gpio2_data0 s in
      bus.write32 arm_gpio2_data0 (bit_or reg 0x200) s'

  -- `LED_pulse`; the wait between the two does not touch the LED.
  unfoldable pub led_pulse : D → D
  led_pulse s = led_on (led_off s)

  -- A loop that reads a register until `stop` holds of it, with fuel: the state behind the last read.
  unfoldable pub poll : ℕ → ℕ → (ℕ → Bool) → D → Option D
  poll zero addr stop s = none
  poll (suc fuel) addr stop s =
      let (reg, s') = bus.read32 addr s in
      let rest = poll fuel addr stop s' in if stop reg then some s' else rest

  -- `_wait_fifo_empty`
  unfoldable pub wait_fifo_empty : ℕ → D → Option D
  wait_fifo_empty fuel s = poll fuel (uart_base + 0x18) (λ reg. not (bit_and reg (2 ^ 7) == 0)) s

  -- `_write_char`; a `char` from 128 on is extended with its sign.
  unfoldable pub write_char : ℕ → ℕ → D → Option D
  write_char fuel c s =
      poll fuel (uart_base + 0x18) (λ reg. not (bit_and reg (2 ^ 7) == 0)) s
      >>= (λ s'. some (bus.write32 uart_base (if ltb c 128 then c else c + (2 ^ 32 - 256)) s'))

  -- `_get_char`, given `uart_err`: the byte, `uart_err` and the state afterwards.
  unfoldable pub get_char : ℕ → ℕ → D → Option (ℕ × ℕ × D)
  get_char fuel uart_err s =
      poll fuel (uart_base + 0x18) (λ reg. bit_and reg (2 ^ 4) == 0) s >>= (λ s'.
        let (dat, s'') = bus.read32 uart_base s' in
        let reg = bit_and dat 0xff in
        let err = if bit_and reg 0xf00 == 0 then uart_err else bit_and reg 0xf / 2 ^ 8 in
        some (bit_and reg 0xff, err, s''))

  -- `uart_fixups`
  unfoldable pub uart_fixups : D → D
  uart_fixups s =
      let s1 = bus.write32 (uart_base + 0x24) 0x1b s in
      let s2 = bus.write32 (uart_base + 0x28) 0x8 s1 in
      let s3 = bus.write32 (uart_base + 0x2c) 0x70 s2 in bus.write32 (uart_base + 0x30) 0xf01 s3
