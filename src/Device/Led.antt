-- ===== src/Device/Led.antt =====
-- led.c on a data register that holds what is written to it.
use Prim.Native.Nat.{bit_and, bit_or}
use cob_kernel.Common.{
  ℕ, ◌+◌, ◌*◌, ◌/◌, ◌%◌, ◌^◌, ◌<◌, ◌≡◌, ◌∙◌, ap, arith, Bool, true, false, if◌then◌else◌,
}
use cob_kernel.Common.Single.{bit_or_bit, bit_and_clear}
use cob_kernel.Device.{Bus, arm_gpio2_data0, not32, led_on, led_off}

-- What the registers of the GPIO block do: the data register holds the word that was written last, and a
-- read changes nothing in it.
pub record Holds {D : Type 0} (bus : Bus D) (value : D → ℕ) : Type 0 where
  pub gives : (s : D) → (bus.read32 arm_gpio2_data0 s).0 ≡ value s
  pub keeps : (s : D) → value (bus.read32 arm_gpio2_data0 s).1 ≡ value s
  pub takes : (x : ℕ) (s : D) → value (bus.write32 arm_gpio2_data0 x s) ≡ x % 2 ^ 32
  pub word : (s : D) → value s < 2 ^ 32

-- Bit 9 of a word as given, and its other bits.
abbrev pub with_pin : Bool → ℕ → ℕ
with_pin on reg = reg / 2 ^ 10 * 2 ^ 10 + (if on then 2 ^ 9 else 0) + reg % 2 ^ 9

module _ {D : Type 0} (bus : Bus D) (value : D → ℕ) (h : Holds bus value) where
  pub led_on_lem : (s : D) → value (led_on bus s) ≡ with_pin true (value s)
  unfolding led_on
  led_on_lem s =
      h.takes _ _
      ∙ (ap (λ (r : ℕ). bit_or r 0x200 % 2 ^ 32) (h.gives s)
          ∙ (ap (λ (r : ℕ). r % 2 ^ 32) (bit_or_bit 9 (value s)) ∙ omega (arith, h.word s)))

  pub led_off_lem : (s : D) → value (led_off bus s) ≡ with_pin false (value s)
  unfolding led_off
  led_off_lem s =
      h.takes _ _
      ∙ (ap (λ (r : ℕ). bit_and r (not32 0x200) % 2 ^ 32) (h.gives s)
          ∙ (ap (λ (r : ℕ). r % 2 ^ 32) (bit_and_clear 9 32 (value s) (omega arith))
              ∙ omega (arith, h.word s)))
