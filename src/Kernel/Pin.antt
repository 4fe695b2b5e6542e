-- ===== src/Kernel/Pin.antt =====
-- The blink codes of kernel.c on the pin of the LED.
use cob_kernel.Common.{
  ℕ, ◌/◌, ◌%◌, ◌^◌, ◌≡◌, refl, ap, sym, ◌∙◌, arith, Bool, true, false, List, [], ◌∷◌, append-nil,
  ◌==◌, if◌then◌else◌, ℕ_discrete, ==-of_ne,
}
use cob_kernel.Device.{Bus, led_on, led_off}
use cob_kernel.Device.Led.{Holds, with_pin, led_on_lem, led_off_lem}
use cob_kernel.Kernel.Blink.{Signal, led, wait_ms, blink, blink_code, shown, blink_lem}

-- Signals on the bus: `wait_ms` reads the counter only.
unfoldable pub run_signals : {D : Type 0} → Bus D → List Signal → D → D
run_signals bus [] s = s
run_signals bus (led true ∷ xs) s = run_signals bus xs (led_on bus s)
run_signals bus (led false ∷ xs) s = run_signals bus xs (led_off bus s)
run_signals bus (wait_ms n ∷ xs) s = run_signals bus xs s

-- Whether the pin is set in a word.
abbrev pub pin : ℕ → Bool
pin reg = reg / 2 ^ 9 % 2 == 1

with_pin-with_pin : (a b : Bool) (reg : ℕ) → with_pin a (with_pin b reg) ≡ with_pin a reg
with_pin-with_pin a true reg = omega arith
with_pin-with_pin a false reg = omega arith

with_pin-pin : (reg : ℕ) → with_pin (pin reg) reg ≡ reg
with_pin-pin reg = ground arith

module _ {D : Type 0} (bus : Bus D) (value : D → ℕ) (h : Holds bus value) where
  run-shown :
      (xs : List Signal) (on : Bool) (reg : ℕ) (s : D)
      → value s ≡ with_pin on reg
      → value (run_signals bus xs s) ≡ with_pin (shown on xs) reg
  unfolding run_signals shown
  run-shown [] on reg s e = e
  run-shown (led true ∷ xs) on reg s e =
      run-shown xs true reg (led_on bus s)
        (led_on_lem bus value h s ∙ (ap (with_pin true) e ∙ with_pin-with_pin true on reg))
  run-shown (led false ∷ xs) on reg s e =
      run-shown xs false reg (led_off bus s)
        (led_off_lem bus value h s ∙ (ap (with_pin false) e ∙ with_pin-with_pin false on reg))
  run-shown (wait_ms n ∷ xs) on reg s e = run-shown xs on reg s e

shown-code :
    (err : ℕ) (on : Bool)
    → shown on (blink_code err) ≡ (if err == 0 then true else if err == 1 then false else on)
unfolding blink_code shown
shown-code err on = elim (ℕ_discrete err 0) [
  | yes none_wrong ↦
      rw none_wrong (ap (shown on) (append-nil (blink 2 true 250)) ∙ (blink_lem 2 250 on true).1)
  | no wrong ↦ elim (ℕ_discrete err 1) [
    | yes link_down ↦ rw link_down (blink_lem 3 750 on false).1
    | no other ↦ rw (==-of_ne err 0 wrong, ==-of_ne err 1 other) refl
  ]
]

-- On a GPIO data register that holds what is written, `blink_code` leaves the pin of the LED set for 0,
-- cleared for 1, the code of a link that is down, and as it was for any other code, and it leaves the other
-- bits of the register as they were.
pub blink_code_lem :
    {D : Type 0} (bus : Bus D) (value : D → ℕ)
    → Holds bus value
    → (err : ℕ) (s : D)
    → value (run_signals bus (blink_code err) s)
      ≡ with_pin (if err == 0 then true else if err == 1 then false else pin (value s)) (value s)
blink_code_lem bus value h err s =
    run-shown bus value h (blink_code err) (pin (value s)) (value s) s
      (sym (with_pin-pin (value s)))
    ∙ ap (λ (b : Bool). with_pin b (value s)) (shown-code err (pin (value s)))
