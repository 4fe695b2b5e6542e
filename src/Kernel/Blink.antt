-- ===== src/Kernel/Blink.antt =====
-- The blink codes of kernel.c: what the LED shows, and for how long.
use cob_kernel.Common.{
  ℕ, zero, suc, ◌+◌, ◌*◌, ◌≡◌, refl, ◌∙◌, arith, Bool, true, false, List, [], ◌∷◌, ◌++◌, ◌==◌,
  if◌then◌else◌,
}

-- `LED_on` and `LED_off`, and `wait_ms`.
pub data Signal : Type 0 where
  led : Bool → Signal
  wait_ms : ℕ → Signal

-- The loop of `_blink_code`, with the rounds that are left.
unfoldable pub blink_rounds : ℕ → ℕ → List Signal
blink_rounds zero delay_ms = []
blink_rounds (suc n) delay_ms = led true ∷ wait_ms delay_ms ∷ led false ∷ blink_rounds n delay_ms

-- From the last test of `_blink_code` on.
unfoldable pub last_state : Bool → List Signal
last_state true = led true ∷ wait_ms 2000 ∷ []
last_state false = wait_ms 2000 ∷ []

-- `_blink_code`, for a `count` that is not negative.
unfoldable pub blink : ℕ → Bool → ℕ → List Signal
blink count final_state delay_ms =
    led false
    ∷ wait_ms 2000
    ∷ (blink_rounds count delay_ms ++ wait_ms 2000 ∷ last_state final_state)

-- `blink_code`, for an `err` that is not negative.
unfoldable pub blink_code : ℕ → List Signal
blink_code err =
    (if err == 0 then blink 2 true 250 else []) ++ (if err == 1 then blink 3 false 750 else [])

-- What the LED shows after some signals, how often it is switched on, and how long they take.
unfoldable pub shown : Bool → List Signal → Bool
shown on [] = on
shown on (led b ∷ s) = shown b s
shown on (wait_ms n ∷ s) = shown on s

unfoldable pub flashes : List Signal → ℕ
flashes [] = 0
flashes (led b ∷ s) = (if b then 1 else 0) + flashes s
flashes (wait_ms n ∷ s) = flashes s

unfoldable pub duration : List Signal → ℕ
duration [] = 0
duration (led b ∷ s) = duration s
duration (wait_ms n ∷ s) = n + duration s

flashes-rounds :
    (n delay : ℕ) (s : List Signal) → flashes (blink_rounds n delay ++ s) ≡ n + flashes s
unfolding flashes blink_rounds
flashes-rounds zero delay s = omega arith
flashes-rounds (suc n) delay s = omega (arith, flashes-rounds n delay s)

duration-rounds :
    (n delay : ℕ) (s : List Signal) → duration (blink_rounds n delay ++ s) ≡ n * delay + duration s
unfolding duration blink_rounds
duration-rounds zero delay s = omega arith
duration-rounds (suc n) delay s = omega (arith, duration-rounds n delay s)

shown-rounds :
    (n delay : ℕ) (s : List Signal) → shown false (blink_rounds n delay ++ s) ≡ shown false s
unfolding shown blink_rounds
shown-rounds zero delay s = refl
shown-rounds (suc n) delay s = shown-rounds n delay s

-- `_blink_code` switches the LED on `count` times, and once more if it is to stay on, leaves it as `final_state`
-- says, whatever it was, and takes six seconds and the delays.
pub blink_lem :
    (count delay_ms : ℕ) (before final_state : Bool)
    → (flashes (blink count final_state delay_ms) ≡ count + (if final_state then 1 else 0))
      × (shown before (blink count final_state delay_ms) ≡ final_state)
      × (duration (blink count final_state delay_ms) ≡ 6000 + count * delay_ms)
unfolding blink last_state flashes shown duration
blink_lem count delay_ms before true = (
  omega (arith, flashes-rounds count delay_ms (wait_ms 2000 ∷ last_state true)),
  shown-rounds count delay_ms (wait_ms 2000 ∷ last_state true) ∙ refl,
  omega (arith, duration-rounds count delay_ms (wait_ms 2000 ∷ last_state true)),
)
blink_lem count delay_ms before false = (
  omega (arith, flashes-rounds count delay_ms (wait_ms 2000 ∷ last_state false)),
  shown-rounds count delay_ms (wait_ms 2000 ∷ last_state false) ∙ refl,
  omega (arith, duration-rounds count delay_ms (wait_ms 2000 ∷ last_state false)),
)
