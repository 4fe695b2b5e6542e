-- ===== src/Console/TempText.antt =====
-- What `get_temp` prints.
use cob_kernel.Common.{
  ℕ, ◌+◌, ◌%◌, ◌^◌, ◌<◌, ◌≡◌, inl, inr, refl, ap, ◌∙◌, arith, none, some, Option, List, [], ◌∷◌,
  ◌++◌, Option-cases, ◌⊎◌,
}
use cob_kernel.Common.Bytes.{bytes}
use cob_kernel.Device.{Bus, avs_temp_base}
use cob_kernel.Printf.{i2a}
use cob_kernel.Printf.Bounds.{i2a-Fits}
use cob_kernel.Printf.Format.{Printed, text, prepend}
use cob_kernel.Printf.Log.{verbosity_debug, log_level, log_info, log_error}
use cob_kernel.Printf.Text.{IsPlain-of_test, tfp_format-plain}
use cob_kernel.Printf.Directives.{tfp_format_int}
use cob_kernel.Temperature.{convert_temp, avs_read32, bcm2712_get_temp}
use cob_kernel.Console.Commands.{temp_texts, get_temp}

convert_temp-lt : (val t : ℕ) → convert_temp val ≡ some t → t < 2 ^ 32
unfolding convert_temp
convert_temp-lt val t e = ground (arith, e)

-- The text of a temperature.
abbrev pub temp_text : List ℕ → List ℕ
temp_text number = bytes "[INFO] console.c: Temperature is currently " ++ number ++ bytes " mC\n\r"

temp_texts-some :
    (t : ℕ) (bf : List ℕ)
    → t < 2 ^ 32
    → i2a t ≡ some bf
    → temp_texts verbosity_debug (some t) ≡ text (temp_text bf) ∷ []
unfolding temp_texts log_info log_level prepend
temp_texts-some t bf lt e =
    let low : t % 2 ^ 32 ≡ t = omega (arith, lt) in
    let front = bytes "[INFO] console.c: Temperature is currently " in
    let back = bytes " mC\n\r" in
    ap (λ p. p ∷ [])
      (tfp_format_int front back bf t [] (IsPlain-of_test front refl) (rw low e)
        ∙ ap (prepend (front ++ bf)) (tfp_format-plain back [] (IsPlain-of_test back refl)))

get_temp-of :
    {D : Type 0} (bus : Bus D) (s : D) (o : Option ℕ)
    → convert_temp (bus.read32 (avs_temp_base + 0x200) s).0 ≡ o
    → get_temp bus verbosity_debug s
      ≡ (temp_texts verbosity_debug o, (bus.read32 (avs_temp_base + 0x200) s).1)
unfolding get_temp bcm2712_get_temp avs_read32
get_temp-of bus s o e =
    ap (λ (x : Option ℕ). (temp_texts verbosity_debug x, (bus.read32 (avs_temp_base + 0x200) s).1))
      e

-- In the build that logs all, `get_temp` reads the sensor once. If the status word is not valid it prints the
-- error, and else the converted temperature in base 10, with its sign.
pub get_temp_lem :
    {D : Type 0} (bus : Bus D) (s : D)
    → let answer = bus.read32 (avs_temp_base + 0x200) s in
      ((convert_temp answer.0 ≡ none)
        × (get_temp bus verbosity_debug s ≡ (
          log_error verbosity_debug "console.c" "Could not read temperature\n\r" [],
          answer.1,
        )))
      ⊎ ((t : ℕ) × (bf : List ℕ) × (convert_temp answer.0 ≡ some t)
          × (i2a t ≡ some bf)
          × (get_temp bus verbosity_debug s ≡ (text (temp_text bf) ∷ [], answer.1)))
unfolding temp_texts
get_temp_lem bus s =
    let answer = bus.read32 (avs_temp_base + 0x200) s in
    elim (Option-cases (convert_temp answer.0)) [
      | inl e ↦ inl (e, get_temp-of bus s none e)
      | inr (t, e) ↦
          let lt = convert_temp-lt answer.0 t e in
          let (bf, number, fits) = i2a-Fits t lt in
          inr (
            t,
            bf,
            e,
            number,
            get_temp-of bus s (some t) e
                ∙ ap (λ (x : List Printed). (x, answer.1)) (temp_texts-some t bf lt number),
          )
    ]
