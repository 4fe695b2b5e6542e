-- ===== src/Printf/Pad.antt =====
-- What `tfp_format` prints: fields of a width, plain text, and directives for numbers.
use cob_kernel.Common.{
  ℕ, zero, suc, ◌+◌, ◌-◌, ◌*◌, ◌%◌, ◌^◌, ◌≤◌, ◌<◌, ◌≡◌, ◌≢◌, refl, ap, ◌∙◌, arith, Bool, true,
  false, ◌&&◌, Option, none, some, List, [], ◌∷◌, ◌++◌, length, replicate, length-append, ltb, leb,
  if◌then◌else◌, Bool-cases, inl, inr,
}
use cob_kernel.Printf.{char_ge}
use cob_kernel.Printf.Format.{
  Arg, a2d, next_char, a2i_round, a2i, pad_left, putchw, read_long, read_width, read_directive,
  put_directive, Printed, text, bad_argument, out_of_fuel, prepend, continue_with, format_loop,
  tfp_format,
}

pub pad_left_lem : (bf : List ℕ) (n : ℕ) → pad_left bf n ≡ n - length bf
unfolding pad_left
pad_left_lem [] n = omega arith
pad_left_lem (c ∷ bf) zero = omega arith
pad_left_lem (c ∷ bf) (suc n) = omega (arith, pad_left_lem bf n)

length-replicate : (n a : ℕ) → length (replicate n a) ≡ n
length-replicate zero a = refl
length-replicate (suc n) a = ap suc (length-replicate n a)

-- A field is the text behind as many fill characters as the width has room for: with a width that is a
-- positive `int`, its length is the larger of the width and the text's length.
putchw_lem :
    (n : ℕ) (z : Bool) (bf : List ℕ)
    → n < 2 ^ 31
    → (putchw n z bf ≡ replicate (n - length bf) (if z then b'0' else b' ') ++ bf)
      × (length (putchw n z bf) ≡ length bf + (n - length bf))
unfolding putchw
putchw_lem n z bf small =
    let fill : List ℕ = replicate (n - length bf) (if z then b'0' else b' ') in
    let e : putchw n z bf ≡ fill ++ bf = ground (arith, pad_left_lem bf n) in
    (
      e,
      ap length e
          ∙ (length-append fill bf
              ∙ omega (arith, length-replicate (n - length bf) (if z then b'0' else b' '))),
    )

-- What holds where the loop stops and where it goes on holds of its result.
a2i_round_ind :
    {A : Type 0} (P : A → Type 0) (base : ℕ) (o : Option ℕ) (stop : A) (next : ℕ → A)
    → P stop
    → ((digit : ℕ) → P (next digit))
    → P (a2i_round base o stop next)
unfolding a2i_round
a2i_round_ind P base none stop next p q = p
a2i_round_ind P base (some digit) stop next p q = elim (Bool-cases (ltb base digit)) [
  | inl e ↦ rw e p
  | inr e ↦ rw e (q digit)
]

a2i-shorter : (ch : ℕ) (s : List ℕ) (base num : ℕ) → length (a2i ch s base num).1 ≤ length s
unfolding a2i
a2i-shorter ch [] base num =
    a2i_round_ind (λ (r : ℕ × List ℕ × ℕ). length r.1 ≤ 0) base (a2d ch) _ _ (omega arith)
      (λ digit. omega arith)
a2i-shorter ch (c ∷ s) base num =
    a2i_round_ind (λ (r : ℕ × List ℕ × ℕ). length r.1 ≤ suc (length s)) base (a2d ch) _ _
      (omega arith)
      (λ digit. let shorter = a2i-shorter c s base ((num * base + digit) % 2 ^ 32) in omega arith)

next_char-shorter : (s : List ℕ) → length (next_char s).1 ≤ length s
unfolding next_char
next_char-shorter [] = omega arith
next_char-shorter (c ∷ s) = omega arith

read_long-shorter :
    (lz : Bool) (ch : ℕ) (fmt : List ℕ) (w : ℕ)
    → length (read_long lz (ch, fmt, w)).rest ≤ length fmt
unfolding read_long
read_long-shorter lz ch fmt w = ground (arith, next_char-shorter fmt)

read_width-shorter :
    (lz : Bool) (ch : ℕ) (fmt : List ℕ) → length (read_width lz (ch, fmt)).rest ≤ length fmt
unfolding read_width
read_width-shorter lz ch fmt = elim (Bool-cases (char_ge ch b'0' && leb ch b'9')) [
  | inl digit ↦ rw digit (
      let (ch', fmt', w) = a2i ch fmt 10 0 in
      omega (arith, read_long-shorter lz ch' fmt' w, a2i-shorter ch fmt 10 0))
  | inr other ↦ rw other (read_long-shorter lz ch fmt 0)
]

-- A directive leaves no more text than stood behind its `%`.
pub read_directive-shorter : (fmt : List ℕ) → length (read_directive fmt).rest ≤ length fmt
unfolding read_directive
read_directive-shorter fmt =
    let (ch, s) = next_char fmt in
    let (ch', s') = next_char s in
    ground (
      arith,
      read_width-shorter true ch' s',
      read_width-shorter false ch s,
      next_char-shorter fmt,
      next_char-shorter s,
    )

prepend-fuel : (s : List ℕ) (p : Printed) → p ≢ out_of_fuel → prepend s p ≢ out_of_fuel
unfolding prepend
prepend-fuel s (text t) h = λ e. cc
prepend-fuel s bad_argument h = λ e. cc
prepend-fuel s out_of_fuel h = absurd (h refl)

continue_with-fuel :
    (o : Option (List ℕ × List Arg)) (next : List Arg → Printed)
    → ((va : List Arg) → next va ≢ out_of_fuel)
    → continue_with o next ≢ out_of_fuel
unfolding continue_with
continue_with-fuel none next h = λ e. cc
continue_with-fuel (some (s, va)) next h = prepend-fuel s (next va) (h va)

format_loop-fuel :
    (fuel : ℕ) (fmt : List ℕ) (va : List Arg)
    → length fmt < fuel
    → format_loop fuel fmt va ≢ out_of_fuel
unfolding format_loop
format_loop-fuel zero fmt va lt = absurd (omega arith)
format_loop-fuel (suc fuel) [] va lt = λ e. cc
format_loop-fuel (suc fuel) (ch ∷ fmt) va lt = ground (
  arith,
  prepend-fuel (ch ∷ []) (format_loop fuel fmt va) (format_loop-fuel fuel fmt va (omega arith)),
  continue_with-fuel (put_directive (read_directive fmt) va)
      (λ va'. format_loop fuel (read_directive fmt).rest va')
      (λ va'.
        format_loop-fuel fuel (read_directive fmt).rest va'
          (omega (arith, read_directive-shorter fmt))),
)

-- `tfp_format` ends on every text and all arguments: each round takes a character at least.
tfp_format-ends : (fmt : List ℕ) (va : List Arg) → tfp_format fmt va ≢ out_of_fuel
unfolding tfp_format
tfp_format-ends fmt va = format_loop-fuel (length fmt + 1) fmt va (omega arith)
