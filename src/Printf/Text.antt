-- ===== src/Printf/Text.antt =====
-- `tfp_format` on plain text, and on directives for a `long`.
use mathlib.Core.Path.{fun_ext}
use cob_kernel.Common.{
  ℕ, zero, suc, ◌+◌, ◌^◌, ◌<◌, ◌≡◌, ◌≢◌, refl, ap, sym, ◌∙◌, arith, Bool, true, false, not, ◌&&◌,
  ◌==◌, append-nil, some, List, [], ◌∷◌, ◌++◌, append_assoc, length, All, ==-of_ne,
}
use cob_kernel.Printf.{char_ge, li2a, strtol}
use cob_kernel.Printf.Scan.{strtol-li2a}
use cob_kernel.Printf.Format.{
  Arg, word, next_char, pad_left, putchw, read_long, read_width, read_directive, put_number,
  put_directive, Printed, text, bad_argument, out_of_fuel, prepend, continue_with, format_loop,
  tfp_format, tfp_sprintf, terminate,
}
use cob_kernel.Printf.Pad.{pad_left_lem, read_directive-shorter}

pub format_loop-enough :
    (f g : ℕ) (fmt : List ℕ) (va : List Arg)
    → length fmt < f
    → length fmt < g
    → format_loop f fmt va ≡ format_loop g fmt va
unfolding format_loop
format_loop-enough zero g fmt va p q = absurd (omega arith)
format_loop-enough (suc f) zero fmt va p q = absurd (omega arith)
format_loop-enough (suc f) (suc g) [] va p q = refl
format_loop-enough (suc f) (suc g) (ch ∷ fmt) va p q =
    let same = format_loop-enough f g fmt va (omega arith) (omega arith) in
    let shorter = read_directive-shorter fmt in
    let behind : format_loop f (read_directive fmt).rest ≡ format_loop g (read_directive fmt).rest =
      fun_ext
        (λ va'. format_loop-enough f g (read_directive fmt).rest va' (omega arith) (omega arith)) in
    rw (same, behind)

-- A character that `tfp_format` copies.
abbrev pub IsPlain : ℕ → Type 0
IsPlain c = (c ≢ 0) × (c ≢ b'%')

-- `IsPlain` of every character, as a test.
abbrev pub all_plain : List ℕ → Bool
all_plain [] = true
all_plain (c ∷ s) = not (c == 0) && not (c == b'%') && all_plain s

pub IsPlain-of_test : (s : List ℕ) → all_plain s ≡ true → All IsPlain s
IsPlain-of_test [] e = tt
IsPlain-of_test (c ∷ s) e =
    ((λ z. ground (arith, e, z), λ z. ground (arith, e, z)), IsPlain-of_test s (ground (arith, e)))

prepend-nil : (p : Printed) → prepend [] p ≡ p
unfolding prepend
prepend-nil (text t) = refl
prepend-nil bad_argument = refl
prepend-nil out_of_fuel = refl

pub putchw-zero : (bf : List ℕ) → putchw 0 false bf ≡ bf
unfolding putchw
putchw-zero bf = let e : pad_left bf 0 ≡ 0 = omega (arith, pad_left_lem bf 0) in rw e

pub prepend-append : (s t : List ℕ) (p : Printed) → prepend s (prepend t p) ≡ prepend (s ++ t) p
unfolding prepend
prepend-append s t (text u) = ap text (sym (append_assoc s t u))
prepend-append s t bad_argument = refl
prepend-append s t out_of_fuel = refl

format_loop-plain :
    (f c : ℕ) (fmt : List ℕ) (va : List Arg)
    → IsPlain c
    → format_loop (suc f) (c ∷ fmt) va ≡ prepend (c ∷ []) (format_loop f fmt va)
unfolding format_loop
format_loop-plain f c fmt va (nz, np) = rw (==-of_ne c 0 nz, ==-of_ne c b'%' np)

-- Text without NUL and `%` is copied, whatever follows it.
pub tfp_format-append :
    (s fmt : List ℕ) (va : List Arg)
    → All IsPlain s
    → tfp_format (s ++ fmt) va ≡ prepend s (tfp_format fmt va)
unfolding tfp_format
tfp_format-append [] fmt va plain = sym (prepend-nil (tfp_format fmt va))
tfp_format-append (c ∷ s) fmt va (plain, rest) =
    let e : suc (length (s ++ fmt)) + 1 ≡ suc (length (s ++ fmt) + 1) = omega arith in
    rw (e, format_loop-plain _ c (s ++ fmt) va plain, tfp_format-append s fmt va rest)
      (prepend-append (c ∷ []) s _)

format_loop-long :
    (f n : ℕ) (bf fmt : List ℕ) (va : List Arg)
    → li2a n ≡ some bf
    → format_loop (suc f) (b'%' ∷ b'l' ∷ b'd' ∷ fmt) (word n ∷ va)
      ≡ prepend bf (format_loop f fmt va)
unfolding format_loop read_directive next_char read_width read_long char_ge put_directive put_number
    continue_with
format_loop-long f n bf fmt va e =
    rw e (ap (λ (t : List ℕ). prepend t (format_loop f fmt va)) (putchw-zero bf))

-- `%ld` behind plain text prints the decimal digits that `strtol` reads back as the argument, and goes on
-- with the rest of the text and of the arguments.
pub tfp_format_long :
    (s fmt : List ℕ) (n : ℕ) (va : List Arg)
    → All IsPlain s
    → n < 2 ^ 64
    → (bf : List ℕ) × (tfp_format (s ++ (b'%' ∷ b'l' ∷ b'd' ∷ fmt)) (word n ∷ va)
        ≡ prepend (s ++ bf) (tfp_format fmt va))
      × (strtol bf 10 ≡ n)
tfp_format_long s fmt n va plain fits =
    let (bf, e, read) = strtol-li2a n fits in
    (
      bf,
      tfp_format-append s (b'%' ∷ b'l' ∷ b'd' ∷ fmt) (word n ∷ va) plain
          ∙ (ap (prepend s) (start bf e) ∙ prepend-append s bf (tfp_format fmt va)),
      read,
    )
  where
    start :
        (bf : List ℕ)
        → li2a n ≡ some bf
        → tfp_format (b'%' ∷ b'l' ∷ b'd' ∷ fmt) (word n ∷ va) ≡ prepend bf (tfp_format fmt va)
    start bf e =
        let fuel : length (b'%' ∷ b'l' ∷ b'd' ∷ fmt) + 1 ≡ suc (length fmt + 3) = omega arith in
        unfold tfp_format in
        (ap (λ (f : ℕ). format_loop f (b'%' ∷ b'l' ∷ b'd' ∷ fmt) (word n ∷ va)) fuel
          ∙ (format_loop-long (length fmt + 3) n bf fmt va e
              ∙ ap (prepend bf) (
                  format_loop-enough (length fmt + 3) (length fmt + 1) fmt va (omega arith)
                    (omega arith))))

-- Plain text alone is copied.
pub tfp_format-plain : (s : List ℕ) (va : List Arg) → All IsPlain s → tfp_format s va ≡ text s
unfolding tfp_format format_loop prepend
tfp_format-plain s va plain =
    let e : s ++ [] ≡ s = append-nil s in
    ap (λ (t : List ℕ). tfp_format t va) (sym e) ∙ (tfp_format-append s [] va plain ∙ ap text e)

-- `sprintf` writes what `printf` prints, and a NUL.
pub tfp_sprintf_lem :
    (fmt t : List ℕ) (va : List Arg)
    → tfp_format fmt va ≡ text t
    → tfp_sprintf fmt va ≡ text (t ++ (0 ∷ []))
unfolding tfp_sprintf terminate
tfp_sprintf_lem fmt t va e = ap terminate e
