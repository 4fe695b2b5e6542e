-- ===== src/Psci/Buffer.antt =====
-- The texts of `get_core_state` and its buffer of 64 bytes.
use Prim.Native.String.{String}
use mathlib.Core.Option.{some-injective}
use cob_kernel.Common.{
  ℕ, suc, ◌%◌, ◌^◌, ◌≤◌, ◌≡◌, ◌≢◌, refl, sym, ap, ◌∙◌, arith, false, some, List, [], ◌∷◌, ◌++◌,
  length, length-append, map, All, All-append, ◌==◌, if◌then◌else◌, ==-of_ne,
}
use cob_kernel.Common.Bytes.{bytes}
use cob_kernel.Printf.{digit_char, ui2a, char_ge}
use cob_kernel.Printf.Scan.{digit_char-ge}
use cob_kernel.Printf.Emit.{word_to_ascii_lem}
use cob_kernel.Printf.Bounds.{ui2a-Fits_hex}
use cob_kernel.Printf.Format.{
  word, str, text, bad_argument, prepend, tfp_format, tfp_sprintf, format_loop, terminate,
  read_directive, next_char, read_width, read_long, put_directive, put_string, continue_with,
}
use cob_kernel.Printf.Text.{IsPlain, IsPlain-of_test, tfp_format-plain, tfp_sprintf_lem}
use cob_kernel.Printf.Digits.{fixed}
use cob_kernel.Printf.Directives.{tfp_format_hex, tfp_format_string}
use cob_kernel.Psci.Print.{string_in, sprintf_behind, core_state_buf}

-- A string ends at the NUL that `sprintf` writes behind it.
string_in-nul : (t : List ℕ) → All (λ c. c ≢ 0) t → string_in (t ++ (0 ∷ [])) ≡ t
unfolding string_in
string_in-nul [] nz = refl
string_in-nul (c ∷ t) (nz, rest) = rw (==-of_ne c 0 nz) (ap (◌∷◌ c) (string_in-nul t rest))

digits-not_nul : (ds : List ℕ) → All (λ c. c ≢ 0) (map (digit_char false) ds)
digits-not_nul [] = tt
digits-not_nul (d ∷ ds) = (λ e. omega (arith, e, digit_char-ge d false), digits-not_nul ds)

-- The text of a number in base 16: no NUL, and at most eight digits.
record Hex (n : ℕ) (bf : List ℕ) : Type 0 where
  prints : ui2a (n % 2 ^ 32) 16 false ≡ some bf
  not_nul : All (λ c. c ≢ 0) bf
  short : length bf ≤ 8

hex : (n : ℕ) → (bf : List ℕ) × Hex n bf
unfolding ui2a
hex n =
    let (k, e, below, lead) =
      word_to_ascii_lem (2 ^ 32) 16 (n % 2 ^ 32) false (omega arith) (omega arith) (omega arith) in
    let (bf, e', fits) = ui2a-Fits_hex (n % 2 ^ 32) false (omega arith) in
    let same = some-injective _ _ (sym e' ∙ e) in
    (
      bf,
      record {
        prints = e';
        not_nul = rw same (digits-not_nul (fixed 16 (suc k) (n % 2 ^ 32)));
        short = omega (arith, fits);
      },
    )

-- The second `sprintf`.
sprintf_behind-tail :
    (t : List ℕ) (fmt : String) (tail : List ℕ)
    → All (λ c. c ≢ 0) t
    → bytes fmt ≡ b'%' ∷ b's' ∷ tail
    → All IsPlain tail
    → sprintf_behind (text (t ++ (0 ∷ []))) fmt ≡ text (t ++ tail ++ (0 ∷ []))
unfolding sprintf_behind prepend
sprintf_behind-tail t fmt tail nz e plain =
    let both : tfp_format (b'%' ∷ b's' ∷ tail) (str t ∷ []) ≡ text (t ++ tail) =
      tfp_format_string [] tail t [] tt ∙ ap (prepend t) (tfp_format-plain tail [] plain) in
    rw (string_in-nul t nz, e) (tfp_sprintf_lem (b'%' ∷ b's' ∷ tail) (t ++ tail) (str t ∷ []) both)

-- The text of the first `sprintf`.
abbrev pub cpu_text : List ℕ → List ℕ → List ℕ
cpu_text cluster core = (bytes "CPU " ++ cluster) ++ (bytes ":" ++ core ++ bytes " ")

cpu_text_lem :
    (cluster core : ℕ) (l c : List ℕ)
    → Hex cluster l
    → Hex core c
    → tfp_sprintf (bytes "CPU %x:%x ") (word cluster ∷ word core ∷ [])
      ≡ text (cpu_text l c ++ (0 ∷ []))
unfolding prepend
cpu_text_lem cluster core l c hl hc =
    let last : tfp_format (bytes " ") [] ≡ text (bytes " ") =
      tfp_format-plain (bytes " ") [] (IsPlain-of_test (bytes " ") refl) in
    let second : tfp_format (bytes ":%x ") (word core ∷ []) ≡ text (bytes ":" ++ c ++ bytes " ") =
      tfp_format_hex (bytes ":") (bytes " ") c core [] (IsPlain-of_test (bytes ":") refl) hc.prints
      ∙ ap (prepend (bytes ":" ++ c)) last in
    let first : tfp_format (bytes "CPU %x:%x ") (word cluster ∷ word core ∷ [])
        ≡ text (cpu_text l c) =
      tfp_format_hex (bytes "CPU ") (bytes ":%x ") l cluster (word core ∷ [])
        (IsPlain-of_test (bytes "CPU ") refl) hl.prints
      ∙ ap (prepend (bytes "CPU " ++ l)) second in
    tfp_sprintf_lem (bytes "CPU %x:%x ") (cpu_text l c) (word cluster ∷ word core ∷ []) first

not_nul-of_plain : (s : List ℕ) → All IsPlain s → All (λ c. c ≢ 0) s
not_nul-of_plain [] plain = tt
not_nul-of_plain (c ∷ s) ((nz, np), rest) = (nz, not_nul-of_plain s rest)

cpu_text-not_nul :
    (l c : List ℕ) → All (λ c. c ≢ 0) l → All (λ c. c ≢ 0) c → All (λ c. c ≢ 0) (cpu_text l c)
cpu_text-not_nul l c hl hc =
    let ok = λ (s : List ℕ). not_nul-of_plain s in
    All-append _ (bytes "CPU " ++ l) (bytes ":" ++ c ++ bytes " ")
      (All-append _ (bytes "CPU ") l (ok (bytes "CPU ") (IsPlain-of_test (bytes "CPU ") refl)) hl)
      (All-append _ (bytes ":" ++ c) (bytes " ")
        (All-append _ (bytes ":") c (ok (bytes ":") (IsPlain-of_test (bytes ":") refl)) hc)
        (ok (bytes " ") (IsPlain-of_test (bytes " ") refl)))

cpu_text-length : (l c : List ℕ) → length l ≤ 8 → length c ≤ 8 → length (cpu_text l c) ≤ 22
cpu_text-length l c hl hc = omega (
  arith,
  hl,
  hc,
  length-append (bytes "CPU " ++ l) (bytes ":" ++ c ++ bytes " "),
  length-append (bytes "CPU ") l,
  length-append (bytes ":" ++ c) (bytes " "),
  length-append (bytes ":") c,
)

-- The end of the text for an answer other than 0.
abbrev pub state_text : ℕ → List ℕ
state_text ret =
    if ret == 2
    then bytes "ON_PENDING \n\r"
    else if ret == 1
    then bytes "OFF \n\r"
    else bytes "INVALID PSCI COMMAND \n\r"

state_text-length : (ret : ℕ) → length (state_text ret) ≤ 24
state_text-length ret = ground arith

buf-behind :
    (ret core cluster : ℕ) (t : List ℕ)
    → ret ≢ 0
    → tfp_sprintf (bytes "CPU %x:%x ") (word cluster ∷ word core ∷ []) ≡ text (t ++ (0 ∷ []))
    → All (λ c. c ≢ 0) t
    → core_state_buf ret core cluster ≡ text (t ++ state_text ret ++ (0 ∷ []))
unfolding core_state_buf
buf-behind ret core cluster t nz e not_nul =
    let behind = λ (fmt : String) (tail : List ℕ). sprintf_behind-tail t fmt tail not_nul in
    rw e (
      ground (
        arith,
        behind "%sON_PENDING \n\r" (bytes "ON_PENDING \n\r") refl
            (IsPlain-of_test (bytes "ON_PENDING \n\r") refl),
        behind "%sOFF \n\r" (bytes "OFF \n\r") refl (IsPlain-of_test (bytes "OFF \n\r") refl),
        behind "%sINVALID PSCI COMMAND \n\r" (bytes "INVALID PSCI COMMAND \n\r") refl
            (IsPlain-of_test (bytes "INVALID PSCI COMMAND \n\r") refl),
      ))

on-bad_argument : (core cluster : ℕ) → core_state_buf 0 core cluster ≡ bad_argument
unfolding core_state_buf tfp_sprintf terminate tfp_format format_loop read_directive next_char
    read_width read_long char_ge put_directive put_string continue_with
on-bad_argument core cluster = refl

-- For an answer other than 0, `get_core_state` writes the two numbers in base 16 and the name of the
-- state into its buffer, and all of it fits the 64 bytes, whatever the numbers are. For a core that is on, the
-- answer 0, the format reads an argument that is not there.
pub core_state_buf_lem :
    (ret core cluster : ℕ)
    → ((ret ≡ 0) → core_state_buf ret core cluster ≡ bad_argument)
      × ((ret ≢ 0)
          → (l c : List ℕ) × (ui2a (cluster % 2 ^ 32) 16 false ≡ some l)
            × (ui2a (core % 2 ^ 32) 16 false ≡ some c)
            × (core_state_buf ret core cluster ≡ text (cpu_text l c ++ state_text ret ++ (0 ∷ [])))
            × (length (cpu_text l c ++ state_text ret ++ (0 ∷ [])) ≤ 64))
core_state_buf_lem ret core cluster =
    (λ e. ap (λ (r : ℕ). core_state_buf r core cluster) e ∙ on-bad_argument core cluster, other)
  where
    other :
        ret ≢ 0
        → (l c : List ℕ) × (ui2a (cluster % 2 ^ 32) 16 false ≡ some l)
          × (ui2a (core % 2 ^ 32) 16 false ≡ some c)
          × (core_state_buf ret core cluster ≡ text (cpu_text l c ++ state_text ret ++ (0 ∷ [])))
          × (length (cpu_text l c ++ state_text ret ++ (0 ∷ [])) ≤ 64)
    other nz =
        let (l, hl) = hex cluster in
        let (c, hc) = hex core in
        let t = cpu_text l c in
        (
          l,
          c,
          hl.prints,
          hc.prints,
          buf-behind ret core cluster t nz (cpu_text_lem cluster core l c hl hc)
              (cpu_text-not_nul l c hl.not_nul hc.not_nul),
          omega (
            arith,
            cpu_text-length l c hl.short hc.short,
            state_text-length ret,
            length-append t (state_text ret),
            length-append (t ++ state_text ret) (0 ∷ []),
          ),
        )
