-- ===== src/KernelInfo/Numbers.antt =====
-- Texts with a number, read back from its digits.
use Prim.Native.String.{String}
use cob_kernel.Common.{ℕ, ◌%◌, ◌^◌, ◌<◌, ◌≡◌, ap, ◌∙◌, arith, true, false, List, [], ◌∷◌, ◌++◌, All}
use cob_kernel.Common.Bytes.{bytes}
use cob_kernel.Printf.{strtol}
use cob_kernel.Printf.Scan.{strtol-uli2a, strtol-ui2a, strtol-i2a, long_of}
use cob_kernel.Printf.Format.{Printed, text, prepend, tfp_format}
use cob_kernel.Printf.Text.{all_plain, IsPlain-of_test, tfp_format-plain}
use cob_kernel.Printf.Directives.{tfp_format_hex, tfp_format_long_hex, tfp_format_int}
use cob_kernel.KernelInfo.Print.{line, line_of}

-- A `printf` that comes to an end with a text.
abbrev pub IsText : Printed → Type 0
IsText p = (t : List ℕ) × (p ≡ text t)

pub line-IsText : (fmt : String) → all_plain (bytes fmt) ≡ true → IsText (line fmt)
unfolding line
line-IsText fmt plain =
    (bytes fmt, tfp_format-plain (bytes fmt) [] (IsPlain-of_test (bytes fmt) plain))

-- A number in a report: the base it is printed in, and the texts around it.
pub record Number : Type 0 where
  pub base : ℕ
  pub before : String
  pub value : ℕ
  pub after : String

-- A text that has the number between the two texts: `strtol` reads it back from its digits.
abbrev pub Shows : Number → Printed → Type 0
Shows n p =
    (digits : List ℕ) × (p ≡ text ((bytes n.before ++ digits) ++ bytes n.after))
    × (strtol digits n.base ≡ n.value)

-- The numbers of a report, in this order, with other texts between them.
pub data Reports : List Number → List Printed → Type 0 where
  end_of_report : Reports [] []
  other :
      {ns : List Number} {p : Printed} {ps : List Printed}
      → IsText p
      → Reports ns ps
      → Reports ns (p ∷ ps)
  shown :
      {n : Number} {ns : List Number} {p : Printed} {ps : List Printed}
      → Shows n p
      → Reports ns ps
      → Reports (n ∷ ns) (p ∷ ps)

pub Reports-append :
    {ns : List Number} {qs : List Printed} (ps : List Printed)
    → All IsText ps
    → Reports ns qs
    → Reports ns (ps ++ qs)
Reports-append [] texts r = r
Reports-append (p ∷ ps) (t, texts) r = other t (Reports-append ps texts r)

-- A number of 64 bits in hex, one of 32 bits in hex, and an `int`.
abbrev pub long_hex : String → ℕ → Number
long_hex before n = record { base = 16; before = before; value = n; after = "\n\r" }

abbrev pub hex : String → ℕ → Number
hex before n = record { base = 16; before = before; value = n % 2 ^ 32; after = "\n\r" }

abbrev pub int : String → ℕ → String → Number
int before n after = record {
  base = 10;
  before = before;
  value = long_of (n % 2 ^ 32);
  after = after;
}

-- A text with one argument, from the text before the directive and the one behind it.
module _ (before after : String) (plain : all_plain (bytes before) ≡ true)
    (plain' : all_plain (bytes after) ≡ true) where
  around :
      (p : Printed) (digits : List ℕ)
      → p ≡ prepend (bytes before ++ digits) (tfp_format (bytes after) [])
      → p ≡ text ((bytes before ++ digits) ++ bytes after)
  unfolding prepend
  around p digits e =
      e
      ∙ ap (prepend (bytes before ++ digits))
          (tfp_format-plain (bytes after) [] (IsPlain-of_test (bytes after) plain'))

  pub line_of-long_hex :
      (fmt : String) (n : ℕ)
      → bytes fmt ≡ bytes before ++ (b'%' ∷ b'l' ∷ b'x' ∷ bytes after)
      → n < 2 ^ 64
      → Shows (record { base = 16; before = before; value = n; after = after }) (line_of fmt n)
  unfolding line_of
  line_of-long_hex fmt n e lt =
      let (bf, digits, read) = strtol-uli2a 16 (omega arith) (omega arith) n false lt in
      rw e (
        bf,
        around _ bf (
            tfp_format_long_hex (bytes before) (bytes after) bf n []
              (IsPlain-of_test (bytes before) plain) digits),
        read,
      )

  pub line_of-hex :
      (fmt : String) (n : ℕ)
      → bytes fmt ≡ bytes before ++ (b'%' ∷ b'x' ∷ bytes after)
      → Shows
          (record { base = 16; before = before; value = n % 2 ^ 32; after = after })
          (line_of fmt n)
  unfolding line_of
  line_of-hex fmt n e =
      let (bf, digits, read) =
        strtol-ui2a 16 (omega arith) (omega arith) (n % 2 ^ 32) false (omega arith) in
      rw e (
        bf,
        around _ bf (
            tfp_format_hex (bytes before) (bytes after) bf n []
              (IsPlain-of_test (bytes before) plain) digits),
        read,
      )

  pub line_of-int :
      (fmt : String) (n : ℕ)
      → bytes fmt ≡ bytes before ++ (b'%' ∷ b'd' ∷ bytes after)
      → Shows (int before n after) (line_of fmt n)
  unfolding line_of
  line_of-int fmt n e =
      let (bf, digits, read) = strtol-i2a (n % 2 ^ 32) (omega arith) in
      rw e (
        bf,
        around _ bf (
            tfp_format_int (bytes before) (bytes after) bf n []
              (IsPlain-of_test (bytes before) plain) digits),
        read,
      )
