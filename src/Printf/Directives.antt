-- ===== src/Printf/Directives.antt =====
-- `tfp_format` on single directives behind plain text.
use cob_kernel.Common.{
  ℕ, suc, ◌+◌, ◌%◌, ◌^◌, ◌≤◌, ◌≡◌, ap, ◌∙◌, arith, false, some, List, [], ◌∷◌, ◌++◌, length, All,
}
use cob_kernel.Printf.{char_ge, ui2a, uli2a, i2a}
use cob_kernel.Printf.Format.{
  Arg, word, str, next_char, read_long, read_width, read_directive, put_number, put_string,
  put_directive, prepend, continue_with, format_loop, tfp_format,
}
use cob_kernel.Printf.Text.{
  IsPlain, format_loop-enough, putchw-zero, prepend-append, tfp_format-append,
}

-- A directive of at least one character that takes the arguments `va` to `va'` and prints `bf`.
abbrev Prints : List ℕ → List ℕ → List Arg → List Arg → List ℕ → Type 0
Prints d fmt va va' bf =
    (f : ℕ) → format_loop (suc f) (b'%' ∷ d ++ fmt) va ≡ prepend bf (format_loop f fmt va')

tfp_format-directive :
    (s d fmt bf : List ℕ) (va va' : List Arg)
    → All IsPlain s
    → Prints d fmt va va' bf
    → length fmt ≤ length (d ++ fmt)
    → tfp_format (s ++ (b'%' ∷ d ++ fmt)) va ≡ prepend (s ++ bf) (tfp_format fmt va')
tfp_format-directive s d fmt bf va va' plain prints le =
    tfp_format-append s (b'%' ∷ d ++ fmt) va plain
    ∙ (ap (prepend s) start ∙ prepend-append s bf (tfp_format fmt va'))
  where
    start : tfp_format (b'%' ∷ d ++ fmt) va ≡ prepend bf (tfp_format fmt va')
    start =
        let fuel : length (b'%' ∷ d ++ fmt) + 1 ≡ suc (length (d ++ fmt) + 1) = omega arith in
        unfold tfp_format in
        (ap (λ (f : ℕ). format_loop f (b'%' ∷ d ++ fmt) va) fuel
          ∙ (prints (length (d ++ fmt) + 1)
              ∙ ap (prepend bf) (
                  format_loop-enough (length (d ++ fmt) + 1) (length fmt + 1) fmt va'
                    (omega (arith, le)) (omega arith))))

-- `%x` prints the low half of the register in base 16.
pub tfp_format_hex :
    (s fmt bf : List ℕ) (n : ℕ) (va : List Arg)
    → All IsPlain s
    → ui2a (n % 2 ^ 32) 16 false ≡ some bf
    → tfp_format (s ++ (b'%' ∷ b'x' ∷ fmt)) (word n ∷ va) ≡ prepend (s ++ bf) (tfp_format fmt va)
tfp_format_hex s fmt bf n va plain e =
    tfp_format-directive s (b'x' ∷ []) fmt bf (word n ∷ va) va plain prints (omega arith)
  where
    prints : Prints (b'x' ∷ []) fmt (word n ∷ va) va bf
    prints f =
        unfold format_loop read_directive next_char read_width read_long char_ge put_directive
          put_number continue_with in
        rw e (ap (λ (t : List ℕ). prepend t (format_loop f fmt va)) (putchw-zero bf))

-- `%lx` prints the register in base 16.
pub tfp_format_long_hex :
    (s fmt bf : List ℕ) (n : ℕ) (va : List Arg)
    → All IsPlain s
    → uli2a n 16 false ≡ some bf
    → tfp_format (s ++ (b'%' ∷ b'l' ∷ b'x' ∷ fmt)) (word n ∷ va)
      ≡ prepend (s ++ bf) (tfp_format fmt va)
tfp_format_long_hex s fmt bf n va plain e =
    tfp_format-directive s (b'l' ∷ b'x' ∷ []) fmt bf (word n ∷ va) va plain prints (omega arith)
  where
    prints : Prints (b'l' ∷ b'x' ∷ []) fmt (word n ∷ va) va bf
    prints f =
        unfold format_loop read_directive next_char read_width read_long char_ge put_directive
          put_number continue_with in
        rw e (ap (λ (t : List ℕ). prepend t (format_loop f fmt va)) (putchw-zero bf))

-- `%d` prints the low half of the register in base 10, with its sign.
pub tfp_format_int :
    (s fmt bf : List ℕ) (n : ℕ) (va : List Arg)
    → All IsPlain s
    → i2a (n % 2 ^ 32) ≡ some bf
    → tfp_format (s ++ (b'%' ∷ b'd' ∷ fmt)) (word n ∷ va) ≡ prepend (s ++ bf) (tfp_format fmt va)
tfp_format_int s fmt bf n va plain e =
    tfp_format-directive s (b'd' ∷ []) fmt bf (word n ∷ va) va plain prints (omega arith)
  where
    prints : Prints (b'd' ∷ []) fmt (word n ∷ va) va bf
    prints f =
        unfold format_loop read_directive next_char read_width read_long char_ge put_directive
          put_number continue_with in
        rw e (ap (λ (t : List ℕ). prepend t (format_loop f fmt va)) (putchw-zero bf))

-- `%s` prints the string.
pub tfp_format_string :
    (s fmt t : List ℕ) (va : List Arg)
    → All IsPlain s
    → tfp_format (s ++ (b'%' ∷ b's' ∷ fmt)) (str t ∷ va) ≡ prepend (s ++ t) (tfp_format fmt va)
tfp_format_string s fmt t va plain =
    tfp_format-directive s (b's' ∷ []) fmt t (str t ∷ va) va plain prints (omega arith)
  where
    prints : Prints (b's' ∷ []) fmt (str t ∷ va) va t
    prints f =
        unfold format_loop read_directive next_char read_width read_long char_ge put_directive
          put_string continue_with in
        ap (λ (u : List ℕ). prepend u (format_loop f fmt va)) (putchw-zero t)
