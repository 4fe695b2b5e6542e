-- ===== src/Printf/Bounds.antt =====
-- The buffer `bf` of `tfp_format`, which the texts of the numbers are written to with a NUL behind them.
use native.Mathlib.Nat.{pow-le-pow_right}
use cob_kernel.Common.{
  ℕ, zero, suc, ◌-◌, ◌%◌, ◌^◌, ◌≤◌, ◌<◌, ◌≡◌, ◌⊎◌, inl, inr, refl, ap, arith, Bool, false, Option,
  some, List, [], ◌∷◌, length, map, dec_le, leb, Bool-cases, ◌>>=◌,
}
use cob_kernel.Printf.{word_to_ascii, digit_char, uli2a, ui2a, li2a, i2a}
use cob_kernel.Printf.Digits.{fixed}
use cob_kernel.Printf.Emit.{word_to_ascii_lem}

-- `ITOA_BF_SIZE` with and without PRINTF_LONG_SUPPORT.
abbrev pub itoa_bf_size : ℕ
itoa_bf_size = 24

abbrev pub itoa_bf_size_short : ℕ
itoa_bf_size_short = 12

-- A text is written, and fits a buffer of the given size with its NUL.
abbrev pub Fits : ℕ → Option (List ℕ) → Type 0
Fits size o = (bf : List ℕ) × (o ≡ some bf) × (length bf < size)

length-map : {A B : Type 0} (f : A → B) (xs : List A) → length (map f xs) ≡ length xs
length-map f [] = refl
length-map f (x ∷ xs) = ap suc (length-map f xs)

length-fixed : (base k num : ℕ) → length (fixed base k num) ≡ k
unfolding fixed
length-fixed base zero num = refl
length-fixed base (suc k) num = ap suc (length-fixed base k (num % base ^ k))

-- A number below a power of the base has at most that many digits.
word_to_ascii-Fits :
    (word base num size : ℕ) (uc : Bool)
    → 2 ≤ base
    → num < word
    → word ≤ 2 ^ 64
    → num < base ^ suc size
    → Fits (suc (suc size)) (word_to_ascii word num base uc)
word_to_ascii-Fits word base num size uc two lt w small =
    let (k, e, below, lead) = word_to_ascii_lem word base num uc two lt w in
    (
      map (digit_char uc) (fixed base (suc k) num),
      e,
      omega (
        arith,
        length-map (digit_char uc) (fixed base (suc k) num),
        length-fixed base (suc k) num,
        digits k lead,
      ),
    )
  where
    digits : (k : ℕ) → (k ≡ 0) ⊎ (base ^ k ≤ num) → k ≤ size
    digits k (inl e) = omega (arith, e)
    digits k (inr le') = elim (dec_le k size) [
      | yes p ↦ p
      | no q ↦
          let grows : base ^ suc size ≤ base ^ k =
            pow-le-pow_right {n = base} (omega (arith, two)) (omega (arith, q)) in
          absurd (omega (arith, le', small, grows))
    ]

Fits-le : (small big : ℕ) (o : Option (List ℕ)) → small ≤ big → Fits small o → Fits big o
Fits-le small big o le (bf, e, fits) = (bf, e, omega (arith, le, fits))

-- A sign in front of a text.
minus-Fits :
    (size : ℕ) (o : Option (List ℕ))
    → Fits size o
    → Fits (suc size) (o >>= (λ bf. some (b'-' ∷ bf)))
minus-Fits size o (bf, e, fits) = (b'-' ∷ bf, rw e refl, omega (arith, fits))

uli2a-Fits : (v : ℕ) → v < 2 ^ 64 → Fits 21 (uli2a v 10 false)
unfolding uli2a
uli2a-Fits v lt =
    word_to_ascii-Fits (2 ^ 64) 10 v 19 false (omega arith) lt (omega arith) (omega (arith, lt))

ui2a-Fits : (v : ℕ) → v < 2 ^ 32 → Fits 11 (ui2a v 10 false)
unfolding ui2a
ui2a-Fits v lt =
    word_to_ascii-Fits (2 ^ 32) 10 v 9 false (omega arith) lt (omega arith) (omega (arith, lt))

pub uli2a-Fits_hex : (v : ℕ) (uc : Bool) → v < 2 ^ 64 → Fits 17 (uli2a v 16 uc)
unfolding uli2a
uli2a-Fits_hex v uc lt =
    word_to_ascii-Fits (2 ^ 64) 16 v 15 uc (omega arith) lt (omega arith) (omega (arith, lt))

pub ui2a-Fits_hex : (v : ℕ) (uc : Bool) → v < 2 ^ 32 → Fits 9 (ui2a v 16 uc)
unfolding ui2a
ui2a-Fits_hex v uc lt =
    word_to_ascii-Fits (2 ^ 32) 16 v 7 uc (omega arith) lt (omega arith) (omega (arith, lt))

li2a-Fits : (v : ℕ) → v < 2 ^ 64 → Fits 22 (li2a v)
unfolding li2a
li2a-Fits v lt = elim (Bool-cases (leb (2 ^ 63) v)) [
  | inl neg ↦ rw neg (minus-Fits 21 _ (uli2a-Fits ((2 ^ 64 - v) % 2 ^ 64) (omega arith)))
  | inr nonneg ↦ rw nonneg (Fits-le 21 22 _ (omega arith) (uli2a-Fits v lt))
]

pub i2a-Fits : (v : ℕ) → v < 2 ^ 32 → Fits 12 (i2a v)
unfolding i2a
i2a-Fits v lt = elim (Bool-cases (leb (2 ^ 31) v)) [
  | inl neg ↦ rw neg (minus-Fits 11 _ (ui2a-Fits ((2 ^ 32 - v) % 2 ^ 32) (omega arith)))
  | inr nonneg ↦ rw nonneg (Fits-le 11 12 _ (omega arith) (ui2a-Fits v lt))
]

-- No number overruns the buffer: for every register, the texts of its `long` in base 10, with and without a
-- sign, and in base 16 fit the 24 bytes of `bf` with their NUL, and those of its low half as an `int` fit
-- the 12 bytes that `bf` has without PRINTF_LONG_SUPPORT.
pub numbers_fit :
    (v : ℕ) (uc : Bool)
    → v < 2 ^ 64
    → Fits itoa_bf_size (uli2a v 10 false)
      × Fits itoa_bf_size (li2a v)
      × Fits itoa_bf_size (uli2a v 16 uc)
      × Fits itoa_bf_size_short (ui2a (v % 2 ^ 32) 10 false)
      × Fits itoa_bf_size_short (i2a (v % 2 ^ 32))
      × Fits itoa_bf_size_short (ui2a (v % 2 ^ 32) 16 uc)
numbers_fit v uc lt = (
  Fits-le 21 24 _ (omega arith) (uli2a-Fits v lt),
  Fits-le 22 24 _ (omega arith) (li2a-Fits v lt),
  Fits-le 17 24 _ (omega arith) (uli2a-Fits_hex v uc lt),
  Fits-le 11 12 _ (omega arith) (ui2a-Fits (v % 2 ^ 32) (omega arith)),
  i2a-Fits (v % 2 ^ 32) (omega arith),
  Fits-le 9 12 _ (omega arith) (ui2a-Fits_hex (v % 2 ^ 32) uc (omega arith)),
)
