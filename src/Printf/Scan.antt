-- ===== src/Printf/Scan.antt =====
-- `strtol` reads back what `uli2a` and `li2a` write.
use native.Mathlib.Nat.{pow-succ', pow-zero, div-add-mod'}
use cob_kernel.Common.{
  ℕ, zero, suc, ◌+◌, ◌-◌, ◌*◌, ◌/◌, ◌%◌, ◌^◌, ◌≤◌, ◌<◌, ◌≡◌, inl, inr, refl, ◌∙◌, ap, arith, Bool,
  true, false, ◌&&◌, some, List, [], ◌∷◌, ◌++◌, map, append-nil, leb, ◌==◌, if◌then◌else◌,
  Bool-cases,
}
use cob_kernel.Printf.{digit_char, char_ge, digit_of, strtol_loop, strtol, uli2a, ui2a, li2a, i2a}
use cob_kernel.Printf.Digits.{fixed, first-lt, rest-lt, pow-pos}
use cob_kernel.Printf.Emit.{word_to_ascii_lem}

-- A digit's character, in either case, is read as that digit.
digit_of-digit_char :
    (base d : ℕ) (uc : Bool) → base ≤ 36 → d < base → digit_of base (digit_char uc d) ≡ some d
unfolding digit_of digit_char char_ge
digit_of-digit_char base d true small lt = ground arith
digit_of-digit_char base d false small lt = ground arith

pub digit_char-ge : (d : ℕ) (uc : Bool) → b'0' ≤ digit_char uc d
unfolding digit_char
digit_char-ge d true = ground arith
digit_char-ge d false = ground arith

digit_step :
    (base val d : ℕ) (neg uc : Bool) (rest : List ℕ)
    → base ≤ 36
    → d < base
    → val * base + d < 2 ^ 64
    → strtol_loop base val neg (digit_char uc d ∷ rest) ≡ strtol_loop base (val * base + d) neg rest
unfolding strtol_loop
digit_step base val d neg uc rest small lt fits =
    let e : (val * base + d) % 2 ^ 64 ≡ val * base + d = omega arith in
    rw (not_nul, not_minus, digit_of-digit_char base d uc small lt, e)
  where
    not_nul : (digit_char uc d == 0) ≡ false
    not_nul = ground (arith, digit_char-ge d uc)

    not_minus : (base == 10 && digit_char uc d == b'-') ≡ false
    not_minus = ground (arith, digit_char-ge d uc)

-- The value of one more digit and the rest.
shift_value :
    (base k num val : ℕ)
    → (val * base + num / base ^ k) * base ^ k + num % base ^ k ≡ val * base ^ suc k + num
shift_value base k num val = rw (pow-succ' base k) (omega (arith, div-add-mod' num (base ^ k)))

le-mul_pos : (x p : ℕ) → 0 < p → x ≤ x * p
le-mul_pos x p h = grind arith

module _ (base : ℕ) (two : 2 ≤ base) (small : base ≤ 36) where
  -- The digits of `num` behind `val` are read as `val * base ^ k + num`.
  scan_digits :
      (k num val : ℕ) (neg uc : Bool) (rest : List ℕ)
      → num < base ^ k
      → val * base ^ k + num < 2 ^ 64
      → strtol_loop base val neg (map (digit_char uc) (fixed base k num) ++ rest)
        ≡ strtol_loop base (val * base ^ k + num) neg rest
  unfolding fixed
  scan_digits zero num val neg uc rest lt fits =
      ap (λ (v : ℕ). strtol_loop base v neg rest)
        (rw (pow-zero base) (let lt' : num < 1 = rw (pow-zero base) at lt in omega arith))
  scan_digits (suc k) num val neg uc rest lt fits =
      digit_step base val (num / base ^ k) neg uc _ small (first-lt base two k num lt) (
        omega (
          arith,
          le-mul_pos (val * base + num / base ^ k) (base ^ k) (pow-pos base two k),
          shift_value base k num val,
        ))
      ∙ (scan_digits k (num % base ^ k) (val * base + num / base ^ k) neg uc rest
            (rest-lt base two k num) (rw (shift_value base k num val) fits)
          ∙ ap (λ (v : ℕ). strtol_loop base v neg rest) (shift_value base k num val))

  read_digits :
      (k num : ℕ) (neg uc : Bool)
      → num < base ^ k
      → num < 2 ^ 64
      → strtol_loop base 0 neg (map (digit_char uc) (fixed base k num)) ≡ (num, neg)
  read_digits k num neg uc lt fits =
      let e : 0 * base ^ k + num ≡ num = omega arith in
      rw (append-nil, e) at (scan_digits k num 0 neg uc [] lt (omega arith)) ∙ end_of_text num neg
    where
      end_of_text : (v : ℕ) (n : Bool) → strtol_loop base v n [] ≡ (v, n)
      end_of_text v n = unfold strtol_loop in refl

  uli2a-read :
      (num : ℕ) (uc : Bool)
      → num < 2 ^ 64
      → (bf : List ℕ) × (uli2a num base uc ≡ some bf)
        × ((neg : Bool) → strtol_loop base 0 neg bf ≡ (num, neg))
  unfolding uli2a
  uli2a-read num uc fits =
      let (k, e, lt, _) = word_to_ascii_lem (2 ^ 64) base num uc two fits (omega arith) in
      (
        map (digit_char uc) (fixed base (suc k) num),
        e,
        λ neg. read_digits (suc k) num neg uc lt fits,
      )

  -- `strtol` of the print of any `u64` in a base from 2 to 36, in either case of letters, is that word.
  pub strtol-uli2a :
      (num : ℕ) (uc : Bool)
      → num < 2 ^ 64
      → (bf : List ℕ) × (uli2a num base uc ≡ some bf) × (strtol bf base ≡ num)
  unfolding strtol
  strtol-uli2a num uc fits = let (bf, e, read) = uli2a-read num uc fits in (bf, e, rw (read false))

  ui2a-read :
      (num : ℕ) (uc : Bool)
      → num < 2 ^ 32
      → (bf : List ℕ) × (ui2a num base uc ≡ some bf)
        × ((neg : Bool) → strtol_loop base 0 neg bf ≡ (num, neg))
  unfolding ui2a
  ui2a-read num uc fits =
      let (k, e, lt, _) = word_to_ascii_lem (2 ^ 32) base num uc two fits (omega arith) in
      (
        map (digit_char uc) (fixed base (suc k) num),
        e,
        λ neg. read_digits (suc k) num neg uc lt (omega (arith, fits)),
      )

  -- The same for any `u32`.
  pub strtol-ui2a :
      (num : ℕ) (uc : Bool)
      → num < 2 ^ 32
      → (bf : List ℕ) × (ui2a num base uc ≡ some bf) × (strtol bf base ≡ num)
  unfolding strtol
  strtol-ui2a num uc fits = let (bf, e, read) = ui2a-read num uc fits in (bf, e, rw (read false))

minus_step : (bf : List ℕ) → strtol_loop 10 0 false (b'-' ∷ bf) ≡ strtol_loop 10 0 true bf
unfolding strtol_loop
minus_step bf = refl

strtol-minus :
    (num : ℕ) (bf : List ℕ)
    → strtol_loop 10 0 true bf ≡ (num, true)
    → strtol (b'-' ∷ bf) 10 ≡ (2 ^ 64 - num) % 2 ^ 64
unfolding strtol
strtol-minus num bf e = rw (minus_step bf, e)

-- `strtol` in base 10 of the print of any `long`, with its sign, is that `long`.
pub strtol-li2a :
    (num : ℕ) → num < 2 ^ 64 → (bf : List ℕ) × (li2a num ≡ some bf) × (strtol bf 10 ≡ num)
unfolding li2a
strtol-li2a num fits = elim (Bool-cases (leb (2 ^ 63) num)) [
  | inl neg ↦
      let (bf, e, read) =
        uli2a-read 10 (omega arith) (omega arith) ((2 ^ 64 - num) % 2 ^ 64) false (omega arith) in
      (b'-' ∷ bf, rw (neg, e), strtol-minus ((2 ^ 64 - num) % 2 ^ 64) bf (read true) ∙ ground arith)
  | inr nonneg ↦
      let (bf, e, read) = strtol-uli2a 10 (omega arith) (omega arith) num false fits in
      (bf, rw (nonneg, e), read)
]

-- The pattern of the `long` that is a given `int`.
abbrev pub long_of : ℕ → ℕ
long_of num = if leb (2 ^ 31) num then num + (2 ^ 64 - 2 ^ 32) else num

-- `strtol` in base 10 of the print of any `int`, with its sign, is that `int`.
pub strtol-i2a :
    (num : ℕ) → num < 2 ^ 32 → (bf : List ℕ) × (i2a num ≡ some bf) × (strtol bf 10 ≡ long_of num)
unfolding i2a
strtol-i2a num fits = elim (Bool-cases (leb (2 ^ 31) num)) [
  | inl neg ↦
      let (bf, e, read) =
        ui2a-read 10 (omega arith) (omega arith) ((2 ^ 32 - num) % 2 ^ 32) false (omega arith) in
      (b'-' ∷ bf, rw (neg, e), strtol-minus ((2 ^ 32 - num) % 2 ^ 32) bf (read true) ∙ ground arith)
  | inr nonneg ↦
      let (bf, e, read) = strtol-ui2a 10 (omega arith) (omega arith) num false fits in
      (bf, rw (nonneg, e), rw (nonneg, read))
]
