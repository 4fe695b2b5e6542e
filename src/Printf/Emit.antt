-- ===== src/Printf/Emit.antt =====
-- `uli2a` and `ui2a` write the digits of the number, with no leading zero.
use native.Mathlib.Nat.{
  pow-zero, le-div_iff_mul-le, div-lt_iff_lt-mul, pow-suc, mod-eq_of_lt, pow-succ', div-mul-le_self,
}
use cob_kernel.Common.{
  ℕ, zero, suc, ◌+◌, ◌*◌, ◌/◌, ◌%◌, ◌^◌, ◌≤◌, ◌<◌, ◌≡◌, ◌≢◌, ◌⊎◌, inl, inr, refl, arith, Bool, true,
  false, some, map, ltb, ◌==◌, dec_le, ==-of_eq, ==-of_ne, lt→ltb, ◌∙◌, ap, leb-of_le,
  leb-of_not_le, Bool-cases,
}
use cob_kernel.Printf.{grow, emit, digit_char, word_to_ascii}
use cob_kernel.Printf.Digits.{fixed, weight, pow-pos, weight-zero, weight-div, rest-lt}

-- The weight that `grow` ends with is that of the first digit.
record Grown (base num i k : ℕ) : Type 0 where
  below : num < base ^ suc k
  leading : (k ≡ i) ⊎ (base ^ k ≤ num)

le-mul_of_div : (b p n : ℕ) → b ≤ n / p → b * p ≤ n
le-mul_of_div b p n h = grind (arith, div-mul-le_self n p)

doubling : (p b f : ℕ) → 2 ≤ b → p * 2 ^ suc f ≤ p * b * 2 ^ f
doubling p b f two =
    let e : p * 2 ^ suc f ≡ p * 2 * 2 ^ f = rw (pow-succ' 2 f) (omega arith) in rw e (grind arith)

grow_more :
    (word f num base d : ℕ)
    → base ≤ num / d
    → grow word (suc f) num base d ≡ grow word f num base (d * base % word)
unfolding grow
grow_more word f num base d h = rw (leb-of_le base (num / d) h)

grow_stop : (word f num base d : ℕ) → ¬ (base ≤ num / d) → grow word (suc f) num base d ≡ some d
unfolding grow
grow_stop word f num base d h = rw (leb-of_not_le base (num / d) h)

leads : (base num i k : ℕ) → base ^ i * base ≤ num → (k ≡ suc i) ⊎ (base ^ k ≤ num) → base ^ k ≤ num
leads base num i k h (inl e) = rw (e, pow-suc base i) h
leads base num i k h (inr p) = p

module _ (word base : ℕ) (two : 2 ≤ base) where
  stopped : (num i : ℕ) → ¬ (base ≤ num / base ^ i) → Grown base num i i
  stopped num i stop = record {
    below = rw (pow-succ' base i) (
        (div-lt_iff_lt-mul {k = base ^ i} {x = num} {y = base} (pow-pos base two i)).0
          (omega arith));
    leading = inl refl;
  }

  -- The product never wraps, since it is at most `num` when the loop goes on.
  grow_lem :
      (f num i : ℕ)
      → num < word
      → num < base ^ i * 2 ^ suc f
      → (k : ℕ) × (grow word (suc f) num base (base ^ i) ≡ some (base ^ k))
        × Grown base num i k
        × (k ≤ i + f)
  grow_lem zero num i fits fuel = elim (dec_le base (num / base ^ i)) [
    | no stop ↦ (i, grow_stop word _ num base (base ^ i) stop, stopped num i stop, omega arith)
    | yes more ↦
        absurd
          (grind (arith, le-mul_of_div base (base ^ i) num more, doubling (base ^ i) base 0 two))
  ]
  grow_lem (suc f) num i fits fuel = elim (dec_le base (num / base ^ i)) [
    | no stop ↦ (i, grow_stop word _ num base (base ^ i) stop, stopped num i stop, omega arith)
    | yes more ↦
        let grows : base ^ i * base ≤ num = omega (arith, le-mul_of_div base (base ^ i) num more) in
        let next : base ^ i * base % word ≡ base ^ suc i =
          rw (pow-suc base i) (mod-eq_of_lt (omega arith)) in
        let (k, e, g, b) =
          grow_lem f num (suc i) fits
            (rw (pow-suc base i) (omega (arith, doubling (base ^ i) base (suc f) two))) in
        (
          k,
          grow_more word (suc f) num base (base ^ i) more
              ∙ (ap (grow word (suc f) num base) next ∙ e),
          record { below = g.below; leading = inr (leads base num i k grows g.leading) },
          omega arith,
        )
  ]

  emit_rest :
      (k fuel num n : ℕ) (uc : Bool)
      → k < fuel
      → num < base ^ k
      → n ≢ 0
      → emit fuel base uc num (weight base k) n ≡ some (map (digit_char uc) (fixed base k num))
  unfolding emit fixed weight
  emit_rest k zero num n uc lt small nz = absurd (omega arith)
  emit_rest zero (suc fuel) num n uc lt small nz = refl
  emit_rest (suc k) (suc fuel) num n uc lt small nz =
      rw
        (
          ==-of_ne (base ^ k) 0 (omega (arith, pow-pos base two k)),
          ==-of_ne n 0 nz,
          weight-div base two k,
        )
        (rw (
          emit_rest k fuel (num % base ^ k) (n + 1) uc (omega arith) (rest-lt base two k num)
            (omega arith)))

  -- The first digit is written because it is positive, or because it is the last.
  emit_first :
      (k fuel num : ℕ) (uc : Bool)
      → k < fuel
      → num < base ^ suc k
      → (k ≡ 0) ⊎ (base ^ k ≤ num)
      → emit (suc fuel) base uc num (base ^ k) 0
        ≡ some (map (digit_char uc) (fixed base (suc k) num))
  unfolding emit fixed
  emit_first k fuel num uc lt small lead =
      rw (==-of_ne (base ^ k) 0 (omega (arith, pow-pos base two k)), weight-div base two k)
        (elim (shown lead) [ inl e ↦ rw (e, rest) | inr (e, e') ↦ rw (e, e', rest) ])
    where
      rest :
          emit fuel base uc (num % base ^ k) (weight base k) (0 + 1)
          ≡ some (map (digit_char uc) (fixed base k (num % base ^ k)))
      rest = emit_rest k fuel (num % base ^ k) (0 + 1) uc lt (rest-lt base two k num) (omega arith)

      shown :
          (k ≡ 0) ⊎ (base ^ k ≤ num)
          → (ltb 0 (num / base ^ k) ≡ true)
            ⊎ ((ltb 0 (num / base ^ k) ≡ false) × ((weight base k == 0) ≡ true))
      shown (inl z) = elim (Bool-cases (ltb 0 (num / base ^ k))) [
        | inl t ↦ inl t
        | inr f ↦ inr (f, ==-of_eq _ _ (weight-zero base k z))
      ]
      shown (inr le) = inl (
          lt→ltb _ _ (
            (le-div_iff_mul-le {k = base ^ k} {x = 1} {y = num} (pow-pos base two k)).1
              (omega arith)))

-- For every base from 2 on, the loops write the digits of the number, most significant first and with
-- no leading zero, and their fuel is enough.
pub word_to_ascii_lem :
    (word base num : ℕ) (uc : Bool)
    → 2 ≤ base
    → num < word
    → word ≤ 2 ^ 64
    → (k : ℕ) × (word_to_ascii word num base uc
        ≡ some (map (digit_char uc) (fixed base (suc k) num)))
      × (num < base ^ suc k)
      × ((k ≡ 0) ⊎ (base ^ k ≤ num))
unfolding word_to_ascii
word_to_ascii_lem word base num uc two fits word_size =
    let (k, e, g, b) = grow_lem word base two 64 num 0 fits (rw (pow-zero base) (omega arith)) in
    let e' : grow word 65 num base 1 ≡ some (base ^ k) = rw (pow-zero base) at e in
    (
      k,
      rw e' (emit_first word base two k 65 num uc (omega arith) g.below g.leading),
      g.below,
      g.leading,
    )
