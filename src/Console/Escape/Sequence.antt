-- ===== src/Console/Escape/Sequence.antt =====
-- One escape sequence: where the cursor is behind it, and when it writes behind `ansi_buf`.
use cob_kernel.Common.{
  ℕ, zero, suc, ◌+◌, ◌≤◌, ◌<◌, ◌≡◌, ◌≢◌, inl, inr, refl, arith, true, false, ◌&&◌, List, [], ◌∷◌,
  length, ltb, leb, ◌==◌, Bool-cases, All,
}
use cob_kernel.Console.{cmd_size}
use cob_kernel.Console.Escape.Arrows.{Below, in_ansi_buf}
use cob_kernel.Console.Escape.{
  ansi_csi, ansi_size, Escape, moved, waiting, overflowed, out_of_bounds, echoed, esc_arg,
  esc_final, esc_byte, esc_loop, handle_esc,
}

-- No byte is a backspace.
abbrev pub NoBackspace : List ℕ → Type 0
NoBackspace = All (λ c. c ≢ 8)

-- The keys that are left of others.
pub data Tail : List ℕ → List ℕ → Type 0 where
  whole : {s : List ℕ} → Tail s s
  behind : {c : ℕ} {s t : List ℕ} → Tail s t → Tail (c ∷ s) t

Tail-next : {c : ℕ} {s t : List ℕ} → Tail s (c ∷ t) → Tail s t
Tail-next whole = behind whole
Tail-next (behind u) = behind (Tail-next u)

pub Tail-trans : {s t u : List ℕ} → Tail s t → Tail t u → Tail s u
Tail-trans whole v = v
Tail-trans (behind u) v = behind (Tail-trans u v)

pub Tail-length : {s t : List ℕ} → Tail s t → length t ≤ length s
Tail-length whole = omega arith
Tail-length (behind u) = let le = Tail-length u in omega (arith, le)

pub Tail-NoBackspace : {s t : List ℕ} → Tail s t → NoBackspace s → NoBackspace t
Tail-NoBackspace whole ok = ok
Tail-NoBackspace (behind u) ok = Tail-NoBackspace u ok.1

-- More than `n` keys, of which none of the first `n` is the letter of an arrow.
pub Unended : ℕ → List ℕ → Type 0
Unended n [] = ⊥
Unended zero (c ∷ s) = Unit
Unended (suc n) (c ∷ s) = (c ≢ b'D') × ((c ≢ b'C') × Unended n s)

-- The keys behind ESC of a sequence that is longer than `ansi_buf`.
pub IsOverlong : List ℕ → Type 0
IsOverlong [] = ⊥
IsOverlong (c ∷ s) = (c ≡ b'[') × Unended 31 s

-- If an escape sequence ends, the cursor is in the buffer, and the keys that are left are a tail of `keys`.
-- It writes behind `ansi_buf` only if `over` holds, and reads nothing outside of `cmd_buf`.
unfoldable pub Kept : ℕ → List ℕ → Type 0 → Escape → Type 0
Kept cmd keys over (moved cur echo input) = (cmd ≤ cur) × ((cur < cmd + cmd_size) × Tail keys input)
Kept cmd keys over waiting = Unit
Kept cmd keys over overflowed = over
Kept cmd keys over out_of_bounds = ⊥

echoed-Kept :
    (cmd : ℕ) (keys : List ℕ) (over : Type 0) (x : Escape) (c : ℕ)
    → Kept cmd keys over x
    → Kept cmd keys over (echoed c x)
unfolding echoed Kept
echoed-Kept cmd keys over (moved cur echo input) c h = h
echoed-Kept cmd keys over waiting c h = h
echoed-Kept cmd keys over overflowed c h = h
echoed-Kept cmd keys over out_of_bounds c h = h

Kept-map :
    (cmd : ℕ) (keys : List ℕ) {before after : Type 0} (x : Escape)
    → (before → after)
    → Kept cmd keys before x
    → Kept cmd keys after x
unfolding Kept
Kept-map cmd keys (moved cur echo input) f h = h
Kept-map cmd keys waiting f h = h
Kept-map cmd keys overflowed f h = f h
Kept-map cmd keys out_of_bounds f h = h

module _ (cmd ansi : ℕ) (buf : List ℕ) (b : Below ansi cmd) (keys : List ℕ) where
  esc_final-Kept :
      (cur c n : ℕ) (input : List ℕ) (rest : Escape)
      → cmd ≤ cur
      → cur < cmd + cmd_size
      → Tail keys input
      → Kept cmd keys (Unended n input) rest
      → Kept cmd keys (Unended (suc n) (c ∷ input)) (esc_final cmd cur 1 input c rest)
  unfolding esc_final Kept Unended
  esc_final-Kept cur c n input rest lo hi left h = elim (Bool-cases (c == b'D')) [
    | inl to_left ↦ rw to_left (ground arith, (ground (arith, b.below, b.fits, lo, hi), left))
    | inr no_left ↦ elim (Bool-cases (c == b'C')) [
      | inl to_right ↦ rw (no_left, to_right) (ground (arith, b.fits, lo, hi), (ground arith, left))
      | inr no_right ↦
          rw (no_left, no_right)
            (Kept-map cmd keys rest
              (λ u. ((λ e. ground (arith, no_left, e)), ((λ e. ground (arith, no_right, e)), u))) h)
    ]
  ]

  esc_byte-Kept :
      (cur p c n : ℕ) (input : List ℕ) (rest : Escape)
      → cmd ≤ cur
      → cur < cmd + cmd_size
      → p < cmd
      → Tail keys input
      → Kept cmd keys (Unended n input) rest
      → Kept cmd keys (Unended (suc n) (c ∷ input)) (esc_byte cmd buf cur ansi_csi p c input rest)
  unfolding esc_byte esc_arg Unended
  esc_byte-Kept cur p c n input rest lo hi low left h =
      elim (Bool-cases (leb 0x40 c && leb c 0x7e)) [
        | inl final ↦
            let default : ltb (cur + 2) p ≡ false = ground (arith, lo, low) in
            rw (final, default)
              (echoed-Kept cmd keys over _ c (esc_final-Kept cur c n input rest lo hi left h))
        | inr param ↦
            let longer : Kept cmd keys over rest = Kept-map cmd keys rest (on param) h in
            elim (Bool-cases (c == b';')) [
              | inl semicolon ↦
                  rw (param, semicolon)
                    (echoed-Kept cmd keys over (echoed 0 rest) c
                      (echoed-Kept cmd keys over rest 0 longer))
              | inr other ↦ rw (param, other) (echoed-Kept cmd keys over rest c longer)
            ]
      ]
    where
      over : Type 0
      over = Unended (suc n) (c ∷ input)

      on : (leb 0x40 c && leb c 0x7e) ≡ false → Unended n input → over
      on param u = ((λ e. ground (arith, param, e)), ((λ e. ground (arith, param, e)), u))

  esc_loop-Kept :
      (cur k n : ℕ) (input : List ℕ)
      → k + n ≡ ansi_size
      → cmd ≤ cur
      → cur < cmd + cmd_size
      → Tail keys input
      → Kept cmd keys (Unended n input) (esc_loop cmd ansi buf cur ansi_csi k input)
  unfolding esc_loop Kept Unended
  esc_loop-Kept cur k n [] size lo hi left =
      rw (in_ansi_buf cmd ansi buf b k (omega (arith, size))) tt
  esc_loop-Kept cur k zero (c ∷ input) size lo hi left =
      let full : ltb k ansi_size ≡ false = ground (arith, size) in
      rw (in_ansi_buf cmd ansi buf b k (omega (arith, size)), full) tt
  esc_loop-Kept cur k (suc n) (c ∷ input) size lo hi left =
      let room : ltb k ansi_size ≡ true = ground (arith, size) in
      let rest = esc_loop-Kept cur (k + 1) n input (omega (arith, size)) lo hi (Tail-next left) in
      rw (in_ansi_buf cmd ansi buf b k (omega (arith, size)), room)
        (esc_byte-Kept cur (ansi + k) c n input _ lo hi (omega (arith, b.below, size))
          (Tail-next left) rest)

-- The keys behind ESC: the first of them is `[`, or it ends the sequence.
pub handle_esc-Kept :
    (cmd ansi : ℕ) (buf : List ℕ)
    → Below ansi cmd
    → (cur : ℕ) (input : List ℕ) → cmd ≤ cur
    → cur < cmd + cmd_size
    → Kept cmd input (IsOverlong input) (handle_esc cmd ansi buf cur input)
unfolding handle_esc esc_loop esc_byte Kept echoed IsOverlong
handle_esc-Kept cmd ansi buf b cur [] lo hi = rw (in_ansi_buf cmd ansi buf b 0 (omega arith)) tt
handle_esc-Kept cmd ansi buf b cur (c ∷ input) lo hi = elim (Bool-cases (c == b'[')) [
  | inl csi ↦
      let keys = c ∷ input in
      let over = IsOverlong keys in
      let rest = esc_loop cmd ansi buf cur ansi_csi 1 input in
      let kept = esc_loop-Kept cmd ansi buf b keys cur 1 31 input refl lo hi (behind whole) in
      let longer : Kept cmd keys over rest =
        Kept-map cmd keys rest (λ u. (ground (arith, csi), u)) kept in
      rw (in_ansi_buf cmd ansi buf b 0 (omega arith), csi)
        (echoed-Kept cmd keys over (echoed b'[' rest) 0x1b
          (echoed-Kept cmd keys over rest b'[' longer))
  | inr other ↦ rw (in_ansi_buf cmd ansi buf b 0 (omega arith), other) (lo, (hi, behind whole))
]
