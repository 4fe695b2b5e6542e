-- ===== src/Console/Escape/Arrows.antt =====
-- What the escape sequences of the line editor do, where `ansi_buf` lies below `cmd_buf`, as the frame of
-- `_handle_esc` lies below that of its caller.
use cob_kernel.Common.{
  ℕ, suc, ◌+◌, ◌-◌, ◌%◌, ◌^◌, ◌≤◌, ◌<◌, ◌≡◌, ◌⊎◌, inl, inr, refl, arith, true, false, ◌&&◌, List,
  [], ◌∷◌, ◌++◌, length, ltb, leb, ◌==◌, if◌then◌else◌, Bool-cases, All, ==-of_ne,
}
use cob_kernel.Console.{cmd_size}
use cob_kernel.Console.Escape.{
  ansi_csi, ansi_size, Escape, moved, overflowed, echoed, esc_arg, max, min, esc_final, esc_byte,
  esc_loop, handle_esc,
}

-- A byte that does not end a sequence.
abbrev pub IsParam : ℕ → Type 0
IsParam c = (leb 0x40 c && leb c 0x7e) ≡ false

-- What such bytes echo, before what follows.
unfoldable pub echo_params : List ℕ → Escape → Escape
echo_params [] x = x
echo_params (c ∷ cs) x =
    let rest = echo_params cs x in echoed c (if c == b';' then echoed 0 rest else rest)

unfoldable pub param_echo : List ℕ → List ℕ
param_echo [] = []
param_echo (c ∷ cs) = let rest = param_echo cs in c ∷ (if c == b';' then 0 ∷ rest else rest)

echo_params-moved :
    (cs : List ℕ) (cur : ℕ) (echo input : List ℕ)
    → echo_params cs (moved cur echo input) ≡ moved cur (param_echo cs ++ echo) input
unfolding echo_params param_echo echoed
echo_params-moved [] cur echo input = refl
echo_params-moved (c ∷ cs) cur echo input = elim (Bool-cases (c == b';')) [
  | inl semicolon ↦ rw (semicolon, echo_params-moved cs cur echo input) refl
  | inr other ↦ rw (other, echo_params-moved cs cur echo input) refl
]

echo_params-overflowed : (cs : List ℕ) → echo_params cs overflowed ≡ overflowed
unfolding echo_params echoed
echo_params-overflowed [] = refl
echo_params-overflowed (c ∷ cs) = elim (Bool-cases (c == b';')) [
  | inl semicolon ↦ rw (semicolon, echo_params-overflowed cs) refl
  | inr other ↦ rw (other, echo_params-overflowed cs) refl
]

-- `ansi_buf` lies below `cmd_buf`, behind which nothing wraps around.
pub record Below (ansi cmd : ℕ) : Type 0 where
  pub below : ansi + ansi_size ≤ cmd
  pub fits : cmd + cmd_size < 2 ^ 64

module _ (cmd ansi : ℕ) (buf : List ℕ) (b : Below ansi cmd) where
  pub in_ansi_buf : (k : ℕ) → k ≤ ansi_size → (ansi + k == cmd + cmd_size - 1) ≡ false
  in_ansi_buf k le = ==-of_ne (ansi + k) (cmd + cmd_size - 1) (omega (arith, b.below, le))

  step_param :
      (k cur c : ℕ) (input : List ℕ)
      → IsParam c
      → k < ansi_size
      → esc_loop cmd ansi buf cur ansi_csi k (c ∷ input)
        ≡ echo_params (c ∷ []) (esc_loop cmd ansi buf cur ansi_csi (k + 1) input)
  unfolding esc_loop esc_byte echo_params
  step_param k cur c input param lt =
      let room : ltb k 32 ≡ true = ground arith in
      rw (in_ansi_buf k (omega (arith, lt)), room, param) refl

  esc_loop-params :
      (cs : List ℕ) (k cur : ℕ) (input : List ℕ)
      → All IsParam cs
      → k + length cs ≤ ansi_size
      → esc_loop cmd ansi buf cur ansi_csi k (cs ++ input)
        ≡ echo_params cs (esc_loop cmd ansi buf cur ansi_csi (k + length cs) input)
  unfolding echo_params
  esc_loop-params [] k cur input params le = let e : k + 0 ≡ k = omega arith in rw e refl
  esc_loop-params (c ∷ cs) k cur input (param, params) le =
      let e : k + 1 + length cs ≡ k + suc (length cs) = omega arith in
      rw
        (
          step_param k cur c (cs ++ input) param (omega (arith, le)),
          esc_loop-params cs (k + 1) cur input params (omega (arith, le)),
          e,
        )
        refl

  pub default_arg : (k n : ℕ) → k < ansi_size → ltb (cmd + n + 2) (ansi + k) ≡ false
  default_arg k n lt = ground (arith, b.below, lt)

  step_left :
      (k n : ℕ) (input : List ℕ)
      → k < ansi_size
      → n < cmd_size
      → esc_loop cmd ansi buf (cmd + n) ansi_csi k (b'D' ∷ input)
        ≡ moved (cmd + (n - 1)) (b'D' ∷ []) input
  unfolding esc_loop esc_byte esc_arg esc_final echoed
  step_left k n input lt inside =
      let room : ltb k 32 ≡ true = ground arith in
      let to : max cmd ((cmd + n + (2 ^ 64 - 1)) % 2 ^ 64) ≡ cmd + (n - 1) =
        ground (arith, b.below, b.fits, inside) in
      rw (in_ansi_buf k (omega (arith, lt)), room, default_arg k n lt, to) refl

  step_right :
      (k n : ℕ) (input : List ℕ)
      → k < ansi_size
      → n < cmd_size
      → esc_loop cmd ansi buf (cmd + n) ansi_csi k (b'C' ∷ input)
        ≡ moved (cmd + min (cmd_size - 1) (n + 1)) (b'C' ∷ []) input
  unfolding esc_loop esc_byte esc_arg esc_final echoed
  step_right k n input lt inside =
      let room : ltb k 32 ≡ true = ground arith in
      let to : min (cmd + cmd_size - 1) ((cmd + n + 1) % 2 ^ 64)
          ≡ cmd + min (cmd_size - 1) (n + 1) =
        ground (arith, b.fits, inside) in
      rw (in_ansi_buf k (omega (arith, lt)), room, default_arg k n lt, to) refl

  step_arrow :
      (k n f : ℕ) (input : List ℕ)
      → k < ansi_size
      → n < cmd_size
      → (f ≡ b'D') ⊎ (f ≡ b'C')
      → esc_loop cmd ansi buf (cmd + n) ansi_csi k (f ∷ input)
        ≡ moved (cmd + (if f == b'D' then n - 1 else min (cmd_size - 1) (n + 1))) (f ∷ []) input
  step_arrow k n f input lt inside (inl left) = rw left (step_left k n input lt inside)
  step_arrow k n f input lt inside (inr right) = rw right (step_right k n input lt inside)

  esc_loop-start :
      (cur : ℕ) (input : List ℕ)
      → handle_esc cmd ansi buf cur (b'[' ∷ input)
        ≡ echoed 0x1b (echoed b'[' (esc_loop cmd ansi buf cur ansi_csi 1 input))
  unfolding handle_esc esc_loop esc_byte
  esc_loop-start cur input = rw (in_ansi_buf 0 (omega arith)) refl

  -- ESC [, at most 30 bytes that end no sequence, and D or C move the cursor by one place to the left or to
  -- the right, within the buffer: the argument that the bytes spell is not used.
  pub handle_esc-arrow :
      (n f : ℕ) (params input : List ℕ)
      → n < cmd_size
      → All IsParam params
      → length params ≤ 30
      → (f ≡ b'D') ⊎ (f ≡ b'C')
      → handle_esc cmd ansi buf (cmd + n) (b'[' ∷ params ++ f ∷ input)
        ≡ moved
            (cmd + (if f == b'D' then n - 1 else min (cmd_size - 1) (n + 1)))
            (0x1b ∷ b'[' ∷ param_echo params ++ f ∷ [])
            input
  unfolding echoed
  handle_esc-arrow n f params input inside ps few arrow =
      rw
        (
          esc_loop-start (cmd + n) (params ++ f ∷ input),
          esc_loop-params params 1 (cmd + n) (f ∷ input) ps (omega (arith, few)),
          step_arrow (1 + length params) n f input (omega (arith, few)) inside arrow,
          echo_params-moved params (cmd + (if f == b'D' then n - 1 else min (cmd_size - 1) (n + 1)))
              (f ∷ []) input,
        )
        refl

  -- ESC [ and 31 bytes that end no sequence fill `ansi_buf`, and the next byte is written behind it.
  handle_esc-overflow :
      (cur c : ℕ) (params input : List ℕ)
      → All IsParam params
      → length params ≡ 31
      → handle_esc cmd ansi buf cur (b'[' ∷ params ++ c ∷ input) ≡ overflowed
  unfolding echoed esc_loop
  handle_esc-overflow cur c params input ps full =
      let end_of_buf : 1 + length params ≡ 32 = omega (arith, full) in
      rw
        (
          esc_loop-start cur (params ++ c ∷ input),
          esc_loop-params params 1 cur (c ∷ input) ps (omega (arith, full)),
          end_of_buf,
          in_ansi_buf 32 (omega arith),
          echo_params-overflowed params,
        )
        refl
