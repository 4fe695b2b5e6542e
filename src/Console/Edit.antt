-- ===== src/Console/Edit.antt =====
-- The line editor: when it stays in its buffer, and what it hands to `execute_cmd`.
use cob_kernel.Common.{
  ℕ, zero, suc, ◌+◌, ◌-◌, ◌≤◌, ◌<◌, ◌≡◌, ◌≢◌, inl, inr, refl, ap, ◌∙◌, arith, true, false, ◌||◌,
  Option, none, some, List, [], ◌∷◌, ◌++◌, length, get_elem?, ◌==◌, if◌then◌else◌, ==-of_ne,
  ==-of_eq, lt→ltb, Bool-cases,
}
use cob_kernel.Common.Int.{pos, negsuc}
use cob_kernel.Strings.{split_str}
use cob_kernel.Console.{
  cmd_size, set, Editor, store_char, handle_newline, handle_del, handle_bkspc, handle_char,
  run_line, console_key,
}

length-set : (xs : List ℕ) (i v : ℕ) → length (set xs i v) ≡ length xs
unfolding set
length-set [] i v = refl
length-set (x ∷ xs) zero v = refl
length-set (x ∷ xs) (suc i) v = ap suc (length-set xs i v)

get_elem?-set : (xs : List ℕ) (i v : ℕ) → i < length xs → get_elem? (set xs i v) i ≡ some v
unfolding set
get_elem?-set [] i v h = absurd (omega arith)
get_elem?-set (x ∷ xs) zero v h = refl
get_elem?-set (x ∷ xs) (suc i) v h = get_elem?-set xs i v (omega arith)

-- With a NUL at index `n`, which is below `size`, `split_str` reads no byte behind it.
split_str-stays :
    (s : List ℕ) (n size token : ℕ)
    → get_elem? s n ≡ some 0
    → n ≤ size
    → (r : List ℕ × ℕ) × (split_str s size token ≡ some r) × (length r.0 ≡ length s)
unfolding split_str
split_str-stays [] n size token h le = cc
split_str-stays (c ∷ s) n zero token h le = (_, refl, refl)
split_str-stays (c ∷ s) zero (suc size) token h le =
    let z : c ≡ 0 = ground arith in ((c ∷ s, 0), rw (==-of_eq c 0 z), refl)
split_str-stays (c ∷ s) (suc n) (suc size) token h le = elim (Bool-cases (c == 0)) [
  | inl nul ↦ ((c ∷ s, 0), rw nul, refl)
  | inr char ↦
      let (r, e, same) = split_str-stays s n size token h (omega arith) in
      (((if c == token then 0 else c) ∷ r.0, r.1 + 1), rw (char, e), ap suc same)
]

-- The editor with its cursor at `place`.
abbrev pub line : List ℕ → ℕ → List ℕ → Editor
line buf place echo = record { cmd_buf = buf; cur = pos place; echo = echo }

store_char-line :
    (buf : List ℕ) (place : ℕ) (echo : List ℕ) (c : ℕ)
    → place < length buf
    → store_char (line buf place echo) c ≡ some (line (set buf place c) place echo)
unfolding store_char
store_char-line buf place echo c below = rw (lt→ltb place (length buf) below)

handle_char-full :
    (buf : List ℕ) (echo : List ℕ) (c : ℕ)
    → handle_char (line buf (cmd_size - 1) echo) c ≡ some (line buf (cmd_size - 1) echo)
unfolding handle_char
handle_char-full buf echo c = refl

handle_char-line :
    (buf : List ℕ) (place : ℕ) (echo : List ℕ) (c : ℕ)
    → place < length buf
    → place ≢ cmd_size - 1
    → handle_char (line buf place echo) c
      ≡ some (line (set buf place c) (suc place) (echo ++ c ∷ []))
unfolding handle_char
handle_char-line buf place echo c below room =
    rw (==-of_ne place (cmd_size - 1) room, store_char-line buf place echo c below)

handle_bkspc-line :
    (buf : List ℕ) (n : ℕ) (echo : List ℕ)
    → suc n < length buf
    → handle_bkspc (line buf (suc n) echo)
      ≡ some (line (set buf (suc n) 0) n (echo ++ 8 ∷ b' ' ∷ 8 ∷ []))
unfolding handle_bkspc
handle_bkspc-line buf n echo below =
    rw (store_char-line buf (suc n) (echo ++ 8 ∷ b' ' ∷ 8 ∷ []) 0 below)

handle_newline-line :
    (buf : List ℕ) (place : ℕ) (echo : List ℕ)
    → place < length buf
    → handle_newline (line buf place echo)
      ≡ some (line (set buf place 0) 0 (echo ++ b'\n' ∷ b'\r' ∷ []))
unfolding handle_newline
handle_newline-line buf place echo below = rw (store_char-line buf place echo 0 below)

run_line-stays :
    (buf : List ℕ) (n : ℕ) (echo : List ℕ)
    → get_elem? buf n ≡ some 0
    → n < cmd_size
    → (buf' : List ℕ) × (run_line (line buf 0 echo) ≡ some (line buf' 0 echo))
      × (length buf' ≡ length buf)
unfolding run_line
run_line-stays [] n echo nul below = cc
run_line-stays (c ∷ s) n echo nul below = elim (Bool-cases (c == 0)) [
  | inl empty ↦ (c ∷ s, rw empty, refl)
  | inr typed ↦
      let (r, cut, kept) = split_str-stays (c ∷ s) n cmd_size b' ' nul (omega arith) in
      (r.0, rw (typed, cut), kept)
]

handle_del-same : (e : Editor) → handle_del e ≡ some e
unfolding handle_del
handle_del-same e = refl

-- From a cursor inside the buffer of `CMDSIZE` bytes, every key but ESC, and but a backspace at the
-- start of the line, is handled by its case of the `switch` with no byte outside `cmd_buf` read or written, `split_str`'s included,
-- and the cursor is inside the buffer again.
pub console_key-stays :
    {R : Type 0} (esc : R) (handled : Option Editor → R) (buf : List ℕ) (place : ℕ) (echo : List ℕ)
    (key : ℕ)
    → length buf ≡ cmd_size
    → place < cmd_size
    → key ≢ 0x1b
    → (key ≡ 8 → 0 < place)
    → (buf' : List ℕ) × (place' : ℕ) × (echo' : List ℕ) × (console_key esc handled
          (line buf place echo)
          key
        ≡ handled (some (line buf' place' echo')))
      × (length buf' ≡ cmd_size)
      × (place' < cmd_size)
unfolding console_key
console_key-stays esc handled buf place echo key size below not_esc back =
    elim (Bool-cases (key == b'\n' || key == b'\r')) [
      | inl newline ↦
          let (buf', run, kept) =
            run_line-stays (set buf place 0) place (echo ++ b'\n' ∷ b'\r' ∷ [])
              (get_elem?-set buf place 0 inside) below in
          (
            buf',
            0,
            echo ++ b'\n' ∷ b'\r' ∷ [],
            rw (newline, handle_newline-line buf place echo inside, run),
            kept ∙ (length-set buf place 0 ∙ size),
            omega arith,
          )
      | inr other ↦ elim (Bool-cases (key == 8)) [
        | inl bkspc ↦ erase (place - 1) (ground (arith, back (ground (arith, bkspc)))) other bkspc
        | inr no_bkspc ↦ elim (Bool-cases (key == 0x7f)) [
          | inl del ↦ (
            buf,
            place,
            echo,
            rw (other, no_bkspc, no_esc, del, handle_del-same (line buf place echo)),
            size,
            below,
          )
          | inr char ↦ add other no_bkspc char
        ]
      ]
    ]
  where
    no_esc : (key == 0x1b) ≡ false
    no_esc = ==-of_ne key 0x1b not_esc

    inside : place < length buf
    inside = omega (arith, size, below)

    Stays : Type 0
    Stays =
        (buf' : List ℕ) × (place' : ℕ) × (echo' : List ℕ) × (console_key esc handled
            (line buf place echo) key
          ≡ handled (some (line buf' place' echo')))
        × (length buf' ≡ cmd_size)
        × (place' < cmd_size)

    erase :
        (n : ℕ) → place ≡ suc n → (key == b'\n' || key == b'\r') ≡ false → (key == 8) ≡ true → Stays
    erase n before other bkspc = (
      set buf (suc n) 0,
      n,
      echo ++ 8 ∷ b' ' ∷ 8 ∷ [],
      rw (before, other, bkspc, handle_bkspc-line buf n echo (omega (arith, inside, before))),
      length-set buf (suc n) 0 ∙ size,
      omega (arith, below, before),
    )

    add :
        (key == b'\n' || key == b'\r') ≡ false → (key == 8) ≡ false → (key == 0x7f) ≡ false → Stays
    add other no_bkspc char = elim (Bool-cases (place == cmd_size - 1)) [
      | inl end_of_line ↦
          let full : place ≡ cmd_size - 1 = ground (arith, end_of_line) in
          (
            buf,
            cmd_size - 1,
            echo,
            rw (full, other, no_bkspc, no_esc, char, handle_char-full buf echo key),
            size,
            omega arith,
          )
      | inr before_end ↦
          let room : place ≢ cmd_size - 1 = ground (arith, before_end) in
          (
            set buf place key,
            suc place,
            echo ++ key ∷ [],
            rw (other, no_bkspc, no_esc, char, handle_char-line buf place echo key inside room),
            length-set buf place key ∙ size,
            omega (arith, below, room),
          )
    ]

-- The editor with its cursor one byte in front of its buffer.
abbrev pub before_line : List ℕ → List ℕ → Editor
before_line buf echo = record { cmd_buf = buf; cur = negsuc 0; echo = echo }

handle_bkspc-start :
    (buf echo : List ℕ)
    → 0 < length buf
    → handle_bkspc (line buf 0 echo) ≡ some (before_line (set buf 0 0) (echo ++ 8 ∷ b' ' ∷ 8 ∷ []))
unfolding handle_bkspc
handle_bkspc-start buf echo some_byte =
    rw (store_char-line buf 0 (echo ++ 8 ∷ b' ' ∷ 8 ∷ []) 0 some_byte)

module _ {R : Type 0} (esc : R) (handled : Option Editor → R) where
  console_key-before_line :
      (buf echo : List ℕ) (key : ℕ)
      → key ≢ 0x7f
      → key ≢ 0x1b
      → console_key esc handled (before_line buf echo) key ≡ handled none
  unfolding console_key handle_bkspc store_char handle_newline handle_char
  console_key-before_line buf echo key no_del no_esc =
      elim (Bool-cases (key == b'\n' || key == b'\r')) [
        | inl newline ↦ rw newline
        | inr no_newline ↦ elim (Bool-cases (key == 8)) [
          | inl bkspc ↦ rw (no_newline, bkspc)
          | inr char ↦ rw (no_newline, char, ==-of_ne key 0x1b no_esc, ==-of_ne key 0x7f no_del)
        ]
      ]

  pub console_key-esc : (e : Editor) → console_key esc handled e 0x1b ≡ esc
  unfolding console_key
  console_key-esc e = refl

  console_key-bkspc : (e : Editor) → console_key esc handled e 8 ≡ handled (handle_bkspc e)
  unfolding console_key
  console_key-bkspc e = refl

  -- A backspace at the start of the line stores a NUL in its first byte and puts the cursor one byte in front of
  -- the buffer; and there every key but DEL and ESC accesses a byte outside of the buffer.
  pub backspace_underflows :
      (buf echo : List ℕ) (key : ℕ)
      → 0 < length buf
      → key ≢ 0x7f
      → key ≢ 0x1b
      → let erased = before_line (set buf 0 0) (echo ++ 8 ∷ b' ' ∷ 8 ∷ []) in
        (console_key esc handled (line buf 0 echo) 8 ≡ handled (some erased))
        × (console_key esc handled erased key ≡ handled none)
  backspace_underflows buf echo key some_byte no_del no_esc = (
    console_key-bkspc (line buf 0 echo) ∙ ap handled (handle_bkspc-start buf echo some_byte),
    console_key-before_line (set buf 0 0) (echo ++ 8 ∷ b' ' ∷ 8 ∷ []) key no_del no_esc,
  )
