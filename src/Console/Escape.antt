-- ===== src/Console/Escape.antt =====
-- `_handle_esc` of console.c, and the loop of `start_console` with it.
-- Here pointers are addresses, since the code compares pointers into two arrays. What `ansi_buf` holds is
-- never read, but a write behind it is told.
pub mod Arrows
pub mod Sequence
pub mod Inside
use cob_kernel.Common.{
  ℕ, zero, suc, ◌+◌, ◌-◌, ◌%◌, ◌^◌, Bool, true, false, ◌&&◌, Option, none, some, List, [], ◌∷◌,
  ◌++◌, drop, length, ltb, leb, ◌==◌, if◌then◌else◌, ◌>>=◌,
}
use cob_kernel.Common.Int.{ℤ, pos, negsuc}
use cob_kernel.Printf.{digit_of, strtol}
use cob_kernel.Console.{cmd_size, Editor, console_key}

-- `enum ansi_state`
pub data AnsiState : Type 0 where
  ansi_command ansi_csi : AnsiState

-- `char ansi_buf[32]`
abbrev pub ansi_size : ℕ
ansi_size = 32

-- How `_handle_esc` ends.
pub data Escape : Type 0 where
  -- with this cursor, what was echoed, and the input that is left
  moved : ℕ → List ℕ → List ℕ → Escape
  -- `getc` waits for a key
  waiting : Escape
  -- a write behind `ansi_buf`
  overflowed : Escape
  -- a read outside of `cmd_buf`
  out_of_bounds : Escape

unfoldable pub echoed : ℕ → Escape → Escape
echoed c (moved cur echo input) = moved cur (c ∷ echo) input
echoed c waiting = waiting
echoed c overflowed = overflowed
echoed c out_of_bounds = out_of_bounds

-- Whether `strtol` comes to an end in these bytes.
unfoldable pub ends_number : ℕ → List ℕ → Bool
ends_number base [] = false
ends_number base (c ∷ s) =
    let rest = ends_number base s in
    if c == 0 then true else elim (digit_of base c) [ none ↦ true | some d ↦ rest ]

-- `strtol(p, 16)` as a `u32`, for a pointer that should lie in the buffer at `cmd`.
unfoldable pub read_arg : ℕ → List ℕ → ℕ → Option ℕ
read_arg cmd buf p =
    let s = drop (p - cmd) buf in
    if ltb p cmd then none else if ends_number 16 s then some (strtol s 16 % 2 ^ 32) else none

-- The argument of a sequence: the number at `cur + 2` if `_cur - cur > 2`, and 1 otherwise.
unfoldable pub esc_arg : ℕ → List ℕ → ℕ → ℕ → Option ℕ
esc_arg cmd buf cur p = if ltb (cur + 2) p then read_arg cmd buf (cur + 2) else some 1

abbrev pub max : ℕ → ℕ → ℕ
max a b = if ltb b a then a else b

abbrev pub min : ℕ → ℕ → ℕ
min a b = if ltb a b then a else b

-- A byte that ends a sequence, with what follows if it is no command.
unfoldable pub esc_final : ℕ → ℕ → ℕ → List ℕ → ℕ → Escape → Escape
esc_final cmd cur arg input c rest =
    if c == b'D'
    then moved (max cmd ((cur + (2 ^ 64 - arg)) % 2 ^ 64)) [] input
    else if c == b'C'
    then moved (min (cmd + cmd_size - 1) ((cur + arg) % 2 ^ 64)) [] input
    else rest

-- A byte that is stored at `p`, in the state before it; `rest` is what follows.
unfoldable pub esc_byte : ℕ → List ℕ → ℕ → AnsiState → ℕ → ℕ → List ℕ → Escape → Escape
esc_byte cmd buf cur ansi_command p c input rest =
    if c == b'[' then echoed b'[' rest else moved cur (0 ∷ []) input
esc_byte cmd buf cur ansi_csi p c input rest = echoed c (
    if leb 0x40 c && leb c 0x7e
    then elim (esc_arg cmd buf cur p) [
      | none ↦ out_of_bounds
      | some arg ↦ esc_final cmd cur arg input c rest
    ]
    else if c == b';'
    then echoed 0 rest
    else rest)

-- The state after a byte with which the loop goes on.
abbrev pub next_state : AnsiState → AnsiState
next_state _ = ansi_csi

-- The loop, with `_cur` `k` bytes into `ansi_buf`.
unfoldable pub esc_loop : ℕ → ℕ → List ℕ → ℕ → AnsiState → ℕ → List ℕ → Escape
esc_loop cmd ansi buf cur state k [] =
    if ansi + k == cmd + cmd_size - 1 then moved cur [] [] else waiting
esc_loop cmd ansi buf cur state k (c ∷ input) =
    let rest = esc_loop cmd ansi buf cur (next_state state) (k + 1) input in
    if ansi + k == cmd + cmd_size - 1
    then moved cur [] (c ∷ input)
    else if ltb k ansi_size
    then esc_byte cmd buf cur state (ansi + k) c input rest
    else overflowed

-- `_handle_esc`, with the keys that come after ESC.
unfoldable pub handle_esc : ℕ → ℕ → List ℕ → ℕ → List ℕ → Escape
handle_esc cmd ansi buf cur input = echoed 0x1b (esc_loop cmd ansi buf cur ansi_command 0 input)

-- A cursor as an address, for a buffer at `cmd`, and back.
unfoldable pub address : ℕ → ℤ → ℕ
address cmd (pos n) = cmd + n
address cmd (negsuc n) = cmd - suc n

abbrev pub cursor : ℕ → ℕ → ℤ
cursor cmd p = if ltb p cmd then negsuc (cmd - p - 1) else pos (p - cmd)

-- What `start_console` comes to with the keys it is given.
pub data Console : Type 0 where
  -- the next `getc` waits
  at_prompt : Editor → Console
  -- `getc` waits in `_handle_esc`
  in_escape : Console
  -- a write behind `ansi_buf` in `_handle_esc`
  ansi_overflowed : Console
  -- a read outside of `cmd_buf` in `_handle_esc`
  escape_faulted : Console
  -- an access outside of `cmd_buf` elsewhere
  faulted : Console
  out_of_fuel : Console

-- What follows `_handle_esc` and the other keys.
unfoldable pub after_esc : ℕ → Editor → Escape → (Editor → List ℕ → Console) → Console
after_esc cmd e (moved cur echo input) next =
    next (record e { cur = cursor cmd cur; echo = e.echo ++ echo }) input
after_esc cmd e waiting next = in_escape
after_esc cmd e overflowed next = ansi_overflowed
after_esc cmd e out_of_bounds next = escape_faulted

unfoldable pub after_key : Option Editor → (Editor → Console) → Console
after_key none next = faulted
after_key (some e) next = next e

-- The loop of `start_console`, with fuel, less `LED_pulse`, the prompt and the command that a line runs.
unfoldable pub console_keys : ℕ → ℕ → ℕ → Editor → List ℕ → Console
console_keys zero cmd ansi e input = out_of_fuel
console_keys (suc fuel) cmd ansi e [] = at_prompt e
console_keys (suc fuel) cmd ansi e (key ∷ input) =
    let esc =
      after_esc cmd e (handle_esc cmd ansi e.cmd_buf (address cmd e.cur) input)
        (λ e' input'. console_keys fuel cmd ansi e' input') in
    console_key esc (λ o. after_key o (λ e'. console_keys fuel cmd ansi e' input)) e key
