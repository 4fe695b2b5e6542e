-- ===== src/Console.antt =====
-- console.c: the line editor of `start_console`, and the dispatch of commands.
-- A pointer into `cmd_buf` is its distance from the start, an integer, since nothing keeps it in range.
mod Tests
mod Runs
pub mod Edit
pub mod Dispatch
pub mod Layout
pub mod Args
pub mod Report
pub mod Escape
pub mod HeapTest
pub mod Commands
pub mod TempText
use cob_kernel.Common.{
  ℕ, zero, suc, ◌+◌, ◌-◌, ◌*◌, ◌%◌, ◌^◌, ◌≡◌, ◌⊎◌, inl, inr, refl, Bool, true, false, not, ◌||◌,
  Option, none, some, List, [], ◌∷◌, ◌++◌, length, get_elem?, ltb, ◌==◌, if◌then◌else◌, ◌>>=◌,
}
use cob_kernel.Common.Int.{ℤ, pos, negsuc}
use cob_kernel.Printf.{strtol}
use cob_kernel.Strings.{strcmp, split_str, split_get_next, Next, null, at}

abbrev pub cmd_size : ℕ
cmd_size = 256

-- A write into a buffer; one out of range changes nothing here, and is ruled out by `store_char`.
unfoldable pub set : List ℕ → ℕ → ℕ → List ℕ
set [] i v = []
set (x ∷ xs) zero v = v ∷ xs
set (x ∷ xs) (suc i) v = x ∷ set xs i v

abbrev pub pred_ℤ : ℤ → ℤ
pred_ℤ (pos zero) = negsuc 0
pred_ℤ (pos (suc n)) = pos n
pred_ℤ (negsuc n) = negsuc (suc n)

-- The locals of `start_console`, and what went through `putc`.
pub record Editor : Type 0 where
  pub cmd_buf : List ℕ
  pub cur : ℤ
  pub echo : List ℕ

-- `*cur = c`; `none` when `cur` does not point into the buffer.
unfoldable pub store_char : Editor → ℕ → Option Editor
store_char e c = elim (e.cur) [
  | pos n ↦
      if ltb n (length e.cmd_buf) then some (record e { cmd_buf = set e.cmd_buf n c }) else none
  | negsuc n ↦ none
]

abbrev pub put_chars : Editor → List ℕ → Editor
put_chars e s = record e { echo = e.echo ++ s }

-- `_handle_newline`
unfoldable pub handle_newline : Editor → Option Editor
handle_newline e =
    store_char e 0
    >>= (λ e'. some (record e' { echo = e'.echo ++ b'\n' ∷ b'\r' ∷ []; cur = pos 0 }))

-- `_handle_del`
unfoldable pub handle_del : Editor → Option Editor
handle_del e = some e

-- `_handle_bkspc`
unfoldable pub handle_bkspc : Editor → Option Editor
handle_bkspc e =
    store_char (put_chars e (8 ∷ b' ' ∷ 8 ∷ [])) 0
    >>= (λ e'. some (record e' { cur = pred_ℤ e'.cur }))

-- The `default` case.
unfoldable pub handle_char : Editor → ℕ → Option Editor
handle_char e next = elim (e.cur) [
  | pos n ↦
      if n == cmd_size - 1
      then some e
      else store_char e next
        >>= (λ e'. some (record e' { echo = e'.echo ++ next ∷ []; cur = pos (suc n) }))
  | negsuc n ↦ none
]

-- `execute_cmd` as far as the editor is concerned: it has the buffer, which it cuts at its spaces if the line
-- is not empty.
unfoldable pub run_line : Editor → Option Editor
run_line e = elim (e.cmd_buf) [
  | [] ↦ none
  | c ∷ s ↦
      if c == 0
      then some e
      else split_str (c ∷ s) cmd_size b' ' >>= (λ r. some (record e { cmd_buf = r.0 }))
]

-- The `switch` of `start_console`: `esc` is what the case of ESC comes to, and `handled` what the others do
-- with the editor they leave behind; `none` is an access outside of `cmd_buf`.
unfoldable pub console_key : {R : Type 0} → R → (Option Editor → R) → Editor → ℕ → R
console_key esc handled e next =
    if next == b'\n' || next == b'\r'
    then handled (handle_newline e >>= run_line)
    else if next == 8
    then handled (handle_bkspc e)
    else if next == 0x1b
    then esc
    else if next == 0x7f
    then handled (handle_del e)
    else handled (handle_char e next)

-- `cmd_arg_type`
pub data ArgType : Type 0 where
  cmd_end cmd_int cmd_long cmd_ptr cmd_str : ArgType

-- `struct console_command`, less the help text; a command is known by its place in the table.
pub record ConsoleCommand : Type 0 where
  pub name : List ℕ
  pub numargs : ℕ
  pub arg_typearr : List ArgType

-- The errors with which `_execute_cmd` returns early.
pub data Refusal : Type 0 where
  too_few_args str_unsupported invalid_argument : Refusal

-- What `_execute_cmd` does to the world, in order. A store is an offset from `params`, a size and a value.
pub data Effect : Type 0 where
  alloc : Effect
  store : ℕ → ℕ → ℕ → Effect
  call_cmd : Effect
  release : Effect
  -- it reports the error
  refuse : Refusal → Effect

-- The rest of `arg_typearr` is zero, which is `CMD_END`.
unfoldable pub arg_type : List ArgType → ℕ → ArgType
arg_type [] i = cmd_end
arg_type (t ∷ ts) zero = t
arg_type (t ∷ ts) (suc i) = arg_type ts i

-- What a round of the loop stores, for an argument that begins at `nxt`, size and value; or the error.
unfoldable pub convert_arg : ArgType → List ℕ → Refusal ⊎ (ℕ × ℕ)
convert_arg cmd_long nxt = inr (8, strtol nxt 10)
convert_arg cmd_ptr nxt = inr (8, strtol nxt 10)
convert_arg cmd_int nxt = inr (4, strtol nxt 10 % 2 ^ 32)
convert_arg cmd_str nxt = inl str_unsupported
convert_arg cmd_end nxt = inl invalid_argument

-- What follows the conversion of an argument: a return, or the store and the next round.
unfoldable pub after_arg : Refusal ⊎ (ℕ × ℕ) → ℕ → (ℕ → Option (List Effect)) → Option (List Effect)
after_arg (inl e) offset next = some (refuse e ∷ [])
after_arg (inr (size, value)) offset next =
    next (offset + size) >>= (λ rest. some (store offset size value ∷ rest))

-- What follows the search for an argument: a return on NULL.
unfoldable pub after_next : Next → (ℕ → List ℕ → Option (List Effect)) → Option (List Effect)
after_next null k = some (refuse too_few_args ∷ [])
after_next (at n s) k = k n s

-- The loop of `_execute_cmd` from argument `i` on, with the rounds that are left, and what follows it.
-- `none` is a read behind the buffer.
unfoldable pub execute_args : ℕ → ℕ → ℕ → List ArgType → ℕ → List ℕ → Option (List Effect)
execute_args zero i curparam types n nxt = some (call_cmd ∷ release ∷ [])
execute_args (suc left) i curparam types n nxt = split_get_next n nxt >>= (λ found.
    after_next found (λ n' nxt'.
      after_arg (convert_arg (arg_type types i) nxt') curparam
        (λ curparam'. execute_args left (i + 1) curparam' types n' nxt')))

-- `_execute_cmd`, where `end - 1` lies `n` bytes behind `buf`.
unfoldable pub execute_cmd_args : ConsoleCommand → ℕ → List ℕ → Option (List Effect)
execute_cmd_args cmd n buf =
    execute_args cmd.numargs 0 0 cmd.arg_typearr n buf >>= (λ effects. some (alloc ∷ effects))

-- The bytes of a string before its NUL.
unfoldable pub c_string : List ℕ → List ℕ
c_string [] = []
c_string (c ∷ s) = if c == 0 then [] else c ∷ c_string s

abbrev pub is_zero_ℤ : ℤ → Bool
is_zero_ℤ (pos zero) = true
is_zero_ℤ (pos (suc n)) = false
is_zero_ℤ (negsuc n) = false

-- The loop of `execute_cmd` over the table: the first command whose name is the string at `buf`.
unfoldable pub find_cmd : List ConsoleCommand → List ℕ → Option ConsoleCommand
find_cmd [] buf = none
find_cmd (cmd ∷ cmds) buf =
    if is_zero_ℤ (strcmp (c_string buf) cmd.name) then some cmd else find_cmd cmds buf

-- How `execute_cmd` ends.
pub data Executed : Type 0 where
  -- an empty line
  nothing : Executed
  -- no such command: `help` is called
  unknown : Executed
  ran : ConsoleCommand → List Effect → Executed

unfoldable pub execute_cmd : List ConsoleCommand → List ℕ → Option Executed
execute_cmd cmds [] = none
execute_cmd cmds (c ∷ s) =
    if c == 0
    then some nothing
    else split_str (c ∷ s) cmd_size b' ' >>= (λ r. elim (find_cmd cmds r.0) [
      | none ↦ some unknown
      | some cmd ↦ execute_cmd_args cmd (r.1 - 1) r.0 >>= (λ effects. some (ran cmd effects))
    ])
