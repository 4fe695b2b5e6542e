-- ===== src/Console/Tests.antt =====
-- Runs of the line editor and of `_execute_cmd`.
use cob_kernel.Common.{ℕ, ◌≡◌, arith, none, some, List, [], ◌∷◌, replicate}
use cob_kernel.Console.{
  cmd_size, set, cmd_int, console_key, ConsoleCommand, Effect, alloc, execute_cmd_args,
}
use cob_kernel.Console.Edit.{line, before_line, backspace_underflows}
use cob_kernel.Console.Layout.{declared, Laid, execute_cmd_args-Laid}

abbrev empty_buf : List ℕ
empty_buf = replicate cmd_size 0

backspace_underflows_example :
    (console_key none (λ o. o) (line empty_buf 0 []) 8
      ≡ some (before_line (set empty_buf 0 0) (8 ∷ b' ' ∷ 8 ∷ [])))
    × (console_key none (λ o. o) (before_line (set empty_buf 0 0) (8 ∷ b' ' ∷ 8 ∷ [])) b'x' ≡ none)
backspace_underflows_example =
    backspace_underflows none (λ o. o) empty_buf [] b'x' (omega arith) (λ e. omega (arith, e))
      (λ e. omega (arith, e))

-- A command with two arguments, and the line `f 12`.
abbrev cmd : ConsoleCommand
cmd = record { name = b'f' ∷ []; numargs = 2; arg_typearr = cmd_int ∷ cmd_int ∷ [] }

execute_cmd_args-Laid_example :
    (effects : List Effect) × (execute_cmd_args cmd 3 (b'f' ∷ 0 ∷ b'1' ∷ b'2' ∷ 0 ∷ [])
      ≡ some (alloc ∷ effects))
    × Laid 0 (declared cmd.arg_typearr 0 2) 3 (b'f' ∷ 0 ∷ b'1' ∷ b'2' ∷ 0 ∷ []) effects
execute_cmd_args-Laid_example =
    execute_cmd_args-Laid cmd 3 (b'f' ∷ 0 ∷ b'1' ∷ b'2' ∷ 0 ∷ []) (omega arith)
