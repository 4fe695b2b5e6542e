-- ===== src/Console/Report.antt =====
-- What `execute_cmd` and `_execute_cmd` of console.c print, besides what the command prints.
use cob_kernel.Common.{
  ℕ, ◌≤◌, ◌≡◌, ◌⊎◌, inl, inr, refl, Bool, true, false, Option, some, List, [], ◌∷◌, ◌++◌, length,
  append-nil, ◌>>=◌,
}
use cob_kernel.Strings.{split_str}
use cob_kernel.Printf.Format.{str, Printed}
use cob_kernel.Printf.Log.{Verbosity, log_info, log_error}
use cob_kernel.Console.{
  cmd_size, c_string, ArgType, ConsoleCommand, Effect, Refusal, too_few_args, str_unsupported,
  invalid_argument, alloc, store, call_cmd, release, refuse, Executed, nothing, unknown, ran,
  execute_cmd, execute_cmd_args,
}
use cob_kernel.Console.Commands.{help}
use cob_kernel.Console.Layout.{
  Laid, complete, missing, not_converted, argument, execute_cmd_args-Laid,
}

-- The error that `_execute_cmd` logs for a command of the given name.
unfoldable pub refusal_text : Verbosity → List ℕ → Refusal → List Printed
refusal_text v name too_few_args =
    log_error v "console.c" "invalid number of arguments for cmd %s\n\r" (str name ∷ [])
refusal_text v name str_unsupported = log_error v "console.c" "CMD_STR NOT YET SUPPORTED\n\r" []
refusal_text v name invalid_argument = log_error v "console.c" "Invalid command argument\n\r" []

unfoldable pub effect_texts : Verbosity → List ℕ → List Effect → List Printed
effect_texts v name [] = []
effect_texts v name (refuse e ∷ rest) = refusal_text v name e ++ effect_texts v name rest
effect_texts v name (alloc ∷ rest) = effect_texts v name rest
effect_texts v name (store offset size value ∷ rest) = effect_texts v name rest
effect_texts v name (call_cmd ∷ rest) = effect_texts v name rest
effect_texts v name (release ∷ rest) = effect_texts v name rest

-- What `execute_cmd` prints of a line whose first word is `word_of`, given how it ends; `cmds` is what `help`
-- lists.
unfoldable pub executed_texts :
    Verbosity → List (List ℕ × List ℕ) → List ℕ → Executed → List Printed
executed_texts v cmds word_of nothing = []
executed_texts v cmds word_of unknown =
    log_info v "console.c" "comparing: %s\n\r" (str word_of ∷ [])
    ++ log_error v "console.c" "Invalid command %s\n\r" (str word_of ∷ [])
    ++ help cmds
executed_texts v cmds word_of (ran cmd effects) =
    log_info v "console.c" "comparing: %s\n\r" (str word_of ∷ [])
    ++ log_info v "console.c" "name: %s\n\r" (str cmd.name ∷ [])
    ++ effect_texts v cmd.name effects

-- An empty line is not split.
unfoldable pub with_texts :
    Verbosity → List (List ℕ × List ℕ) → List ℕ → Executed → Option (Executed × List Printed)
with_texts v listed buf nothing = some (nothing, [])
with_texts v listed buf e =
    split_str buf cmd_size b' ' >>= (λ r. some (e, executed_texts v listed (c_string r.0) e))

-- `execute_cmd` with what it prints.
unfoldable pub report_cmd :
    Verbosity
    → List (List ℕ × List ℕ)
    → List ConsoleCommand
    → List ℕ
    → Option (Executed × List Printed)
report_cmd v listed cmds buf = execute_cmd cmds buf >>= with_texts v listed buf

-- Whether the command is called.
unfoldable pub is_called : List Effect → Bool
is_called [] = false
is_called (call_cmd ∷ rest) = true
is_called (alloc ∷ rest) = is_called rest
is_called (store offset size value ∷ rest) = is_called rest
is_called (release ∷ rest) = is_called rest
is_called (refuse e ∷ rest) = is_called rest

abbrev Reported : Verbosity → List ℕ → List Effect → Type 0
Reported v name effects =
    ((is_called effects ≡ true) × (effect_texts v name effects ≡ []))
    ⊎ ((is_called effects ≡ false)
        × (e : Refusal) × (effect_texts v name effects ≡ refusal_text v name e))

Laid-Reported :
    (v : Verbosity) (name : List ℕ) {offset n : ℕ} {ts : List ArgType} {nxt : List ℕ}
    {effects : List Effect}
    → Laid offset ts n nxt effects
    → Reported v name effects
unfolding is_called effect_texts
Laid-Reported v name complete = inl (refl, refl)
Laid-Reported v name (missing there) = inr (refl, too_few_args, append-nil _)
Laid-Reported v name (not_converted there e) = inr (refl, _, append-nil _)
Laid-Reported v name (argument there e laid) = Laid-Reported v name laid

-- For a command line that reaches as far as `end - 1`, `_execute_cmd` either calls the command and logs
-- nothing, or logs one error and does not call it.
execute_cmd_args-Reported :
    (v : Verbosity) (cmd : ConsoleCommand) (n : ℕ) (buf : List ℕ)
    → n ≤ length buf
    → (effects : List Effect) × (execute_cmd_args cmd n buf ≡ some (alloc ∷ effects))
      × Reported v cmd.name effects
execute_cmd_args-Reported v cmd n buf le =
    let (effects, run, laid) = execute_cmd_args-Laid cmd n buf le in
    (effects, run, Laid-Reported v cmd.name laid)
