-- ===== src/Console/Dispatch.antt =====
-- `_execute_cmd` of console.c: what it stores for the arguments, and when it releases its block.
use cob_kernel.Common.{
  ℕ, zero, suc, ◌+◌, ◌≤◌, ◌<◌, ◌≡◌, ◌⊎◌, inl, inr, refl, arith, Bool, true, false, not, Option,
  some, List, [], ◌∷◌, ◌++◌, length, Bool-cases, ◌==◌, if◌then◌else◌,
}
use cob_kernel.Strings.{skip_while, split_get_next, Next, null, at}
use cob_kernel.Console.{
  ArgType, ConsoleCommand, Effect, Refusal, too_few_args, refuse, alloc, store, call_cmd, release,
  arg_type, convert_arg, after_arg, after_next, execute_args, execute_cmd_args,
}

-- Stores of `n` arguments, each behind the one before it, from an offset on.
pub data Stores : ℕ → ℕ → List Effect → Type 0 where
  finished : {offset : ℕ} → Stores offset 0 []
  stored :
      {offset size value n : ℕ} {rest : List Effect}
      → Stores (offset + size) n rest
      → Stores offset (suc n) (store offset size value ∷ rest)

-- All arguments are stored, then the command runs and the block is released; or fewer are stored, and
-- an error is reported.
pub data Ended (offset left : ℕ) : List Effect → Type 0 where
  called :
      {stores : List Effect}
      → Stores offset left stores
      → Ended offset left (stores ++ call_cmd ∷ release ∷ [])
  abandoned :
      {n : ℕ} {stores : List Effect} (e : Refusal)
      → n < left
      → Stores offset n stores
      → Ended offset left (stores ++ refuse e ∷ [])

store-Ended :
    {offset size value left : ℕ} {rest : List Effect}
    → Ended (offset + size) left rest
    → Ended offset (suc left) (store offset size value ∷ rest)
store-Ended (called s) = called (stored s)
store-Ended (abandoned e fewer s) = abandoned e (omega (arith, fewer)) (stored s)

-- Within its `n` bytes the search reads nothing behind the buffer.
skip_while-stays :
    (nul : Bool) (n : ℕ) (s : List ℕ)
    → n ≤ length s
    → (r : ℕ × List ℕ) × (skip_while nul n s ≡ some r) × (r.0 ≤ length r.1)
unfolding skip_while
skip_while-stays nul zero s le = ((0, s), refl, omega arith)
skip_while-stays nul (suc n) [] le = absurd (omega (arith, le))
skip_while-stays nul (suc n) (c ∷ s) le = elim (Bool-cases (if nul then c == 0 else not (c == 0))) [
  | inl go_on ↦
      let (r, run, inside) = skip_while-stays nul n s (omega (arith, le)) in
      (r, rw (go_on, run), inside)
  | inr stop ↦ ((suc n, c ∷ s), rw stop, le)
]

-- A search ends with NULL, or at bytes that reach as far as `end - 1`.
unfoldable pub IsFound : Next → Type 0
IsFound null = Unit
IsFound (at n s) = n ≤ length s

pub split_get_next-IsFound :
    (n : ℕ) (s : List ℕ)
    → n ≤ length s
    → (found : Next) × (split_get_next n s ≡ some found) × IsFound found
unfolding split_get_next IsFound
split_get_next-IsFound n s le =
    let (t, token, t_inside) = skip_while-stays false n s le in
    let (u, nuls, u_inside) = skip_while-stays true t.0 t.1 t_inside in
    elim (Bool-cases (u.0 == 0)) [
      | inl last ↦ (null, rw (token, nuls, last), tt)
      | inr before ↦ (at u.0 u.1, rw (token, nuls, before), u_inside)
    ]

-- A part of `_execute_cmd` that has `left` arguments to store from `offset` on returns.
abbrev Returns : ℕ → ℕ → Option (List Effect) → Type 0
Returns offset left o = (effects : List Effect) × (o ≡ some effects) × Ended offset left effects

after_arg-Ended :
    (left offset : ℕ) (converted : Refusal ⊎ (ℕ × ℕ)) (next : ℕ → Option (List Effect))
    → ((offset' : ℕ) → Returns offset' left (next offset'))
    → Returns offset (suc left) (after_arg converted offset next)
unfolding after_arg
after_arg-Ended left offset (inl e) next returns =
    (refuse e ∷ [], refl, abandoned e (omega arith) finished)
after_arg-Ended left offset (inr (size, value)) next returns =
    let (rest, run, ended) = returns (offset + size) in
    (store offset size value ∷ rest, rw run, store-Ended ended)

after_next-Ended :
    (left offset : ℕ) (found : Next) (k : ℕ → List ℕ → Option (List Effect))
    → IsFound found
    → ((n : ℕ) (s : List ℕ) → n ≤ length s → Returns offset (suc left) (k n s))
    → Returns offset (suc left) (after_next found k)
unfolding after_next IsFound
after_next-Ended left offset null k inside returns =
    (refuse too_few_args ∷ [], refl, abandoned too_few_args (omega arith) finished)
after_next-Ended left offset (at n s) k inside returns = returns n s inside

-- The rounds from an argument on, for a search that stays in the buffer.
execute_args-Ended :
    (left i offset : ℕ) (types : List ArgType) (n : ℕ) (nxt : List ℕ)
    → n ≤ length nxt
    → Returns offset left (execute_args left i offset types n nxt)
unfolding execute_args
execute_args-Ended zero i offset types n nxt le = (call_cmd ∷ release ∷ [], refl, called finished)
execute_args-Ended (suc left) i offset types n nxt le =
    let (found, search, inside) = split_get_next-IsFound n nxt le in
    let (effects, run, ended) =
      after_next-Ended left offset found
        (λ n' nxt'.
          after_arg (convert_arg (arg_type types i) nxt') offset
            (λ curparam'. execute_args left (i + 1) curparam' types n' nxt'))
        inside
        (λ n' nxt' inside'.
          after_arg-Ended left offset (convert_arg (arg_type types i) nxt')
            (λ curparam'. execute_args left (i + 1) curparam' types n' nxt')
            (λ offset'. execute_args-Ended left (i + 1) offset' types n' nxt' inside')) in
    (effects, rw (search, run), ended)

-- For a command line that reaches as far as `end - 1`, `_execute_cmd` reads nothing behind it. It
-- allocates one block, and either stores all arguments one behind the other from its start, calls the
-- command and releases the block, or stores fewer of them, reports an error and returns with neither call nor release.
execute_cmd_args_lem :
    (cmd : ConsoleCommand) (n : ℕ) (buf : List ℕ)
    → n ≤ length buf
    → (effects : List Effect) × (execute_cmd_args cmd n buf ≡ some (alloc ∷ effects))
      × Ended 0 cmd.numargs effects
unfolding execute_cmd_args
execute_cmd_args_lem cmd n buf le =
    let (effects, run, ended) = execute_args-Ended cmd.numargs 0 0 cmd.arg_typearr n buf le in
    (effects, rw run, ended)
