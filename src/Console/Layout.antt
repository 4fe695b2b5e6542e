-- ===== src/Console/Layout.antt =====
-- Where `_execute_cmd` of console.c puts the arguments: as in a packed struct of their types, which is how a
-- command reads them (`struct prime_params`).
use cob_kernel.Common.{
  ℕ, zero, suc, ◌+◌, ◌%◌, ◌^◌, ◌≤◌, ◌≡◌, refl, Option, none, some, List, [], ◌∷◌, length,
}
use cob_kernel.Printf.{strtol}
use cob_kernel.Strings.{Next, null, at, split_get_next}
use cob_kernel.Console.{
  ArgType, cmd_end, cmd_int, cmd_long, cmd_ptr, cmd_str, ConsoleCommand, Effect, Refusal,
  too_few_args, str_unsupported, invalid_argument, refuse, alloc, store, call_cmd, release,
  arg_type, convert_arg, after_arg, after_next, execute_args, execute_cmd_args,
}
use cob_kernel.Console.Dispatch.{IsFound, split_get_next-IsFound}

-- The bytes of an argument; the other types are not converted.
unfoldable pub arg_bytes : ArgType → Option ℕ
arg_bytes cmd_long = some 8
arg_bytes cmd_ptr = some 8
arg_bytes cmd_int = some 4
arg_bytes cmd_str = none
arg_bytes cmd_end = none

-- The error for an argument that is not converted.
unfoldable pub refusal_of : ArgType → Refusal
refusal_of cmd_str = str_unsupported
refusal_of _ = invalid_argument

-- What is stored of the number that `strtol` reads: an int keeps its low half.
unfoldable pub arg_value : ArgType → ℕ → ℕ
arg_value cmd_int number = number % 2 ^ 32
arg_value cmd_long number = number
arg_value cmd_ptr number = number
arg_value cmd_str number = number
arg_value cmd_end number = number

-- The types of the arguments from `i` on, `n` of them.
unfoldable pub declared : List ArgType → ℕ → ℕ → List ArgType
declared types i zero = []
declared types i (suc n) = arg_type types i ∷ declared types (i + 1) n

-- What is done for arguments of the given types, behind one another from an offset on, from a place in the
-- line on, `n` bytes in front of `end - 1`: each next argument of the line is stored as its type says, and after
-- the last come the call and the release; or the line has no next argument, or it has one of a type that is not
-- converted, and the error for that is the last.
pub data Laid : ℕ → List ArgType → ℕ → List ℕ → List Effect → Type 0 where
  complete : {offset n : ℕ} {nxt : List ℕ} → Laid offset [] n nxt (call_cmd ∷ release ∷ [])
  missing :
      {offset n : ℕ} {t : ArgType} {ts : List ArgType} {nxt : List ℕ}
      → split_get_next n nxt ≡ some null
      → Laid offset (t ∷ ts) n nxt (refuse too_few_args ∷ [])
  not_converted :
      {offset n n' : ℕ} {t : ArgType} {ts : List ArgType} {nxt nxt' : List ℕ}
      → split_get_next n nxt ≡ some (at n' nxt')
      → arg_bytes t ≡ none
      → Laid offset (t ∷ ts) n nxt (refuse (refusal_of t) ∷ [])
  argument :
      {offset n n' size : ℕ} {t : ArgType} {ts : List ArgType} {nxt nxt' : List ℕ}
      {rest : List Effect}
      → split_get_next n nxt ≡ some (at n' nxt')
      → arg_bytes t ≡ some size
      → Laid (offset + size) ts n' nxt' rest
      → Laid offset (t ∷ ts) n nxt (store offset size (arg_value t (strtol nxt' 10)) ∷ rest)

abbrev LaysOut : ℕ → List ArgType → ℕ → List ℕ → Option (List Effect) → Type 0
LaysOut offset ts n nxt o =
    (effects : List Effect) × (o ≡ some effects) × Laid offset ts n nxt effects

after_arg-Laid :
    (offset : ℕ) (t : ArgType) (ts : List ArgType) {n n' : ℕ} {nxt nxt' : List ℕ}
    (next : ℕ → Option (List Effect))
    → split_get_next n nxt ≡ some (at n' nxt')
    → ((offset' : ℕ) → LaysOut offset' ts n' nxt' (next offset'))
    → LaysOut offset (t ∷ ts) n nxt (after_arg (convert_arg t nxt') offset next)
unfolding after_arg convert_arg arg_bytes arg_value refusal_of
after_arg-Laid offset cmd_long ts {nxt' = nxt'} next found_there h =
    let (rest, run, l) = h (offset + 8) in
    (store offset 8 (strtol nxt' 10) ∷ rest, rw run refl, argument found_there refl l)
after_arg-Laid offset cmd_ptr ts {nxt' = nxt'} next found_there h =
    let (rest, run, l) = h (offset + 8) in
    (store offset 8 (strtol nxt' 10) ∷ rest, rw run refl, argument found_there refl l)
after_arg-Laid offset cmd_int ts {nxt' = nxt'} next found_there h =
    let (rest, run, l) = h (offset + 4) in
    (store offset 4 (strtol nxt' 10 % 2 ^ 32) ∷ rest, rw run refl, argument found_there refl l)
after_arg-Laid offset cmd_str ts next found_there h =
    (refuse str_unsupported ∷ [], refl, not_converted found_there refl)
after_arg-Laid offset cmd_end ts next found_there h =
    (refuse invalid_argument ∷ [], refl, not_converted found_there refl)

after_next-Laid :
    (offset : ℕ) (t : ArgType) (ts : List ArgType) {n : ℕ} {nxt : List ℕ} (found : Next)
    (k : ℕ → List ℕ → Option (List Effect))
    → split_get_next n nxt ≡ some found
    → IsFound found
    → ((n' : ℕ) (nxt' : List ℕ)
        → split_get_next n nxt ≡ some (at n' nxt')
        → n' ≤ length nxt'
        → LaysOut offset (t ∷ ts) n nxt (k n' nxt'))
    → LaysOut offset (t ∷ ts) n nxt (after_next found k)
unfolding after_next IsFound
after_next-Laid offset t ts null k searched inside h =
    (refuse too_few_args ∷ [], refl, missing searched)
after_next-Laid offset t ts (at n' nxt') k searched inside h = h n' nxt' searched inside

execute_args-Laid :
    (left i offset : ℕ) (types : List ArgType) (n : ℕ) (nxt : List ℕ)
    → n ≤ length nxt
    → LaysOut offset (declared types i left) n nxt (execute_args left i offset types n nxt)
unfolding execute_args declared
execute_args-Laid zero i offset types n nxt le = (call_cmd ∷ release ∷ [], refl, complete)
execute_args-Laid (suc left) i offset types n nxt le =
    let (found, searched, inside) = split_get_next-IsFound n nxt le in
    let (effects, run, laid) =
      after_next-Laid offset (arg_type types i) (declared types (i + 1) left) found
        (λ n' nxt'.
          after_arg (convert_arg (arg_type types i) nxt') offset
            (λ curparam'. execute_args left (i + 1) curparam' types n' nxt'))
        searched inside
        (λ n' nxt' there inside'.
          after_arg-Laid offset (arg_type types i) (declared types (i + 1) left)
            (λ curparam'. execute_args left (i + 1) curparam' types n' nxt') there
            (λ offset'. execute_args-Laid left (i + 1) offset' types n' nxt' inside')) in
    (effects, rw (searched, run), laid)

-- For a command line that reaches as far as `end - 1`, `_execute_cmd` reads nothing behind it and allocates one
-- block. For each declared argument in turn it searches the line for the next argument. If there is one, of a type
-- that is converted, it stores the number that `strtol` reads there in base 10 as in a packed struct of the
-- declared types, 8 bytes of it for a long or a pointer and the low 4 for an int, and goes on behind it. If
-- there is none, or one of another type, it reports that error, with neither call nor release. After the last
-- argument, and only then, it calls the command and releases the block.
pub execute_cmd_args-Laid :
    (cmd : ConsoleCommand) (n : ℕ) (buf : List ℕ)
    → n ≤ length buf
    → (effects : List Effect) × (execute_cmd_args cmd n buf ≡ some (alloc ∷ effects))
      × Laid 0 (declared cmd.arg_typearr 0 cmd.numargs) n buf effects
unfolding execute_cmd_args
execute_cmd_args-Laid cmd n buf le =
    let (effects, run, laid) = execute_args-Laid cmd.numargs 0 0 cmd.arg_typearr n buf le in
    (effects, rw run, laid)
