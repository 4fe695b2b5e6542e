-- ===== src/Console/Args.antt =====
-- console.c: `get_next_arg` and `split_args`, the console's own versions of the routines of string.c, which
-- `_execute_cmd` calls in their place.
use cob_kernel.Common.{
  ℕ, zero, suc, ◌+◌, ◌≤◌, ◌≡◌, ◌≢◌, refl, arith, true, false, Option, none, some, List, [], ◌∷◌,
  ◌++◌, length, All, ◌==◌, if◌then◌else◌, ==-of_ne, ◌>>=◌,
}
use cob_kernel.Strings.{split_str, skip_while, Next, null, at}

-- `get_next_arg`, where `end - 1` lies `n` bytes behind `buf`.
unfoldable pub get_next_arg : ℕ → List ℕ → Option Next
get_next_arg n buf = skip_while false n buf >>= (λ token.
    skip_while true token.0 token.1
    >>= (λ nuls. if nuls.0 == 0 then some null else some (at nuls.0 nuls.1)))

-- `split_args`: the bytes afterwards, and how far behind `buf` the pointer lies that is returned. `none` is a
-- read behind the buffer, for no size bounds the loop.
unfoldable pub split_args : List ℕ → Option (List ℕ × ℕ)
split_args [] = none
split_args (c ∷ s) =
    let rest = split_args s in
    if c == 0
    then some (c ∷ s, 0)
    else rest >>= (λ r. some ((if c == b' ' then 0 else c) ∷ r.0, r.1 + 1))

-- On a line that ends in NUL within the size, `split_args` does what `split_str` does with a space.
split_args-split_str :
    (line rest : List ℕ) (size : ℕ)
    → All (λ c. c ≢ 0) line
    → length line ≤ size
    → split_args (line ++ 0 ∷ rest) ≡ split_str (line ++ 0 ∷ rest) size b' '
unfolding split_args split_str
split_args-split_str [] rest zero full le = refl
split_args-split_str [] rest (suc size) full le = refl
split_args-split_str (c ∷ line) rest zero full le = absurd (omega arith)
split_args-split_str (c ∷ line) rest (suc size) full le =
    rw (==-of_ne c 0 full.0, split_args-split_str line rest size full.1 (omega arith)) refl
