-- ===== src/Strings/Split.antt =====
-- What `split_str` and `split_get_next` make of a command line.
use Prim.Native.Nat.add
use cob_kernel.Common.{
  ℕ, zero, suc, ◌+◌, ◌≤◌, ◌≡◌, ◌≢◌, refl, arith, true, false, some, List, [], ◌∷◌, ◌++◌,
  append_assoc, map, length, replicate, All, ◌==◌, if◌then◌else◌, ==-of_ne,
}
use cob_kernel.Strings.{split_str, skip_while, null, at, split_get_next}

-- What `split_str` puts in the place of a character.
abbrev pub cut : ℕ → ℕ → ℕ
cut token c = if c == token then 0 else c

-- A line that ends in NUL before `size` is cut in place at each `token`, up to the NUL and no further; the
-- pointer that is returned is that of the NUL.
split_str_lem :
    (line rest : List ℕ) (size token : ℕ)
    → All (λ c. c ≢ 0) line
    → length line ≤ size
    → split_str (line ++ 0 ∷ rest) size token ≡ some (map (cut token) line ++ 0 ∷ rest, length line)
unfolding split_str
split_str_lem [] rest zero token full le = refl
split_str_lem [] rest (suc size) token full le = refl
split_str_lem (c ∷ line) rest zero token full le = absurd (omega arith)
split_str_lem (c ∷ line) rest (suc size) token full le =
    rw (==-of_ne c 0 full.0, split_str_lem line rest size token full.1 (omega arith)) (ground arith)

skip_token :
    (t s : List ℕ) (n : ℕ)
    → All (λ c. c ≢ 0) t
    → skip_while false (length t + n) (t ++ 0 ∷ s) ≡ some (n, 0 ∷ s)
unfolding skip_while
skip_token [] s zero full = refl
skip_token [] s (suc n) full = rw (add.zero (suc n))
skip_token (c ∷ t) s n full =
    rw (add.suc (length t) n) (rw (==-of_ne c 0 full.0) (skip_token t s n full.1))

skip_nuls :
    (k c : ℕ) (s : List ℕ) (n : ℕ)
    → c ≢ 0
    → skip_while true (k + n) (replicate k 0 ++ c ∷ s) ≡ some (n, c ∷ s)
unfolding skip_while
skip_nuls zero c s zero nz = refl
skip_nuls zero c s (suc n) nz = rw (add.zero (suc n)) (rw (==-of_ne c 0 nz))
skip_nuls (suc k) c s n nz = rw (add.suc k n) (skip_nuls k c s n nz)

-- From a token `t` that at least one NUL follows, `split_get_next` finds the next token, if its first
-- character lies before `end - 1`. If it lies just at `end - 1`, which is where a last argument of one
-- character begins, the result is NULL as if there were no argument.
split_get_next_lem :
    (t s : List ℕ) (k c n : ℕ)
    → All (λ c. c ≢ 0) t
    → c ≢ 0
    → split_get_next (length t + (suc k + n)) (t ++ replicate (suc k) 0 ++ c ∷ s)
      ≡ some (if n == 0 then null else at n (c ∷ s))
unfolding split_get_next
split_get_next_lem t s k c n full nz =
    rw (append_assoc t (replicate (suc k) 0) (c ∷ s)) (
      rw (skip_token t (replicate k 0 ++ c ∷ s) (suc k + n) full) (rw (skip_nuls (suc k) c s n nz)))
