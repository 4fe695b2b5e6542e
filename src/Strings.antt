-- ===== src/Strings.antt =====
-- string.c, and `strcmp` of console.c.
mod Tests
pub mod Memcpy
pub mod Split
pub mod Compare
use cob_kernel.Common.{
  ℕ, zero, suc, ◌+◌, ◌-◌, ◌*◌, ◌/◌, ◌%◌, ◌^◌, ◌≡◌, refl, Bool, true, false, not, ◌&&◌, Option, none,
  some, List, [], ◌∷◌, ltb, leb, ◌==◌, if◌then◌else◌, ◌>>=◌, update,
}
use cob_kernel.Common.Int.{ℤ, pos, negsuc}

-- `*(u64*)dst = *(u64*)src` on memory by bytes: the eight bytes are read before any is written.
unfoldable pub copy_qword : ℕ → ℕ → (ℕ → ℕ) → ℕ → ℕ
copy_qword src dst m a = if leb dst a && ltb a (dst + 8) then m (src + (a - dst)) else m a

-- The first loop of `memcpy`, with the rounds that are left. `dst++` on a `void *` adds one byte.
unfoldable pub copy_qwords : ℕ → ℕ → ℕ → (ℕ → ℕ) → ℕ → ℕ
copy_qwords zero src dst m = m
copy_qwords (suc n) src dst m = copy_qwords n (src + 1) (dst + 1) (copy_qword src dst m)

-- The second loop of `memcpy`.
unfoldable pub copy_bytes : ℕ → ℕ → ℕ → (ℕ → ℕ) → ℕ → ℕ
copy_bytes zero src dst m = m
copy_bytes (suc n) src dst m = copy_bytes n (src + 1) (dst + 1) (update m dst (m src))

-- `memcpy(src, dst, size)`: both pointers have moved by the rounds of the first loop when the second starts.
unfoldable pub memcpy : ℕ → ℕ → ℕ → (ℕ → ℕ) → ℕ → ℕ
memcpy src dst size m =
    let num_qwords = size / 8 in
    let remainder = (size - num_qwords * 8) % 256 in
    copy_bytes remainder (src + num_qwords) (dst + num_qwords) (copy_qwords num_qwords src dst m)

-- The loop of `strlen`, with the rounds that `idx < size` leaves. `str` does not move, so `*str` is the
-- same character each time.
unfoldable pub strlen_loop : ℕ → ℕ → ℕ → ℕ
strlen_loop c zero idx = idx
strlen_loop c (suc n) idx = let rest = strlen_loop c n (idx + 1) in if c == 0 then idx else rest

-- `strlen` of a string that begins with the character `c`, for a `size` that is a positive `int`.
unfoldable pub strlen : ℕ → ℕ → ℤ
strlen c size = let idx = strlen_loop c size 0 in if ltb idx size then pos idx else negsuc 0

-- `split_str` on the bytes from `buf` on: the bytes afterwards, and by how much the pointer that is
-- returned lies behind `buf`. `none` is a read behind the buffer: `*cur` is read before `cur < end` counts.
unfoldable pub split_str : List ℕ → ℕ → ℕ → Option (List ℕ × ℕ)
split_str [] size token = none
split_str (c ∷ s) zero token = some (c ∷ s, 0)
split_str (c ∷ s) (suc size) token =
    let rest = split_str s size token in
    if c == 0
    then some (c ∷ s, 0)
    else rest >>= (λ r. some ((if c == token then 0 else c) ∷ r.0, r.1 + 1))

-- The two loops of `split_get_next`, on the bytes from `buf` on. `n` is the distance from `buf` to `end-1`.
-- They return the distance and the bytes where they stop; `none` is a read behind the buffer.
unfoldable pub skip_while : Bool → ℕ → List ℕ → Option (ℕ × List ℕ)
skip_while nul zero s = some (0, s)
skip_while nul (suc n) [] = none
skip_while nul (suc n) (c ∷ s) =
    let rest = skip_while nul n s in
    if (if nul then c == 0 else not (c == 0)) then rest else some (suc n, c ∷ s)

-- What `split_get_next` returns: NULL, or a pointer, as the distance to `end-1` and the bytes from it on.
pub data Next : Type 0 where
  null : Next
  at : ℕ → List ℕ → Next

unfoldable pub split_get_next : ℕ → List ℕ → Option Next
split_get_next n buf =
    skip_while false n buf
    >>= (λ t. skip_while true t.0 t.1 >>= (λ u. some (if u.0 == 0 then null else at u.0 u.1)))

-- `strcmp` on the bytes before the NULs: the difference of the first that differ.
unfoldable pub strcmp : List ℕ → List ℕ → ℤ
strcmp [] [] = pos 0
strcmp [] (d ∷ t) = if d == 0 then pos 0 else negsuc (d - 1)
strcmp (c ∷ s) [] = pos c
strcmp (c ∷ s) (d ∷ t) =
    let rest = strcmp s t in
    if not (c == 0) && c == d then rest else if leb d c then pos (c - d) else negsuc (d - c - 1)
