-- ===== src/Strings/Compare.antt =====
-- `strcmp` and `strlen`.
use cob_kernel.Common.{
  ◌↔◌, ◌&&◌, ◌==◌, ltb, if◌then◌else◌, ℕ, zero, suc, ◌+◌, ◌≡◌, ◌≢◌, refl, arith, List, [], ◌∷◌, All,
  ℕ_discrete,
}
use cob_kernel.Common.Int.{pos, negsuc}
use cob_kernel.Strings.{strcmp, strlen, strlen_loop}

strcmp-eq-zero :
    (s t : List ℕ) → All (λ c. c ≢ 0) s → All (λ c. c ≢ 0) t → strcmp s t ≡ pos 0 → s ≡ t
unfolding strcmp
strcmp-eq-zero [] [] hs ht e = refl
strcmp-eq-zero [] (d ∷ t) hs ht e = absurd (ground (arith, ht.0))
strcmp-eq-zero (c ∷ s) [] hs ht e = absurd (ground (arith, hs.0))
strcmp-eq-zero (c ∷ s) (d ∷ t) hs ht e = elim (ℕ_discrete c d) [
  | yes same ↦ ground (arith, hs.0, strcmp-eq-zero s t hs.1 ht.1)
  | no differ ↦ absurd (ground (arith, hs.0))
]

strcmp_self : (s : List ℕ) → strcmp s s ≡ pos 0
unfolding strcmp
strcmp_self [] = refl
strcmp_self (c ∷ s) = ground (arith, strcmp_self s)

-- `strcmp` of two strings is 0 exactly if they are equal.
strcmp_iff :
    (s t : List ℕ) → All (λ c. c ≢ 0) s → All (λ c. c ≢ 0) t → (strcmp s t ≡ pos 0) ↔ (s ≡ t)
strcmp_iff s t hs ht = (strcmp-eq-zero s t hs ht, λ e. rw e (strcmp_self t))

strlen_loop-stuck : (c n idx : ℕ) → c ≢ 0 → strlen_loop c n idx ≡ idx + n
unfolding strlen_loop
strlen_loop-stuck c zero idx h = omega arith
strlen_loop-stuck c (suc n) idx h = ground (arith, strlen_loop-stuck c n (idx + 1) h)

strlen_loop-empty : (n idx : ℕ) → strlen_loop 0 n idx ≡ idx
unfolding strlen_loop
strlen_loop-empty zero idx = refl
strlen_loop-empty (suc n) idx = refl

-- `strlen` looks at the first character alone: it is 0 for an empty string and a `size` that is not 0, and
-- else -1, whatever the length of the string.
strlen_lem : (c size : ℕ) → strlen c size ≡ (if c == 0 && ltb 0 size then pos 0 else negsuc 0)
unfolding strlen
strlen_lem c size = elim (ℕ_discrete c 0) [
  | yes z ↦ rw z (ground (arith, strlen_loop-empty size 0))
  | no nz ↦ ground (arith, strlen_loop-stuck c size 0 nz)
]
