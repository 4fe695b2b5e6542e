-- ===== src/Strings/Tests.antt =====
-- Runs of string.c and of `strcmp`.
use cob_kernel.Common.{ℕ, ◌≢◌, inl, arith, List, [], ◌∷◌, All}
use cob_kernel.Strings.{memcpy}
use cob_kernel.Strings.Memcpy.{Copied, memcpy_lem}

-- Of 64 bytes 15 are copied.
memcpy_lem_example : Copied (λ a. a) 1000 2000 15 (memcpy 1000 2000 64 (λ a. a))
memcpy_lem_example = memcpy_lem 1000 2000 64 (λ a. a) (inl (omega arith))

abbrev word1 : List ℕ
word1 = b'a' ∷ b'b' ∷ []

word1-full : All (λ c. c ≢ 0) word1
word1-full = (λ e. omega arith, (λ e. omega arith, tt))
