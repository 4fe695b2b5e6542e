-- ===== src/Strings/Memcpy.antt =====
-- Which bytes `memcpy` copies, for buffers that do not overlap.
use cob_kernel.Common.{
  ℕ, zero, suc, ◌+◌, ◌-◌, ◌*◌, ◌/◌, ◌%◌, ◌≤◌, ◌<◌, ◌≡◌, ◌⊎◌, inl, inr, arith, ◌&&◌, ltb, leb,
  if◌then◌else◌, update, Bool-cases,
}
use cob_kernel.Strings.{copy_qword, copy_qwords, copy_bytes, memcpy}

-- `m'` is `m` with `len` bytes copied from `src` to `dst`.
abbrev pub Copied : (ℕ → ℕ) → ℕ → ℕ → ℕ → (ℕ → ℕ) → Type 0
Copied m src dst len m' =
    (a : ℕ) → m' a ≡ (if leb dst a && ltb a (dst + len) then m (src + (a - dst)) else m a)

-- Two ranges of `len` bytes have no byte in common.
abbrev pub Disjoint : ℕ → ℕ → ℕ → Type 0
Disjoint src dst len = (src + len ≤ dst) ⊎ (dst + len ≤ src)

module _ (m : ℕ → ℕ) (src dst : ℕ) where
  qword-Copied :
      (i len : ℕ) (m' : ℕ → ℕ)
      → i ≤ len
      → len ≤ i + 8
      → Disjoint src dst (i + 8)
      → Copied m src dst len m'
      → Copied m src dst (i + 8) (copy_qword (src + i) (dst + i) m')
  unfolding copy_qword
  qword-Copied i len m' lo hi apart h a = ground (arith, h a, h (src + i + (a - (dst + i))))

  add_shift : (p i : ℕ) → p + i + 1 ≡ p + (i + 1)
  add_shift p i = omega arith

  qwords-Copied :
      (n i len : ℕ) (m' : ℕ → ℕ)
      → i ≤ len
      → len ≤ i + 8
      → Disjoint src dst (i + n + 8)
      → Copied m src dst len m'
      → Copied m src dst (i + n + 8) (copy_qwords (suc n) (src + i) (dst + i) m')
  unfolding copy_qwords
  qwords-Copied zero i len m' lo hi apart h =
      let e : i + 0 + 8 ≡ i + 8 = omega arith in
      rw e (qword-Copied i len m' lo hi (rw e at apart) h)
  qwords-Copied (suc n) i len m' lo hi apart h =
      let e : i + suc n + 8 ≡ i + 1 + n + 8 = omega arith in
      rw (e, add_shift src i, add_shift dst i)
        (qwords-Copied n (i + 1) (i + 8) (copy_qword (src + i) (dst + i) m') (omega arith)
          (omega arith) (rw e at apart) (qword-Copied i len m' lo hi (omega arith) h))

  -- Bytes that are copied again are not changed.
  byte-Copied_again :
      (i len : ℕ) (m' : ℕ → ℕ)
      → i < len
      → Disjoint src dst len
      → Copied m src dst len m'
      → Copied m src dst len (update m' (dst + i) (m' (src + i)))
  byte-Copied_again i len m' lt apart h a = ground (arith, h a, h (src + i))

  bytes-Copied_again :
      (r i len : ℕ) (m' : ℕ → ℕ)
      → i + r ≤ len
      → Disjoint src dst len
      → Copied m src dst len m'
      → Copied m src dst len (copy_bytes r (src + i) (dst + i) m')
  unfolding copy_bytes
  bytes-Copied_again zero i len m' le apart h = h
  bytes-Copied_again (suc r) i len m' le apart h =
      rw (add_shift src i, add_shift dst i)
        (bytes-Copied_again r (i + 1) len (update m' (dst + i) (m' (src + i))) (omega arith) apart
          (byte-Copied_again i len m' (omega arith) apart h))

  byte-Copied :
      (i : ℕ) (m' : ℕ → ℕ)
      → Disjoint src dst (i + 1)
      → Copied m src dst i m'
      → Copied m src dst (i + 1) (update m' (dst + i) (m' (src + i)))
  byte-Copied i m' apart h a = ground (arith, h a, h (src + i))

  bytes-Copied :
      (r i : ℕ) (m' : ℕ → ℕ)
      → Disjoint src dst (i + r)
      → Copied m src dst i m'
      → Copied m src dst (i + r) (copy_bytes r (src + i) (dst + i) m')
  unfolding copy_bytes
  bytes-Copied zero i m' apart h = let e : i + 0 ≡ i = omega arith in rw e h
  bytes-Copied (suc r) i m' apart h =
      let e : i + suc r ≡ i + 1 + r = omega arith in
      rw (e, add_shift src i, add_shift dst i)
        (bytes-Copied r (i + 1) (update m' (dst + i) (m' (src + i))) (rw e at apart)
          (byte-Copied i m' (omega arith) h))

-- The bytes that a call copies.
abbrev pub copied : ℕ → ℕ
copied size = if ltb size 8 then size else size / 8 + 7

module _ (src dst size : ℕ) (m : ℕ → ℕ) where
  Copied-nothing : Copied m src dst 0 m
  Copied-nothing a = ground arith

  memcpy-few : size < 8 → Disjoint src dst size → Copied m src dst size (memcpy src dst size m)
  unfolding memcpy copy_qwords
  memcpy-few lt apart =
      let none : size / 8 ≡ 0 = omega arith in
      let all : (size - 0 * 8) % 256 ≡ size = omega arith in
      let e : 0 + size ≡ size = omega arith in
      rw (none, all) (rw e at (bytes-Copied m src dst size 0 m (rw e apart) Copied-nothing))

  memcpy-many :
      8 ≤ size
      → Disjoint src dst (size / 8 + 7)
      → Copied m src dst (size / 8 + 7) (memcpy src dst size m)
  unfolding memcpy
  memcpy-many ge apart =
      let q : size / 8 ≡ suc (size / 8 - 1) = omega arith in
      let e : 0 + (size / 8 - 1) + 8 ≡ size / 8 + 7 = omega arith in
      bytes-Copied_again m src dst ((size - size / 8 * 8) % 256) (size / 8) (size / 8 + 7) _
        (omega arith) apart (λ a. rw (← words q) (first e a))
    where
      from_zero : src + 0 ≡ src
      from_zero = omega arith

      first :
          0 + (size / 8 - 1) + 8 ≡ size / 8 + 7
          → Copied m src dst (size / 8 + 7) (copy_qwords (suc (size / 8 - 1)) (src + 0) (dst + 0) m)
      first e = rw e at (
          qwords-Copied m src dst (size / 8 - 1) 0 0 m (omega arith) (omega arith) (rw e apart)
            Copied-nothing)

      words :
          size / 8 ≡ suc (size / 8 - 1)
          → copy_qwords (suc (size / 8 - 1)) (src + 0) (dst + 0) m
            ≡ copy_qwords (size / 8) src dst m
      words q = let d : dst + 0 ≡ dst = omega arith in rw (← q, from_zero, d)

-- On ranges that do not overlap `memcpy` copies the first `copied size` bytes and changes no other: all
-- `size` bytes for a size up to 8, but only `size / 8 + 7` of them from 9 on, since the pointers advance by
-- one byte for each word.
pub memcpy_lem :
    (src dst size : ℕ) (m : ℕ → ℕ)
    → Disjoint src dst (copied size)
    → Copied m src dst (copied size) (memcpy src dst size m)
memcpy_lem src dst size m apart = elim (Bool-cases (ltb size 8)) [
  | inl few ↦ rw few (memcpy-few src dst size m (ground arith) (rw few at apart))
  | inr many ↦ rw many (memcpy-many src dst size m (ground arith) (rw many at apart))
]
