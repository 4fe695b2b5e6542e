-- ===== src/Util/Pow2.antt =====
-- `ispow2` finds the powers of two, and takes 0 for one.
use native.Mathlib.Nat.{pow-suc, one-le-pow}
use cob_kernel.Common.{
  ◌↔◌, ℕ, zero, suc, ◌+◌, ◌/◌, ◌%◌, ◌^◌, ◌≤◌, ◌<◌, ◌≡◌, ◌≢◌, ◌⊎◌, inl, inr, arith, true, ◌==◌,
  Bool-cases,
}
use cob_kernel.Util.{ispow2_loop, ispow2}

-- The count never falls, and rises if there is a bit left.
loop_grows :
    (f v c : ℕ)
    → v < 2 ^ f
    → c + f < 256
    → (c ≤ ispow2_loop f v c) × (v ≢ 0 → c < ispow2_loop f v c)
unfolding ispow2_loop
loop_grows zero v c h k = omega arith
loop_grows (suc f) v c h k = ground (arith, pow-suc 2 f, loop_grows f (v / 2) ((c + v % 2) % 256))

loop_sound :
    (f v c : ℕ)
    → v < 2 ^ f
    → c + f < 256
    → v ≢ 0
    → ispow2_loop f v c ≤ c + 1
    → (k : ℕ) × (k < f) × (v ≡ 2 ^ k)
unfolding ispow2_loop
loop_sound zero v c h k nz le = absurd (omega arith)
loop_sound (suc f) v c h k nz le = elim (Bool-cases (v % 2 == 1)) [
  | inl odd ↦
      (0, omega arith, ground (arith, pow-suc 2 f, loop_grows f (v / 2) ((c + v % 2) % 256)))
  | inr even ↦
      let (j, below, e) =
        loop_sound f (v / 2) ((c + v % 2) % 256) (omega (arith, pow-suc 2 f)) (ground arith)
          (ground arith) (ground arith) in
      (suc j, omega arith, ground (arith, pow-suc 2 j))
]

loop_complete : (f k c : ℕ) → k < f → c + f < 256 → ispow2_loop f (2 ^ k) c ≡ c + 1
unfolding ispow2_loop
loop_complete zero k c h b = absurd (omega arith)
loop_complete (suc zero) zero c h b = ground arith
loop_complete (suc (suc f)) zero c h b = ground arith
loop_complete (suc f) (suc k) c h b =
    let half : 2 ^ suc k / 2 ≡ 2 ^ k = omega (arith, pow-suc 2 k) in
    let even : 2 ^ suc k % 2 ≡ 0 = omega (arith, pow-suc 2 k) in
    rw (half, even) (ground (arith, one-le-pow (suc k) 2, loop_complete f k ((c + 0) % 256)))

-- Of the `u64` values exactly 0 and the powers of two pass.
ispow2_iff :
    (v : ℕ) → v < 2 ^ 64 → (ispow2 v ≡ true) ↔ ((v ≡ 0) ⊎ ((k : ℕ) × (k < 64) × (v ≡ 2 ^ k)))
unfolding ispow2
ispow2_iff v h = (λ t. sound t, λ s. complete s)
  where
    sound : ispow2 v ≡ true → (v ≡ 0) ⊎ ((k : ℕ) × (k < 64) × (v ≡ 2 ^ k))
    sound t = elim (Bool-cases (v == 0)) [
      | inl z ↦ inl (ground arith)
      | inr nz ↦ inr (loop_sound 64 v 0 h (omega arith) (ground arith) (ground arith))
    ]

    complete : (v ≡ 0) ⊎ ((k : ℕ) × (k < 64) × (v ≡ 2 ^ k)) → ispow2 v ≡ true
    complete (inl z) = rw z
    complete (inr (k, below, e)) = rw e (ground (arith, loop_complete 64 k 0 below (omega arith)))
