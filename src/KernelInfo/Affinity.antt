-- ===== src/KernelInfo/Affinity.antt =====
-- The affinity of a core, and what follows from it when the core starts and when it gets an exception.
use Prim.Native.Nat.{bit_and}
use cob_kernel.Common.{
  ℕ, ◌+◌, ◌*◌, ◌/◌, ◌%◌, ◌^◌, ◌<◌, ◌≡◌, refl, ◌∙◌, arith, Bool, true, [], ◌∷◌, ==-of_ne,
}
use cob_kernel.Common.Bits.{bit_and_low, bit_and_field}
use cob_kernel.Common.Bor.{shifted_bit_or}
use cob_kernel.Util.{get_bits_sz}
use cob_kernel.Psci.{raw}
use cob_kernel.Kernel.{core_affinity}
use cob_kernel.KernelInfo.{
  get_core_affinity, start, restart, handle_generic_exception, handle_synchronous_exception,
  secondary_main, main_role,
}

-- `get_core_affinity` has the three low affinity bytes of MPIDR_EL1 in place, and Aff3, which is byte 4 of it,
-- as byte 3.
pub get_core_affinity_lem :
    (mpidr : ℕ) → get_core_affinity mpidr ≡ get_bits_sz mpidr 0 24 + get_bits_sz mpidr 32 8 * 2 ^ 24
unfolding get_core_affinity
get_core_affinity_lem mpidr =
    let low : bit_and mpidr 0xffffff ≡ mpidr % 2 ^ 24 = bit_and_low 24 mpidr in
    let high : bit_and (mpidr / 2 ^ 8) 0xff000000 ≡ mpidr / 2 ^ 8 % 2 ^ 32 / 2 ^ 24 * 2 ^ 24 =
      bit_and_field 24 32 (mpidr / 2 ^ 8) (omega arith) in
    rw (low, high)
      (shifted_bit_or 24 (mpidr / 2 ^ 8 % 2 ^ 32 / 2 ^ 24) (mpidr % 2 ^ 24) (omega arith)
        ∙ omega arith)

-- The affinity of core `i`, as `main` writes it for the firmware.
started_affinity : (i : ℕ) → i < 256 → raw (core_affinity 0 i) ≡ i * 2 ^ 8
unfolding raw
started_affinity i lt = omega (arith, lt)

restart-started :
    (mpidr i : ℕ) → i < 256 → get_core_affinity mpidr ≡ i * 2 ^ 8 → restart mpidr ≡ start ∷ []
unfolding restart
restart-started mpidr i lt e =
    let no_cluster : i * 2 ^ 8 / 2 ^ 16 % 2 ^ 8 ≡ 0 = omega (arith, lt) in rw (e, no_cluster) refl

-- A core other than 0 that has the affinity by which `main` asks the firmware for it takes `main`'s branch for the
-- further cores, with its argument as the queue. But at an exception of either kind it calls `_start` alone,
-- as core 0 does, and not `_secondary_start`, for the handlers test Aff2, and the core's number is in Aff1.
pub core_roles :
    (mpidr i queue esr : ℕ) (initialized : Bool)
    → 0 < i
    → i < 256
    → get_core_affinity mpidr ≡ raw (core_affinity 0 i)
    → (main_role mpidr queue ≡ secondary_main queue)
      × (handle_generic_exception true mpidr ≡ start ∷ [])
      × ((handle_synchronous_exception initialized esr mpidr).1 ≡ start ∷ [])
unfolding main_role handle_generic_exception handle_synchronous_exception
core_roles mpidr i queue esr initialized pos lt e =
    let here = e ∙ started_affinity i lt in
    (
      rw (here, ==-of_ne (i * 2 ^ 8) 0 (omega (arith, pos))) refl,
      restart-started mpidr i lt here,
      restart-started mpidr i lt here,
    )
