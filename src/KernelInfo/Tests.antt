-- ===== src/KernelInfo/Tests.antt =====
-- Runs of the reports on a core.
use cob_kernel.Common.{ℕ, ◌≡◌, refl, arith, true, [], ◌∷◌, ◌+◌, ◌^◌}
use cob_kernel.Psci.{raw}
use cob_kernel.KernelInfo.{
  get_core_affinity, start, handle_generic_exception, handle_synchronous_exception, secondary_main,
  main_role, SystemRegisters, print_cpsr,
}
use cob_kernel.KernelInfo.Affinity.{core_roles}
use cob_kernel.KernelInfo.Print.{context_texts, cpsr_texts, generic_texts, synchronous_texts}
use cob_kernel.KernelInfo.Numbers.{Reports}
use cob_kernel.KernelInfo.Reports.{
  context_numbers, cpsr_numbers, generic_numbers, synchronous_numbers, reports_read,
}

-- The MPIDR_EL1 of core 2.
abbrev mpidr : ℕ
mpidr = 0x81000200

core_roles_example :
    (main_role mpidr 0x210000 ≡ secondary_main 0x210000)
    × (handle_generic_exception true mpidr ≡ start ∷ [])
    × ((handle_synchronous_exception true 0x96000044 mpidr).1 ≡ start ∷ [])
unfolding raw get_core_affinity
core_roles_example = core_roles mpidr 2 0x210000 0x96000044 true (omega arith) (omega arith) refl

-- A Cortex-A76 at EL2.
abbrev registers : SystemRegisters
registers = record {
  midr_el1 = 0x414fd0b1;
  current_el = 8;
  mpidr_el1 = mpidr;
  sctlr_el2 = 0x30c50830;
  tcr_el2 = 0;
  ttbr0_el2 = 0;
  ttbr1_el2 = 0;
  id_aa64mmfr0_el1 = 2;
  id_aa64mmfr1_el1 = 0x1000;
}

reports_read_example :
    let cpsr = print_cpsr 2 (λ n. 0x3c9) 0 in
    Reports (context_numbers (λ n. 40) registers) (context_texts (λ n. 40) registers)
    × Reports (cpsr_numbers cpsr) (cpsr_texts 2 cpsr)
    × Reports (generic_numbers true (2 ^ 32 + 4)) (generic_texts true (2 ^ 32 + 4))
    × Reports (synchronous_numbers true 0x96000044) (synchronous_texts true 0x96000044)
reports_read_example =
    reports_read (λ n. 40) registers 2 0 (2 ^ 32 + 4) 0x96000044 (λ n. 0x3c9) true
      (record {
        midr = omega arith;
        current = omega arith;
        sctlr = omega arith;
        tcr = omega arith;
        ttbr0 = omega arith;
        ttbr1 = omega arith;
      })
