-- ===== src/KernelInfo/Cache.antt =====
-- What `get_core_context` writes to SCTLR_EL2.
use Prim.Native.Nat.{bit_and}
use cob_kernel.Common.{ℕ, ◌+◌, ◌-◌, ◌*◌, ◌/◌, ◌%◌, ◌^◌, ◌<◌, ◌≡◌, ◌∙◌, arith}
use cob_kernel.Common.Single.{bit_and_clear, bit_or_bit}
use cob_kernel.Util.{set_bits}
use cob_kernel.KernelInfo.{SystemRegisters, get_core_context}

-- `get_core_context` sets bit 2 of SCTLR_EL2, the one that makes data cacheable, and leaves the others as they are.
pub sctlr_cacheable :
    (parange_to_bits : ℕ → ℕ) (regs : SystemRegisters)
    → regs.sctlr_el2 < 2 ^ 64
    → (get_core_context parange_to_bits regs).sctlr
      ≡ regs.sctlr_el2 / 8 * 8 + 4 + regs.sctlr_el2 % 4
unfolding get_core_context set_bits
sctlr_cacheable parange_to_bits regs lt =
    let reg = regs.sctlr_el2 in
    let others : bit_and reg (2 ^ 64 - 5) ≡ reg / 8 * 8 + reg % 4 =
      bit_and_clear 2 64 reg (omega arith) ∙ omega (arith, lt) in
    rw others (bit_or_bit 2 (reg / 8 * 8 + reg % 4) ∙ omega arith)
