-- ===== src/KernelInfo/Print.antt =====
-- kernel_info.c and exceptions.c: what is printed, a text for each `printf`.
use Prim.Native.String.{String}
use cob_kernel.Common.{ℕ, Bool, List, [], ◌∷◌, ◌++◌, ◌==◌, if◌then◌else◌}
use cob_kernel.Common.Bytes.{bytes}
use cob_kernel.Util.{get_bits_sz}
use cob_kernel.Printf.Format.{word, Printed, tfp_format}
use cob_kernel.KernelInfo.{
  ProcessorState, user, fiq, irq, supervisor, monitor, abort, hypervisor, undefined, system,
  unknown, Cpsr, SystemRegisters, Hpds, no_hpds, hpds, hpds2, get_core_context, report_esr,
}

-- `printf` without arguments, and with one.
unfoldable pub line : String → Printed
line fmt = tfp_format (bytes fmt) []

unfoldable pub line_of : String → ℕ → Printed
line_of fmt n = tfp_format (bytes fmt) (word n ∷ [])

-- The switch on the exception level.
unfoldable pub reading_spsr : ℕ → List Printed
reading_spsr elevel =
    if elevel == 1
    then line "Reading SPSR_EL1\n\r" ∷ []
    else if elevel == 2
    then line "Reading SPSR_EL2\n\r" ∷ []
    else if elevel == 3
    then line "Reading SPSR_EL3\n\r" ∷ []
    else []

unfoldable pub state_text : ProcessorState → Printed
state_text user = line "  User State\n\r"
state_text fiq = line "  FIQ State\n\r"
state_text irq = line "  IRQ State\n\r"
state_text supervisor = line "  Supervisor State\n\r"
state_text monitor = line "  Monitor State\n\r"
state_text abort = line "  Abort State\n\r"
state_text hypervisor = line "  Hypervisor State\n\r"
state_text undefined = line "  Undefined State\n\r"
state_text system = line "  System State\n\r"
state_text unknown = line "  Unknown state!\n\r"

unfoldable pub cpsr_texts : ℕ → Cpsr → List Printed
cpsr_texts elevel c =
    reading_spsr elevel
    ++ line "Processor state: "
      ∷ (if c.aarch32 then line "  Aarch32  " else line "  Aarch64 ")
      ∷ state_text c.state
      ∷ (if c.arm
          then line "Core operating in ARM state\n\r"
          else line "Core operating in Thumb or Jazelle state\n\r")
      ∷ line_of "FIQ Mask Bit: 0x%x\n\r" c.fiq_mask
      ∷ line_of "IRQ Mask Bit: 0x%x\n\r" c.irq_mask
      ∷ line_of "Asynchronous Abort Mask Bit: 0x%x\n\r" c.abort_mask
      ∷ (if c.big_endian
          then line "Big Endian Operation\n\r"
          else line "Litle Endian Operation\n\r")
      ∷ line "\n\r"
      ∷ []

-- `print_scr_el3`, given SCR_EL3.
unfoldable pub print_scr_el3 : ℕ → List Printed
print_scr_el3 scr =
    line "Reading SCR_EL3\n\r"
      ∷ (if get_bits_sz scr 18 1 == 0 then [] else line "Secure EL2 enabled\n\r" ∷ [])
    ++ (if get_bits_sz scr 0 1 == 0 then [] else line "Secure EL0/EL1 enabled\n\r" ∷ [])

unfoldable pub hpds_text : Hpds → Printed
hpds_text no_hpds = line "FEAT_HPDS Not Implemented\n\r"
hpds_text hpds = line "FEAT_HPDS Implemented\n\r"
hpds_text hpds2 = line "FEAT_HPDS2 Implemented\n\r"

-- What `get_core_context` prints.
unfoldable pub context_texts : (ℕ → ℕ) → SystemRegisters → List Printed
context_texts parange_to_bits regs =
    let c = get_core_context parange_to_bits regs in
    line_of "MIDR val is 0x%lx\n\r" regs.midr_el1
    ∷ line_of "curentEL val is 0x%lx\n\r" regs.current_el
    ∷ line_of "Core affinity is 0x%lx\n\r" c.affinity
    ∷ line "\n\r"
    ∷ line_of "SCTLR_EL2: 0x%lx\n\r" c.sctlr
    ∷ line_of "TCR_EL2: 0x%lx\n\r" regs.tcr_el2
    ∷ line_of "TTBR0_EL2: 0x%lx\n\r" regs.ttbr0_el2
    ∷ line_of "TTBR1_EL2: 0x%lx\n\r" regs.ttbr1_el2
    ∷ line_of "Core supports %d bits of Physical Address\n\r" c.address_bits
    ∷ (if c.feat_lpa then line "FEAT_LPA Supported\n\r" else line "FEAT_LPA Not Supported\n\r")
    ∷ (if c.feat_hafdbs
        then line "FEAT_HAFDBS Implemented\n\r"
        else line "FEAT_HAFDBS not Implemented\n\r")
    ∷ hpds_text c.feat_hpds
    ∷ []

-- What `handle_generic_exception` prints.
unfoldable pub generic_texts : Bool → ℕ → List Printed
generic_texts console_initialized exception =
    if console_initialized then line_of "Got exception 0x%x\n\r" exception ∷ [] else []

unfoldable pub iss_texts : List ℕ → List Printed
iss_texts [] = []
iss_texts (iss ∷ rest) = line_of "Valid ISS: 0x%lx\n\r" iss ∷ iss_texts rest

-- What `handle_synchronous_exception` prints, given ESR_EL2.
unfoldable pub synchronous_texts : Bool → ℕ → List Printed
synchronous_texts console_initialized esr =
    let (class, iss) = report_esr esr in
    if console_initialized
    then line "Got Synchronous exception\n\r" ∷ line_of "EC is 0x%lx\n\r" class ∷ iss_texts iss
    else []
