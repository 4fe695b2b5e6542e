-- ===== src/KernelInfo/Reports.antt =====
-- The numbers that kernel_info.c and exceptions.c print, read back from the texts.
use cob_kernel.Common.{
  ℕ, ◌%◌, ◌^◌, ◌<◌, ◌≡◌, refl, arith, Bool, true, false, List, [], ◌∷◌, All, Bool-cases, inl, inr,
  ◌==◌, if◌then◌else◌,
}
use cob_kernel.Util.{get_bits_sz, set_bits}
use cob_kernel.Printf.Format.{Printed}
use cob_kernel.KernelInfo.{
  ProcessorState, user, fiq, irq, supervisor, monitor, abort, hypervisor, undefined, system,
  unknown, Cpsr, print_cpsr, SystemRegisters, Hpds, no_hpds, hpds, hpds2, CoreContext,
  get_core_affinity, get_core_context, report_esr,
}
use cob_kernel.KernelInfo.Affinity.{get_core_affinity_lem}
use cob_kernel.KernelInfo.Cache.{sctlr_cacheable}
use cob_kernel.KernelInfo.Print.{
  line, line_of, reading_spsr, state_text, cpsr_texts, hpds_text, context_texts, generic_texts,
  iss_texts, synchronous_texts,
}
use cob_kernel.KernelInfo.Numbers.{
  IsText, line-IsText, Number, Reports, end_of_report, other, shown, Shows, long_hex, hex, int,
  line_of-long_hex, line_of-hex, line_of-int, Reports-append,
}

All-if :
    (b : Bool) (xs ys : List Printed)
    → All IsText xs
    → All IsText ys
    → All IsText (if b then xs else ys)
All-if true xs ys hx hy = hx
All-if false xs ys hx hy = hy

if-IsText : (b : Bool) (p q : Printed) → IsText p → IsText q → IsText (if b then p else q)
if-IsText true p q hp hq = hp
if-IsText false p q hp hq = hq

state_text-IsText : (state : ProcessorState) → IsText (state_text state)
unfolding state_text
state_text-IsText user = line-IsText _ refl
state_text-IsText fiq = line-IsText _ refl
state_text-IsText irq = line-IsText _ refl
state_text-IsText supervisor = line-IsText _ refl
state_text-IsText monitor = line-IsText _ refl
state_text-IsText abort = line-IsText _ refl
state_text-IsText hypervisor = line-IsText _ refl
state_text-IsText undefined = line-IsText _ refl
state_text-IsText system = line-IsText _ refl
state_text-IsText unknown = line-IsText _ refl

hpds_text-IsText : (h : Hpds) → IsText (hpds_text h)
unfolding hpds_text
hpds_text-IsText no_hpds = line-IsText _ refl
hpds_text-IsText hpds = line-IsText _ refl
hpds_text-IsText hpds2 = line-IsText _ refl

reading_spsr-IsText : (elevel : ℕ) → All IsText (reading_spsr elevel)
unfolding reading_spsr
reading_spsr-IsText elevel =
    All-if (elevel == 1) _ _ (line-IsText _ refl, tt)
      (All-if (elevel == 2) _ _ (line-IsText _ refl, tt)
        (All-if (elevel == 3) _ _ (line-IsText _ refl, tt) tt))

-- The three mask bits of the register that `print_cpsr` reads.
abbrev pub cpsr_numbers : Cpsr → List Number
cpsr_numbers c =
    hex "FIQ Mask Bit: 0x" c.fiq_mask
    ∷ hex "IRQ Mask Bit: 0x" c.irq_mask
    ∷ hex "Asynchronous Abort Mask Bit: 0x" c.abort_mask
    ∷ []

cpsr_texts-Reports : (elevel : ℕ) (c : Cpsr) → Reports (cpsr_numbers c) (cpsr_texts elevel c)
unfolding cpsr_texts
cpsr_texts-Reports elevel c =
    let masks = shown (line_of-hex "FIQ Mask Bit: 0x" "\n\r" refl refl _ c.fiq_mask refl) (
      shown (line_of-hex "IRQ Mask Bit: 0x" "\n\r" refl refl _ c.irq_mask refl) (
        shown (line_of-hex "Asynchronous Abort Mask Bit: 0x" "\n\r" refl refl _ c.abort_mask refl) (
          other (if-IsText c.big_endian _ _ (line-IsText _ refl) (line-IsText _ refl))
            (other (line-IsText _ refl) end_of_report)))) in
    Reports-append (reading_spsr elevel) (reading_spsr-IsText elevel) (
      other (line-IsText _ refl) (
        other (if-IsText c.aarch32 _ _ (line-IsText _ refl) (line-IsText _ refl)) (
          other (state_text-IsText c.state)
            (other (if-IsText c.arm _ _ (line-IsText _ refl) (line-IsText _ refl)) masks))))

-- The registers that `get_core_context` prints with `%lx` are 64-bit words.
pub record AreWords (regs : SystemRegisters) : Type 0 where
  pub midr : regs.midr_el1 < 2 ^ 64
  pub current : regs.current_el < 2 ^ 64
  pub sctlr : regs.sctlr_el2 < 2 ^ 64
  pub tcr : regs.tcr_el2 < 2 ^ 64
  pub ttbr0 : regs.ttbr0_el2 < 2 ^ 64
  pub ttbr1 : regs.ttbr1_el2 < 2 ^ 64

affinity-fits : (mpidr : ℕ) → get_core_affinity mpidr < 2 ^ 64
affinity-fits mpidr = omega (arith, get_core_affinity_lem mpidr)

affinity-context :
    (parange_to_bits : ℕ → ℕ) (regs : SystemRegisters)
    → (get_core_context parange_to_bits regs).affinity < 2 ^ 64
unfolding get_core_context
affinity-context parange_to_bits regs = affinity-fits regs.mpidr_el1

-- What `get_core_context` reports, in the order of its texts.
abbrev pub context_numbers : (ℕ → ℕ) → SystemRegisters → List Number
context_numbers parange_to_bits regs =
    long_hex "MIDR val is 0x" regs.midr_el1
    ∷ long_hex "curentEL val is 0x" regs.current_el
    ∷ long_hex "Core affinity is 0x" (get_core_affinity regs.mpidr_el1)
    ∷ long_hex "SCTLR_EL2: 0x" (set_bits regs.sctlr_el2 1 2 1)
    ∷ long_hex "TCR_EL2: 0x" regs.tcr_el2
    ∷ long_hex "TTBR0_EL2: 0x" regs.ttbr0_el2
    ∷ long_hex "TTBR1_EL2: 0x" regs.ttbr1_el2
    ∷ int "Core supports " (parange_to_bits (get_bits_sz regs.id_aa64mmfr0_el1 0 4))
        " bits of Physical Address\n\r"
    ∷ []

features-Reports :
    (c : CoreContext)
    → Reports [] (
        (if c.feat_lpa then line "FEAT_LPA Supported\n\r" else line "FEAT_LPA Not Supported\n\r")
        ∷ (if c.feat_hafdbs
            then line "FEAT_HAFDBS Implemented\n\r"
            else line "FEAT_HAFDBS not Implemented\n\r")
        ∷ hpds_text c.feat_hpds
        ∷ [])
features-Reports c = other (if-IsText c.feat_lpa _ _ (line-IsText _ refl) (line-IsText _ refl)) (
    other (if-IsText c.feat_hafdbs _ _ (line-IsText _ refl) (line-IsText _ refl))
      (other (hpds_text-IsText c.feat_hpds) end_of_report))

sctlr-fits :
    (parange_to_bits : ℕ → ℕ) (regs : SystemRegisters)
    → AreWords regs
    → (get_core_context parange_to_bits regs).sctlr < 2 ^ 64
sctlr-fits parange_to_bits regs w =
    omega (arith, sctlr_cacheable parange_to_bits regs w.sctlr, w.sctlr)

address_bits-context :
    (parange_to_bits : ℕ → ℕ) (regs : SystemRegisters)
    → Shows
        (int "Core supports "
          (parange_to_bits (get_bits_sz regs.id_aa64mmfr0_el1 0 4))
          " bits of Physical Address\n\r")
        (line_of "Core supports %d bits of Physical Address\n\r"
          (get_core_context parange_to_bits regs).address_bits)
unfolding get_core_context
address_bits-context parange_to_bits regs =
    let n = parange_to_bits (get_bits_sz regs.id_aa64mmfr0_el1 0 4) in
    let e : n % 2 ^ 32 % 2 ^ 32 ≡ n % 2 ^ 32 = omega arith in
    let (digits, printed, read) =
      line_of-int "Core supports " " bits of Physical Address\n\r" refl refl _ (n % 2 ^ 32) refl in
    (digits, printed, rw e at read)

context_texts-Reports :
    (parange_to_bits : ℕ → ℕ) (regs : SystemRegisters)
    → AreWords regs
    → Reports (context_numbers parange_to_bits regs) (context_texts parange_to_bits regs)
unfolding context_texts get_core_context
context_texts-Reports parange_to_bits regs w =
    let c = get_core_context parange_to_bits regs in
    let tables = shown (line_of-long_hex "TCR_EL2: 0x" "\n\r" refl refl _ regs.tcr_el2 refl w.tcr) (
      shown (line_of-long_hex "TTBR0_EL2: 0x" "\n\r" refl refl _ regs.ttbr0_el2 refl w.ttbr0) (
        shown (line_of-long_hex "TTBR1_EL2: 0x" "\n\r" refl refl _ regs.ttbr1_el2 refl w.ttbr1)
          (shown (address_bits-context parange_to_bits regs) (features-Reports c)))) in
    shown (line_of-long_hex "MIDR val is 0x" "\n\r" refl refl _ regs.midr_el1 refl w.midr) (
      shown
        (line_of-long_hex "curentEL val is 0x" "\n\r" refl refl _ regs.current_el refl w.current)
        (shown
          (line_of-long_hex "Core affinity is 0x" "\n\r" refl refl _ c.affinity refl
            (affinity-context parange_to_bits regs))
          (other (line-IsText _ refl) (
            shown
              (line_of-long_hex "SCTLR_EL2: 0x" "\n\r" refl refl _ c.sctlr refl
                (sctlr-fits parange_to_bits regs w))
              tables))))

-- The low half of the exception that `handle_generic_exception` is given.
abbrev pub generic_numbers : Bool → ℕ → List Number
generic_numbers console_initialized exception =
    if console_initialized then hex "Got exception 0x" exception ∷ [] else []

-- The class, bits 2 to 7 of ESR_EL2, and the ISS, its bits 0 to 24, if bit 25 is set.
abbrev pub synchronous_numbers : Bool → ℕ → List Number
synchronous_numbers console_initialized esr =
    let iss =
      if get_bits_sz esr 25 1 == 0
      then []
      else long_hex "Valid ISS: 0x" (get_bits_sz esr 0 25) ∷ [] in
    if console_initialized then long_hex "EC is 0x" (get_bits_sz esr 2 6) ∷ iss else []

generic_texts-Reports :
    (console_initialized : Bool) (exception : ℕ)
    → Reports
        (generic_numbers console_initialized exception)
        (generic_texts console_initialized exception)
unfolding generic_texts
generic_texts-Reports false exception = end_of_report
generic_texts-Reports true exception =
    shown (line_of-hex "Got exception 0x" "\n\r" refl refl _ exception refl) end_of_report

synchronous_texts-Reports :
    (console_initialized : Bool) (esr : ℕ)
    → Reports
        (synchronous_numbers console_initialized esr)
        (synchronous_texts console_initialized esr)
unfolding synchronous_texts report_esr iss_texts
synchronous_texts-Reports false esr = end_of_report
synchronous_texts-Reports true esr = other (line-IsText _ refl) (
    shown (line_of-long_hex "EC is 0x" "\n\r" refl refl _ (get_bits_sz esr 2 6) refl (omega arith))
      (elim (Bool-cases (get_bits_sz esr 25 1 == 0)) [
        | inl none_there ↦ rw none_there end_of_report
        | inr valid ↦ rw valid (
            shown
              (line_of-long_hex "Valid ISS: 0x" "\n\r" refl refl _ (get_bits_sz esr 0 25) refl
                (omega arith))
              end_of_report)
      ]))

-- For all 64-bit registers, every `printf` of `get_core_context`, `print_cpsr` and the two handlers prints a
-- text, and `strtol` reads the numbers in them back, each between its own label and the end of its line and in
-- this order: the seven registers in full, with the bits of the core's affinity and with the cache bit set in
-- SCTLR_EL2; the width of an address as an int; the three mask bits; the class and the ISS of a
-- synchronous exception; but only the low 32 bits of a generic exception, which is a u64.
pub reports_read :
    (parange_to_bits : ℕ → ℕ) (regs : SystemRegisters) (elevel garbage exception esr : ℕ)
    (spsr : ℕ → ℕ) (console_initialized : Bool)
    → AreWords regs
    → let cpsr = print_cpsr elevel spsr garbage in
      Reports (context_numbers parange_to_bits regs) (context_texts parange_to_bits regs)
      × Reports (cpsr_numbers cpsr) (cpsr_texts elevel cpsr)
      × Reports
          (generic_numbers console_initialized exception)
          (generic_texts console_initialized exception)
      × Reports
          (synchronous_numbers console_initialized esr)
          (synchronous_texts console_initialized esr)
reports_read parange_to_bits regs elevel garbage exception esr spsr console_initialized w = (
  context_texts-Reports parange_to_bits regs w,
  cpsr_texts-Reports elevel (print_cpsr elevel spsr garbage),
  generic_texts-Reports console_initialized exception,
  synchronous_texts-Reports console_initialized esr,
)
