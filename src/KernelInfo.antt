-- ===== src/KernelInfo.antt =====
-- kernel_info.c and exceptions.c. The system registers are arguments, and so is PARANGE_TO_BITS, a macro that
-- is not part of the repository.
mod Tests
pub mod Affinity
pub mod Cache
pub mod Print
pub mod Numbers
pub mod Reports
use Prim.Native.Nat.{bit_and, bit_or}
use cob_kernel.Common.{
  ℕ, ◌+◌, ◌*◌, ◌/◌, ◌%◌, ◌^◌, Bool, true, false, not, ◌||◌, List, [], ◌∷◌, ◌++◌, ltb, ◌==◌,
  if◌then◌else◌,
}
use cob_kernel.Util.{get_bits_sz, set_bits}

-- `get_core_affinity`, given MPIDR_EL1.
unfoldable pub get_core_affinity : ℕ → ℕ
get_core_affinity mpidr = bit_or (bit_and mpidr 0xffffff) (bit_and (mpidr / 2 ^ 8) 0xff000000)

-- The texts of the switch in `print_cpsr`.
pub data ProcessorState : Type 0 where
  user fiq irq supervisor monitor abort hypervisor undefined system unknown : ProcessorState

unfoldable pub processor_state : ℕ → ProcessorState
processor_state tmp =
    if tmp == 0
    then user
    else if tmp == 1
    then fiq
    else if tmp == 2
    then irq
    else if tmp == 3
    then supervisor
    else if tmp == 22
    then monitor
    else if tmp == 7
    then abort
    else if tmp == 10
    then hypervisor
    else if tmp == 11
    then undefined
    else if tmp == 15
    then system
    else unknown

-- What `print_cpsr` reads from the register.
pub record Cpsr : Type 0 where
  pub aarch32 : Bool
  pub state : ProcessorState
  pub arm : Bool
  pub fiq_mask : ℕ
  pub irq_mask : ℕ
  pub abort_mask : ℕ
  pub big_endian : Bool

-- `print_cpsr`, given SPSR_EL1 to SPSR_EL3 and what `msr` holds before it is set.
unfoldable pub print_cpsr : ℕ → (ℕ → ℕ) → ℕ → Cpsr
print_cpsr elevel spsr garbage =
    let msr = if elevel == 1 || (elevel == 2 || elevel == 3) then spsr elevel else garbage in
    record {
      aarch32 = not (get_bits_sz msr 4 1 == 0);
      state = processor_state (get_bits_sz msr 0 4);
      arm = get_bits_sz msr 5 1 == 0;
      fiq_mask = get_bits_sz msr 6 1;
      irq_mask = get_bits_sz msr 7 1;
      abort_mask = get_bits_sz msr 8 1;
      big_endian = not (get_bits_sz msr 9 1 == 0);
    }

-- The system registers that `get_core_context` reads.
pub record SystemRegisters : Type 0 where
  pub midr_el1 : ℕ
  pub current_el : ℕ
  pub mpidr_el1 : ℕ
  pub sctlr_el2 : ℕ
  pub tcr_el2 : ℕ
  pub ttbr0_el2 : ℕ
  pub ttbr1_el2 : ℕ
  pub id_aa64mmfr0_el1 : ℕ
  pub id_aa64mmfr1_el1 : ℕ

pub data Hpds : Type 0 where
  no_hpds hpds hpds2 : Hpds

-- What `get_core_context` makes of them, and what it writes to SCTLR_EL2.
pub record CoreContext : Type 0 where
  pub affinity : ℕ
  pub sctlr : ℕ
  pub address_bits : ℕ
  pub feat_lpa : Bool
  pub feat_hafdbs : Bool
  pub feat_hpds : Hpds

unfoldable pub get_core_context : (ℕ → ℕ) → SystemRegisters → CoreContext
get_core_context parange_to_bits regs =
    let bits = parange_to_bits (get_bits_sz regs.id_aa64mmfr0_el1 0 4) % 2 ^ 32 in
    let field = get_bits_sz regs.id_aa64mmfr1_el1 12 4 in
    record {
      affinity = get_core_affinity regs.mpidr_el1;
      sctlr = set_bits regs.sctlr_el2 1 2 1;
      address_bits = bits;
      feat_lpa = ltb 48 bits;
      feat_hafdbs = not (field == 0);
      feat_hpds = if field == 0 then no_hpds else if field == 1 then hpds else hpds2;
    }

-- The routines of boot.S that an exception handler calls.
pub data Entry : Type 0 where
  secondary_start : ℕ → Entry
  start : Entry

-- The end of both handlers: what they call, should each call return.
unfoldable pub restart : ℕ → List Entry
restart mpidr =
    let affinity = get_bits_sz (get_core_affinity mpidr) 16 8 in
    (if affinity == 0 then [] else secondary_start affinity ∷ []) ++ start ∷ []

-- `handle_generic_exception`, given `console_initialized` and MPIDR_EL1.
unfoldable pub handle_generic_exception : Bool → ℕ → List Entry
handle_generic_exception console_initialized mpidr =
    if console_initialized then restart mpidr else []

-- What `handle_synchronous_exception` prints of ESR_EL2: the class, and the ISS if it is taken to be valid.
unfoldable pub report_esr : ℕ → ℕ × List ℕ
report_esr esr =
    (get_bits_sz esr 2 6, if get_bits_sz esr 25 1 == 0 then [] else get_bits_sz esr 0 25 ∷ [])

-- `handle_synchronous_exception`, given `console_initialized`, ESR_EL2 and MPIDR_EL1: its report and its calls.
unfoldable pub handle_synchronous_exception : Bool → ℕ → ℕ → List (ℕ × List ℕ) × List Entry
handle_synchronous_exception console_initialized esr mpidr =
    (if console_initialized then report_esr esr ∷ [] else [], restart mpidr)

-- What `main` does on a core, given MPIDR_EL1 and its first argument.
pub data Role : Type 0 where
  -- `secondary_main` with the queue at the address, for ever
  secondary_main : ℕ → Role
  -- the rest of `main`, with the heap from there on
  boots : ℕ → Role

unfoldable pub main_role : ℕ → ℕ → Role
main_role mpidr heap_start =
    if get_core_affinity mpidr == 0 then boots heap_start else secondary_main heap_start
