-- ===== src/Psci/Print.antt =====
-- psci.c: `get_psci_version`, and what `get_core_state` prints.
use Prim.Native.String.{String}
use cob_kernel.Common.{ℕ, ◌%◌, ◌^◌, List, [], ◌∷◌, ◌==◌, if◌then◌else◌}
use cob_kernel.Common.Bytes.{bytes}
use cob_kernel.Util.{get_bits_sz}
use cob_kernel.Printf.Format.{
  word, str, Printed, text, bad_argument, out_of_fuel, tfp_format, tfp_sprintf,
}
use cob_kernel.Printf.Log.{Verbosity, log_info}
use cob_kernel.Psci.{Firmware, get_core_state}

abbrev pub psci_version_funcid : ℕ
psci_version_funcid = 0x84000000

module _ {D : Type 0} (smc : Firmware D) where
  -- `get_psci_version`: the `u32` that it returns, what it prints, and the firmware.
  unfoldable pub get_psci_version : D → ℕ × Printed × D
  get_psci_version s =
      let (a0, s') = smc psci_version_funcid 0 0 0 s in
      (
        a0 % 2 ^ 32,
        tfp_format (bytes "PSCI Version %x.%x\n\r")
            (word (get_bits_sz (a0 % 2 ^ 32) 0 16) ∷ word (get_bits_sz (a0 % 2 ^ 32) 16 15) ∷ []),
        s',
      )

-- The string that a buffer holds: its bytes before the NUL.
unfoldable pub string_in : List ℕ → List ℕ
string_in [] = []
string_in (c ∷ s) = let rest = string_in s in if c == 0 then [] else c ∷ rest

-- A `sprintf` that reads the text of an earlier one with `%s`, and writes it where it already stands.
unfoldable pub sprintf_behind : Printed → String → Printed
sprintf_behind (text buf) fmt = tfp_sprintf (bytes fmt) (str (string_in buf) ∷ [])
sprintf_behind bad_argument fmt = bad_argument
sprintf_behind out_of_fuel fmt = out_of_fuel

-- What `get_core_state` writes into `buf`, given the answer `ret`; the `sprintf` for a core that is on has
-- no argument.
unfoldable pub core_state_buf : ℕ → ℕ → ℕ → Printed
core_state_buf ret core cluster =
    let buf = tfp_sprintf (bytes "CPU %x:%x ") (word cluster ∷ word core ∷ []) in
    if ret == 2
    then sprintf_behind buf "%sON_PENDING \n\r"
    else if ret == 1
    then sprintf_behind buf "%sOFF \n\r"
    else if ret == 0
    then tfp_sprintf (bytes "%sON \n\r") []
    else sprintf_behind buf "%sINVALID PSCI COMMAND \n\r"

-- The `LOG_INFO` of a buffer.
unfoldable pub log_buf : Verbosity → Printed → List Printed
log_buf v (text buf) = log_info v "psci.c" "%s" (str (string_in buf) ∷ [])
log_buf v bad_argument = bad_argument ∷ []
log_buf v out_of_fuel = out_of_fuel ∷ []

-- `get_core_state` with what it prints.
unfoldable pub report_core_state :
    {D : Type 0} → Firmware D → ℕ → Verbosity → ℕ → ℕ → ℕ → D → ℕ × List Printed × D
report_core_state smc garbage v thread core cluster s =
    let (ret, s') = get_core_state smc garbage thread core cluster s in
    (ret, log_buf v (core_state_buf ret core cluster), s')
