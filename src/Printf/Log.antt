-- ===== src/Printf/Log.antt =====
-- include/util.h: the macros LOG_DEBUG, LOG_INFO and LOG_ERROR.
use Prim.Native.String.{String}
use cob_kernel.Common.{List, [], ◌∷◌, ◌++◌}
use cob_kernel.Common.Bytes.{bytes}
use cob_kernel.Printf.Format.{Arg, Printed, tfp_format}

-- What the build defines: VERBOSITY_DEBUG, VERBOSITY_INFO, VERBOSITY_ERROR or none of them.
pub data Verbosity : Type 0 where
  verbosity_none verbosity_error verbosity_info verbosity_debug : Verbosity

-- `LOG_LEVEL(level, fmt, ...)` in the given file: what its `printf` prints.
unfoldable pub log_level : String → String → String → List Arg → Printed
log_level level file fmt va =
    tfp_format (bytes "[" ++ bytes level ++ bytes "] " ++ bytes file ++ bytes ": " ++ bytes fmt) va

-- `LOG_DEBUG`: the texts printed, one or none.
unfoldable pub log_debug : Verbosity → String → String → List Arg → List Printed
log_debug verbosity_debug file fmt va = log_level "DEBUG" file fmt va ∷ []
log_debug _ file fmt va = []

-- `LOG_INFO`
unfoldable pub log_info : Verbosity → String → String → List Arg → List Printed
log_info verbosity_debug file fmt va = log_level "INFO" file fmt va ∷ []
log_info verbosity_info file fmt va = log_level "INFO" file fmt va ∷ []
log_info _ file fmt va = []

-- `LOG_ERROR`
unfoldable pub log_error : Verbosity → String → String → List Arg → List Printed
log_error verbosity_none file fmt va = []
log_error _ file fmt va = log_level "ERROR" file fmt va ∷ []
