-- ===== src/Console/Commands.antt =====
-- console.c: the commands that print. What is printed is a list of texts, one for each `printf`.
use cob_kernel.Common.{ℕ, Option, none, some, List, [], ◌∷◌, ◌++◌, ◌>>=◌}
use cob_kernel.Common.Bytes.{bytes}
use cob_kernel.Semaphore.{
  arm64_init_semaphore, arm64_take_semaphore_exclusive, arm64_put_semaphore_exclusive,
}
use cob_kernel.Device.{Bus, wait_fifo_empty, pi5_watchdog_full_reset}
use cob_kernel.Printf.Format.{word, str, Printed, tfp_format}
use cob_kernel.Printf.Log.{Verbosity, log_info, log_error}
use cob_kernel.Temperature.{bcm2712_get_temp}

-- `reboot`, up to where the processor waits for the reset; `none` when the UART does not drain within the
-- fuel.
unfoldable pub reboot : {D : Type 0} → Bus D → ℕ → D → Option (List Printed × D)
reboot bus fuel s =
    wait_fifo_empty bus fuel s
    >>= (λ s'. some (tfp_format (bytes "Rebooting...") [] ∷ [], pi5_watchdog_full_reset bus s'))

-- `sqrt_test`, given `sqrt`.
unfoldable pub sqrt_test : (ℕ → ℕ) → Verbosity → ℕ → List Printed
sqrt_test sqrt v val =
    log_info v "console.c" "Val is %ld\n\r" (word val ∷ [])
    ++ log_info v "console.c" "sqrt of Val is %ld\n\r" (word (sqrt val) ∷ [])

-- `sem_test`, given the address of the semaphore, what the stack holds there, and the word at address 0: the
-- texts, the semaphore and that word; `none` when the core waits.
unfoldable pub sem_test : ℕ → ℕ → ℕ → Option (List Printed × ℕ × ℕ)
sem_test addr sem word_at_zero =
    let init = arm64_init_semaphore sem word_at_zero in
    arm64_take_semaphore_exclusive init.sem >>= (λ taken. some (
      tfp_format (bytes "sem address is 0x%lx\n\r") (word addr ∷ [])
          ∷ tfp_format (bytes "Sem value is 0x%x\n\r") (word sem ∷ [])
          ∷ tfp_format (bytes "Trying to init sem\n\r") []
          ∷ tfp_format (bytes "status after init is 0x%x\n\r") (word init.status ∷ [])
          ∷ tfp_format (bytes "Trying to take sem\n\r") []
          ∷ tfp_format (bytes "trying to release sem\n\r") []
          ∷ tfp_format (bytes "Sem test complete\n\r") []
          ∷ [],
      arm64_put_semaphore_exclusive taken,
      init.word_at_zero,
    ))

-- `print_long_test`
unfoldable pub print_long_test : List Printed
print_long_test =
    let val = word 0xff00ff00 ∷ [] in
    let val2 = word 0xf123456789abcdef ∷ [] in
    let val3 = word 0x0f00ff00 ∷ [] in
    let val4 = word 0x0123456789abcdef ∷ [] in
    tfp_format (bytes "val deciamal Expected: 4278255360 or -16711936. Actual %d\n\r") val
    ∷ tfp_format (bytes "val deciamal Expected: 0xff00ff00. Actual %x\n\r") val
    ∷ tfp_format (bytes "val2 deciamal Expected: ?? or -1070935975390360081. Actual %ld\n\r") val2
    ∷ tfp_format (bytes "val2 deciamal Expected: 0xf123456789abcdef. Actual %lx\n\r") val2
    ∷ tfp_format (bytes "val3 deciamal Expected: 251723520. Actual %d\n\r") val3
    ∷ tfp_format (bytes "val3 deciamal Expected: 0x0f00ff00. Actual %x\n\r") val3
    ∷ tfp_format (bytes "val4 deciamal Expected: 81985529216486895. Actual %ld\n\r") val4
    ∷ tfp_format (bytes "val4 deciamal Expected: 0x0123456789abcdef. Actual %lx\n\r") val4
    ∷ []

-- The texts of `get_temp` for a reading, or for none.
unfoldable pub temp_texts : Verbosity → Option ℕ → List Printed
temp_texts v none = log_error v "console.c" "Could not read temperature\n\r" []
temp_texts v (some val) =
    log_info v "console.c" "Temperature is currently %d mC\n\r" (word val ∷ [])

-- `get_temp`
unfoldable pub get_temp : {D : Type 0} → Bus D → Verbosity → D → List Printed × D
get_temp bus v s = let (val, s') = bcm2712_get_temp bus s in (temp_texts v val, s')

-- What `help` prints of the registered commands: the name and the help of each.
unfoldable pub help_lines : List (List ℕ × List ℕ) → List Printed
help_lines [] = []
help_lines ((name, text_of) ∷ cmds) =
    tfp_format (bytes "  %s: %s\n\r") (str name ∷ str text_of ∷ []) ∷ help_lines cmds

-- `help`
unfoldable pub help : List (List ℕ × List ℕ) → List Printed
help cmds = tfp_format (bytes "Cmds List\n\r") [] ∷ help_lines cmds

-- `getc`, `putc` and `flush_console`, as the addresses of functions.
pub record ConsoleDevice : Type 0 where
  pub getc : ℕ
  pub putc : ℕ
  pub flush_console : ℕ

-- `init_console`
unfoldable pub init_console : ℕ → ℕ → ℕ → ConsoleDevice
init_console getc putc flush_console = record {
  getc = getc;
  putc = putc;
  flush_console = flush_console;
}

-- `display_prompt`
unfoldable pub display_prompt : Printed
display_prompt = tfp_format (bytes "CobKern Husk: ") []
