-- ===== src/Psci/Tests.antt =====
-- A run of the buffer of `get_core_state`.
use cob_kernel.Common.{ℕ, ◌%◌, ◌^◌, ◌≤◌, false, List, [], ◌∷◌, ◌++◌, length, ◌≡◌, ◌≢◌, some}
use cob_kernel.Psci.Print.{core_state_buf}
use cob_kernel.Psci.Buffer.{cpu_text, state_text, core_state_buf_lem}
use cob_kernel.Printf.{ui2a}
use cob_kernel.Printf.Format.{text, bad_argument}

core_state_buf_lem_example :
    (◌≡◌ {A = ℕ} 2 0 → core_state_buf 2 3 0 ≡ bad_argument)
    × (◌≢◌ {A = ℕ} 2 0
        → (l c : List ℕ) × (ui2a (0 % 2 ^ 32) 16 false ≡ some l)
          × (ui2a (3 % 2 ^ 32) 16 false ≡ some c)
          × (core_state_buf 2 3 0 ≡ text (cpu_text l c ++ state_text 2 ++ (0 ∷ [])))
          × (length (cpu_text l c ++ state_text 2 ++ (0 ∷ [])) ≤ 64))
core_state_buf_lem_example = core_state_buf_lem 2 3 0
