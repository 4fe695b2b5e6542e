-- ===== src/Clock/Tests.antt =====
-- Runs of the clock.
use cob_kernel.Common.{ℕ, ◌+◌, ◌*◌, ◌/◌, ◌≡◌, ◌≤◌, arith, some}
use cob_kernel.Clock.{Clock, wait_us}
use cob_kernel.Clock.Wait.{wait_us_lem}

-- A clock of 54 MHz whose counter advances by 100 from one read to the next.
abbrev clock : Clock
clock = record { frequency = 54000000; read_count = λ k. k * 100 }

wait_us_lem_example :
    (n : ℕ) × (wait_us 10 clock 10 ≡ some n)
    × (n ≤ 1 + 5)
    × (0 * 100 + 10 * 54000000 / 1000000 ≤ n * 100)
wait_us_lem_example =
    wait_us_lem 10 5 10 clock (omega arith) (omega arith) (omega arith) (omega arith)
