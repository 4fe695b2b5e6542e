-- ===== src/Clock.antt =====
-- time.c and include/time.h. The counter is the sequence of the values that its successive reads give.
mod Tests
pub mod Wait
use cob_kernel.Common.{
  ℕ, zero, suc, ◌+◌, ◌*◌, ◌/◌, ◌%◌, ◌^◌, Option, none, some, ltb, ◌==◌, if◌then◌else◌,
}
use cob_kernel.Common.Int.{ℤ, pos, negsuc}

-- US_TO_CYCLES
unfoldable pub us_to_cycles : ℕ → ℕ → ℕ
us_to_cycles us freq = us * freq % 2 ^ 64 / 1000000

-- CYCLES_TO_US
unfoldable pub cycles_to_us : ℕ → ℕ → ℕ
cycles_to_us cycles freq = cycles * 1000000 % 2 ^ 64 / freq

-- `struct clock`, with what its reads give.
pub record Clock : Type 0 where
  pub frequency : ℕ
  pub read_count : ℕ → ℕ

-- `aarch64_init_sysclk`, given CNTFRQ_EL0 and the counter; the reads of a clock that is not set up stay.
unfoldable pub aarch64_init_sysclk : ℕ → (ℕ → ℕ) → Clock → ℤ × Clock
aarch64_init_sysclk cntfrq cntpct clk =
    if cntfrq == 0
    then (negsuc 0, record clk { frequency = cntfrq })
    else (pos 0, record { frequency = cntfrq; read_count = cntpct })

-- `get_kernel_time_us`, at read `k` of the kernel's clock.
unfoldable pub get_kernel_time_us : Clock → ℕ → ℕ
get_kernel_time_us kernel_clock k = cycles_to_us (kernel_clock.read_count k) kernel_clock.frequency

-- `while (clk->read_count() < end)` from read `k` on, with fuel: the read that ends it.
unfoldable pub wait_loop : ℕ → (ℕ → ℕ) → ℕ → ℕ → Option ℕ
wait_loop zero count k stop = none
wait_loop (suc fuel) count k stop =
    let rest = wait_loop fuel count (k + 1) stop in if ltb (count k) stop then rest else some k

-- `_wait_us`: the first read is `start`.
unfoldable pub wait_us : ℕ → Clock → ℕ → Option ℕ
wait_us fuel clk us =
    let stop = (clk.read_count 0 + us_to_cycles us clk.frequency) % 2 ^ 64 in
    wait_loop fuel clk.read_count 1 stop
