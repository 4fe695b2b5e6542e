-- ===== src/Clock/Wait.antt =====
-- How long `_wait_us` waits, and what the conversions lose.
use native.Mathlib.Nat.{le-div_iff_mul-le, div-le_of_le-mul}
use cob_kernel.Common.{
  ℕ, zero, suc, ◌+◌, ◌*◌, ◌/◌, ◌%◌, ◌^◌, ◌≤◌, ◌<◌, ◌≡◌, inl, inr, arith, some, ltb, Bool-cases,
}
use cob_kernel.Clock.{us_to_cycles, cycles_to_us, Clock, wait_loop, wait_us}

-- The loop ends at the first read that is not below `stop`.
wait_loop_lem :
    (d fuel : ℕ) (count : ℕ → ℕ) (k stop : ℕ)
    → stop ≤ count (k + d)
    → d < fuel
    → (n : ℕ) × (wait_loop fuel count k stop ≡ some n) × (k ≤ n) × (n ≤ k + d) × (stop ≤ count n)
unfolding wait_loop
wait_loop_lem d zero count k stop reached enough = absurd (omega (arith, enough))
wait_loop_lem zero (suc fuel) count k stop reached enough =
    let e : k + 0 ≡ k = omega arith in
    let here : stop ≤ count k = rw e at reached in
    (k, ground (arith, here), omega arith, omega arith, here)
wait_loop_lem (suc d) (suc fuel) count k stop reached enough =
    elim (Bool-cases (ltb (count k) stop)) [
      | inl below ↦
          let e : k + suc d ≡ k + 1 + d = omega arith in
          let (n, run, lo, hi, after) =
            wait_loop_lem d fuel count (k + 1) stop (rw e at reached) (omega (arith, enough)) in
          (n, rw (below, run), omega (arith, lo), omega (arith, hi), after)
      | inr here ↦ (k, rw here, omega arith, omega arith, ground (arith, here))
    ]

-- `_wait_us` returns once the counter has advanced far enough at some read, `d`, and not before it has
-- advanced by the cycles that the microseconds come to, if neither they nor the end wrap around.
pub wait_us_lem :
    (fuel d us : ℕ) (clk : Clock)
    → us * clk.frequency < 2 ^ 64
    → clk.read_count 0 + us * clk.frequency / 1000000 < 2 ^ 64
    → clk.read_count 0 + us * clk.frequency / 1000000 ≤ clk.read_count (1 + d)
    → d < fuel
    → (n : ℕ) × (wait_us fuel clk us ≡ some n)
      × (n ≤ 1 + d)
      × (clk.read_count 0 + us * clk.frequency / 1000000 ≤ clk.read_count n)
unfolding wait_us us_to_cycles
wait_us_lem fuel d us clk small fits reached enough =
    let product : us * clk.frequency % 2 ^ 64 ≡ us * clk.frequency = omega (arith, small) in
    let stop : (clk.read_count 0 + us * clk.frequency / 1000000) % 2 ^ 64
        ≡ clk.read_count 0 + us * clk.frequency / 1000000 =
      omega (arith, fits) in
    let (n, run, _, hi, after) =
      wait_loop_lem d fuel clk.read_count 1 (clk.read_count 0 + us * clk.frequency / 1000000)
        reached enough in
    (n, rw (product, stop, run), hi, after)

back_below : (us freq : ℕ) → us * freq / 1000000 * 1000000 / freq ≤ us
back_below us freq =
    let c : us * freq / 1000000 * 1000000 ≤ us * freq = omega arith in
    div-le_of_le-mul freq {m = us * freq / 1000000 * 1000000} {n = us} (grind (arith, c))

back_above : (us freq : ℕ) → 1000000 ≤ freq → us ≤ us * freq / 1000000 * 1000000 / freq + 1
back_above zero freq fast = omega arith
back_above (suc u) freq fast =
    let c : suc u * freq < suc u * freq / 1000000 * 1000000 + 1000000 = omega arith in
    let step : suc u * freq ≡ u * freq + freq = grind arith in
    let le : u ≤ suc u * freq / 1000000 * 1000000 / freq =
      (le-div_iff_mul-le {k = freq} {x = u} {y = suc u * freq / 1000000 * 1000000}
          (omega (arith, fast))).1
        (omega (arith, c, step, fast)) in
    omega (arith, le)

-- Microseconds that go to cycles and back lose at most one, for a clock of at least 1 MHz, if the product
-- does not wrap around.
cycles_to_us-us_to_cycles :
    (us freq : ℕ)
    → 1000000 ≤ freq
    → us * freq < 2 ^ 64
    → (cycles_to_us (us_to_cycles us freq) freq ≤ us)
      × (us ≤ cycles_to_us (us_to_cycles us freq) freq + 1)
unfolding cycles_to_us us_to_cycles
cycles_to_us-us_to_cycles us freq fast small =
    let product : us * freq % 2 ^ 64 ≡ us * freq = omega (arith, small) in
    let back : us * freq / 1000000 * 1000000 % 2 ^ 64 ≡ us * freq / 1000000 * 1000000 =
      omega (arith, small) in
    rw (product, back) (back_below us freq, back_above us freq fast)
