-- ===== src/Psci.antt =====
-- psci.c and include/psci.h: the calls of the firmware that starts the cores. The firmware is a parameter:
-- given a function id, three arguments and its state, it answers with a register.
mod Tests
pub mod CpuOn
pub mod Print
pub mod Buffer
use cob_kernel.Common.{
  ℕ, zero, suc, ◌+◌, ◌-◌, ◌*◌, ◌/◌, ◌%◌, ◌^◌, Option, none, some, ◌>>=◌, ◌==◌, if◌then◌else◌,
}
use cob_kernel.Common.Int.{ℤ, pos, negsuc}

-- `struct cpu_affinity`, as `union psci_affinity_param` reads it; its reserved bytes are as they were.
pub record CpuAffinity : Type 0 where
  pub aff0 : ℕ
  pub aff1 : ℕ
  pub aff2 : ℕ
  pub res0 : ℕ
  pub aff3 : ℕ
  pub res1 : ℕ

-- `raw`, with the first byte lowest.
unfoldable pub raw : CpuAffinity → ℕ
raw a =
    a.aff0 + a.aff1 * 2 ^ 8 + a.aff2 * 2 ^ 16 + a.res0 * 2 ^ 24 + a.aff3 * 2 ^ 32 + a.res1 * 2 ^ 40

abbrev pub affinity_info_funcid : ℕ
affinity_info_funcid = 0xC4000004

abbrev pub cpuon_funcid : ℕ
cpuon_funcid = 0xC4000003

-- The pattern of PSCI_ON_PENDING, -5.
abbrev pub psci_on_pending : ℕ
psci_on_pending = 2 ^ 64 - 5

-- `arm_smccc_smc`
abbrev pub Firmware : Type 0 → Type 0
Firmware D = ℕ → ℕ → ℕ → ℕ → D → ℕ × D

module _ {D : Type 0} (smc : Firmware D) (garbage : ℕ) where
  -- `get_core_state`, less what it prints; `res0` and `res1` are not set, and are what the stack holds.
  unfoldable pub get_core_state : ℕ → ℕ → ℕ → D → ℕ × D
  get_core_state thread core cluster s =
      let affinity : CpuAffinity = record {
        aff0 = thread;
        aff1 = core;
        aff2 = cluster;
        res0 = garbage % 2 ^ 8;
        aff3 = 0;
        res1 = garbage / 2 ^ 8 % 2 ^ 24;
      } in
      smc affinity_info_funcid (raw affinity) 0 0 s

  -- `_wait_cpu_on`, with fuel; the wait of a millisecond between two calls does not touch the firmware.
  unfoldable pub wait_cpu_on : ℕ → CpuAffinity → D → Option D
  wait_cpu_on zero a s = none
  wait_cpu_on (suc fuel) a s =
      let (state, s') = get_core_state a.aff0 a.aff1 a.aff2 s in
      let rest = wait_cpu_on fuel a s' in if state == 0 then some s' else rest

  -- `psci_cpu_on`; `none` when the fuel of the wait runs out.
  unfoldable pub psci_cpu_on : ℕ → CpuAffinity → ℕ → ℕ → D → Option (ℤ × D)
  psci_cpu_on fuel a entry ctxid s =
      let (ret, s') = smc cpuon_funcid (raw a) entry ctxid s in
      if ret == 0
      then some (pos 0, s')
      else if ret == psci_on_pending
      then wait_cpu_on fuel a s' >>= (λ s''. some (pos 0, s''))
      else some (negsuc 0, s')
