-- ===== src/Psci/CpuOn.antt =====
-- When `psci_cpu_on` returns, and with what.
use cob_kernel.Common.{
  ℕ, zero, suc, ◌<◌, ◌≤◌, ◌≡◌, ◌≢◌, ◌⊎◌, inl, inr, arith, some, ◌==◌, Bool-cases,
}
use cob_kernel.Common.Int.{pos, negsuc}
use cob_kernel.Psci.{
  Firmware, CpuAffinity, raw, cpuon_funcid, psci_on_pending, get_core_state, wait_cpu_on,
  psci_cpu_on,
}

module _ {D : Type 0} (smc : Firmware D) (garbage : ℕ) (a : CpuAffinity) where
  -- The answer of the `n`-th query of the core's state, and the firmware behind it.
  unfoldable pub query : ℕ → D → ℕ × D
  query zero s = get_core_state smc garbage a.aff0 a.aff1 a.aff2 s
  query (suc n) s = query n (get_core_state smc garbage a.aff0 a.aff1 a.aff2 s).1

  wait_cpu_on_lem :
      (n fuel : ℕ) (s : D)
      → (query n s).0 ≡ 0
      → n < fuel
      → (k : ℕ) × (k ≤ n)
        × ((query k s).0 ≡ 0)
        × (wait_cpu_on smc garbage fuel a s ≡ some (query k s).1)
  unfolding query wait_cpu_on
  wait_cpu_on_lem n zero s is_on enough = absurd (omega (arith, enough))
  wait_cpu_on_lem zero (suc fuel) s is_on enough = (0, omega arith, is_on, rw is_on)
  wait_cpu_on_lem (suc n) (suc fuel) s is_on enough =
      elim (Bool-cases ((get_core_state smc garbage a.aff0 a.aff1 a.aff2 s).0 == 0)) [
        | inl now ↦ (0, omega arith, ground (arith, now), rw now)
        | inr later ↦
            let (k, le, answer, run) =
              wait_cpu_on_lem n fuel (get_core_state smc garbage a.aff0 a.aff1 a.aff2 s).1 is_on
                (omega (arith, enough)) in
            (suc k, omega (arith, le), answer, rw (later, run))
      ]

  -- If the firmware, when it answers the call as pending, reports the core as on at some query at the
  -- latest, `psci_cpu_on` returns: 0 if the call succeeds at once, 0 after a query that reports the core as
  -- on if the call is pending, and -1 for every other answer.
  pub psci_cpu_on_lem :
      (n fuel entry ctxid : ℕ) (s : D)
      → let call = smc cpuon_funcid (raw a) entry ctxid s in
        (call.0 ≡ psci_on_pending → (query n call.1).0 ≡ 0)
        → n < fuel
        → ((call.0 ≡ 0) × (psci_cpu_on smc garbage fuel a entry ctxid s ≡ some (pos 0, call.1)))
          ⊎ (((call.0 ≡ psci_on_pending)
                × ((k : ℕ) × ((query k call.1).0 ≡ 0)
                    × (psci_cpu_on smc garbage fuel a entry ctxid s
                        ≡ some (pos 0, (query k call.1).1))))
              ⊎ ((call.0 ≢ 0)
                  × (call.0 ≢ psci_on_pending)
                  × (psci_cpu_on smc garbage fuel a entry ctxid s ≡ some (negsuc 0, call.1))))
  unfolding psci_cpu_on
  psci_cpu_on_lem n fuel entry ctxid s is_on enough =
      let call = smc cpuon_funcid (raw a) entry ctxid s in
      elim (Bool-cases (call.0 == 0)) [
        | inl success ↦ inl (ground (arith, success), rw success)
        | inr other ↦ elim (Bool-cases (call.0 == psci_on_pending)) [
          | inl pending ↦
              let started = is_on (ground (arith, pending)) in
              let (k, le, answer, run) = wait_cpu_on_lem n fuel call.1 started enough in
              inr (inl (ground (arith, pending), (k, answer, rw (other, pending, run))))
          | inr failed ↦
              inr (inr (ground (arith, other), ground (arith, failed), rw (other, failed)))
        ]
      ]
