-- ===== src/Semaphore/Progress.antt =====
-- A core that runs alone gets through both routines.
use cob_kernel.Common.{ℕ, ◌≡◌, refl, arith, update, Bool, true, false, inl, inr, Bool-cases}
use cob_kernel.Semaphore.Exclusive.{
  Pc, outside, take_load, take_store, take_spin, holding, put_load, put_store, put_event, Cores,
  Action, Step, Reach, do_load_free, do_store_taken, do_store_lost, do_wake, do_load_put,
  do_store_put, do_retry_put, do_send, go, load, store, store_taken, load_free, store_lost, wake,
  send, store_put, load_put, retry_put,
}
use cob_kernel.Semaphore.Atomic.{place_of, waiting, releasing}
use cob_kernel.Semaphore.Wakeup.{take-wakes, Reach-Watched}

-- Steps of core `i` only, and none that loses its monitor for no reason.
pub data Alone (i : ℕ) (s : Cores) : Cores → Type 0 where
  stay : Alone i s s
  go_on : {t u : Cores} (a : Action) → Alone i s t → Step t a i u → Alone i s u

-- Core `i` alone gets to the place `p` with the word at `x`.
abbrev pub Leads : ℕ → Cores → Pc → ℕ → Type 0
Leads i s p x = (t : Cores) × Alone i s t × (t.pc i ≡ p) × (t.sem ≡ x)

take-from_load :
    (s u : Cores) (i : ℕ) → Alone i s u → u.pc i ≡ take_load → u.sem ≡ 0 → Leads i s holding 1
take-from_load s u i run here free =
    let loaded = load u i take_store in
    (
      store loaded i 1 holding,
      go_on store_taken (go_on load_free run (do_load_free i here free))
          (do_store_taken i (ground arith) (ground arith)),
      ground arith,
      refl,
    )

take-from_spin :
    (s u : Cores) (i : ℕ)
    → Alone i s u
    → u.pc i ≡ take_spin
    → u.event i ≡ true
    → u.sem ≡ 0
    → Leads i s holding 1
take-from_spin s u i run here ready free =
    take-from_load s (record u { pc = update u.pc i take_load; event = update u.event i false }) i
      (go_on wake run (do_wake i here ready)) (ground arith) free

put-from_store :
    (s u : Cores) (i : ℕ)
    → Alone i s u
    → u.pc i ≡ put_store
    → u.reserved i ≡ true
    → Leads i s outside 0
put-from_store s u i run here mine =
    let stored = store u i 0 put_event in
    (
      record stored { pc = update stored.pc i outside; event = λ _. true },
      go_on send (go_on store_put run (do_store_put i here mine)) (do_send i (ground arith)),
      ground arith,
      refl,
    )

put-from_load : (s u : Cores) (i : ℕ) → Alone i s u → u.pc i ≡ put_load → Leads i s outside 0
put-from_load s u i run here =
    put-from_store s (load u i put_store) i (go_on load_put run (do_load_put i here)) (ground arith)
      (ground arith)

module _ {allowed : Action → Bool} {s : Cores} (r : Reach allowed s) (i : ℕ) where
  take-from : (p : Pc) → s.pc i ≡ p → place_of p ≡ waiting → s.sem ≡ 0 → Leads i s holding 1
  take-from take_load here at free = take-from_load s s i stay here free
  take-from take_spin here at free = take-from_spin s s i stay here (take-wakes r i here free) free
  take-from take_store here at free = elim (Bool-cases (s.reserved i)) [
    | inl mine ↦ (
      store s i 1 holding,
      go_on store_taken stay (do_store_taken i here mine),
      ground arith,
      refl,
    )
    | inr lost ↦
        take-from_spin s (go s i take_spin) i (go_on store_lost stay (do_store_lost i here lost))
          (ground arith) ((Reach-Watched r).store_event i here lost) free
  ]
  take-from outside here at free = absurd (cc at)
  take-from holding here at free = absurd (cc at)
  take-from put_load here at free = absurd (cc at)
  take-from put_store here at free = absurd (cc at)
  take-from put_event here at free = absurd (cc at)

  put-from : (p : Pc) → s.pc i ≡ p → place_of p ≡ releasing → Leads i s outside 0
  put-from put_load here at = put-from_load s s i stay here
  put-from put_store here at = elim (Bool-cases (s.reserved i)) [
    | inl mine ↦ put-from_store s s i stay here mine
    | inr lost ↦
        put-from_load s (go s i put_load) i (go_on retry_put stay (do_retry_put i here lost))
          (ground arith)
  ]
  put-from outside here at = absurd (cc at)
  put-from holding here at = absurd (cc at)
  put-from take_load here at = absurd (cc at)
  put-from take_store here at = absurd (cc at)
  put-from take_spin here at = absurd (cc at)
  put-from put_event here at = absurd (cc at)

  -- Both routines return: in every reachable state, a core that is in the take gets the semaphore by its
  -- own steps alone when it is free, from the `wfe` too, and a core that is in the put frees it and returns
  -- by its own steps alone.
  pub routines_return :
      (place_of (s.pc i) ≡ waiting → s.sem ≡ 0 → Leads i s holding 1)
      × (place_of (s.pc i) ≡ releasing → Leads i s outside 0)
  routines_return = (take-from (s.pc i) refl, put-from (s.pc i) refl)
