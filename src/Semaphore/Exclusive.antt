-- ===== src/Semaphore/Exclusive.antt =====
-- arm.S: `arm64_take_semaphore_exclusive` and `arm64_put_semaphore_exclusive` one access at a time, on any
-- number of cores whose accesses interleave in any order. A core has an exclusive monitor, which `ldaxr`
-- sets and without which `stlxr` fails, and an event register, which `wfe` waits for. A store that succeeds
-- clears the monitors of all cores; a monitor of another core that is cleared sets its event register.
use cob_kernel.Common.{ℕ, ◌≡◌, ◌≢◌, Bool, true, false, ◌||◌, ◌==◌, if◌then◌else◌, update}

-- Where a core stands.
pub data Pc : Type 0 where
  -- in neither routine
  outside : Pc
  -- at the `ldaxr` of the take
  take_load : Pc
  -- at its `stlxr`, having read 0
  take_store : Pc
  -- at its `wfe`
  take_spin : Pc
  -- the take has returned, and the core has not called the put yet
  holding : Pc
  -- at the `ldaxr` of the put
  put_load : Pc
  -- at its `stlxr`
  put_store : Pc
  -- at its `sev`
  put_event : Pc

pub record Cores : Type 0 where
  pub sem : ℕ
  pub pc : ℕ → Pc
  pub reserved : ℕ → Bool
  pub event : ℕ → Bool

-- What one core does.
pub data Action : Type 0 where
  call_take load_free load_busy store_taken store_lost wake : Action
  call_put call_stray load_put store_put retry_put send : Action
  lose : Action

-- `ldaxr` by core `i`, which goes on at `p`.
abbrev pub load : Cores → ℕ → Pc → Cores
load s i p = record s { pc = update s.pc i p; reserved = update s.reserved i true }

-- `stlxr` of the word `x` by core `i`, when it succeeds.
abbrev pub store : Cores → ℕ → ℕ → Pc → Cores
store s i x p = record {
  sem = x;
  pc = update s.pc i p;
  reserved = λ _. false;
  event = λ j. if j == i then s.event j else s.event j || s.reserved j;
}

-- Core `i` goes on at `p`.
abbrev pub go : Cores → ℕ → Pc → Cores
go s i p = record s { pc = update s.pc i p }

pub data Step (s : Cores) : Action → ℕ → Cores → Type 0 where
  do_call_take : (i : ℕ) → s.pc i ≡ outside → Step s call_take i (go s i take_load)
  -- `ldaxr x1, [x0]` and the `cbnz` behind it
  do_load_free : (i : ℕ) → s.pc i ≡ take_load → s.sem ≡ 0 → Step s load_free i (load s i take_store)
  do_load_busy : (i : ℕ) → s.pc i ≡ take_load → s.sem ≢ 0 → Step s load_busy i (load s i take_spin)
  -- `stlxr w2, x1, [x0]` and the `cbnz` behind it
  do_store_taken :
      (i : ℕ)
      → s.pc i ≡ take_store
      → s.reserved i ≡ true
      → Step s store_taken i (store s i 1 holding)
  do_store_lost :
      (i : ℕ) → s.pc i ≡ take_store → s.reserved i ≡ false → Step s store_lost i (go s i take_spin)
  -- `wfe` and the branch behind it
  do_wake :
      (i : ℕ)
      → s.pc i ≡ take_spin
      → s.event i ≡ true
      → Step s wake i (record s { pc = update s.pc i take_load; event = update s.event i false })
  -- the core that took the semaphore puts it
  do_call_put : (i : ℕ) → s.pc i ≡ holding → Step s call_put i (go s i put_load)
  -- a core that did not take the semaphore puts it
  do_call_stray : (i : ℕ) → s.pc i ≡ outside → Step s call_stray i (go s i put_load)
  -- `ldaxr`, whose value is not used
  do_load_put : (i : ℕ) → s.pc i ≡ put_load → Step s load_put i (load s i put_store)
  -- `stlxr` and the `bne` behind it
  do_store_put :
      (i : ℕ)
      → s.pc i ≡ put_store
      → s.reserved i ≡ true
      → Step s store_put i (store s i 0 put_event)
  do_retry_put :
      (i : ℕ) → s.pc i ≡ put_store → s.reserved i ≡ false → Step s retry_put i (go s i put_load)
  -- `sev`
  do_send :
      (i : ℕ)
      → s.pc i ≡ put_event
      → Step s send i (record s { pc = update s.pc i outside; event = λ _. true })
  -- a core loses its monitor for another reason
  do_lose :
      (i : ℕ)
      → s.reserved i ≡ true
      → Step s lose i
          (record s { reserved = update s.reserved i false; event = update s.event i true })

-- The states that the given actions lead to, from all cores outside and the semaphore free; the monitors
-- and the event registers hold anything at first.
pub data Reach (allowed : Action → Bool) : Cores → Type 0 where
  start :
      (reserved event : ℕ → Bool)
      → Reach allowed (record { sem = 0; pc = λ _. outside; reserved = reserved; event = event })
  later :
      {s t : Cores} (a : Action) (i : ℕ)
      → Reach allowed s
      → allowed a ≡ true
      → Step s a i t
      → Reach allowed t

abbrev pub anything : Action → Bool
anything _ = true

-- Only the core that took the semaphore puts it.
abbrev pub by_owner : Action → Bool
by_owner call_stray = false
by_owner _ = true
