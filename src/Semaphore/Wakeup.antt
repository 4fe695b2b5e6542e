-- ===== src/Semaphore/Wakeup.antt =====
-- What a core's monitor says of the word, and that no core sleeps while the semaphore is free.
use cob_kernel.Common.{ℕ, ◌≡◌, ◌≢◌, inl, inr, refl, arith, Bool, true, false, Bool-cases}
use cob_kernel.Semaphore.Exclusive.{
  Pc, take_load, take_store, take_spin, holding, put_load, put_store, put_event, Cores, Action,
  Step, Reach, do_call_take, do_load_free, do_load_busy, do_store_taken, do_store_lost, do_wake,
  do_call_put, do_call_stray, do_load_put, do_store_put, do_retry_put, do_send, do_lose, start,
  later, go, load, store,
}

-- A core that still has the monitor it set has read the word as it is now, and one that has lost it since
-- has its event register set.
pub record Watched (s : Cores) : Type 0 where
  pub read_free : (i : ℕ) → s.pc i ≡ take_store → s.reserved i ≡ true → s.sem ≡ 0
  pub read_busy : (i : ℕ) → s.pc i ≡ take_spin → s.reserved i ≡ true → s.sem ≢ 0
  pub store_event : (i : ℕ) → s.pc i ≡ take_store → s.reserved i ≡ false → s.event i ≡ true
  pub spin_event : (i : ℕ) → s.pc i ≡ take_spin → s.reserved i ≡ false → s.event i ≡ true

-- A core that goes on to a place where its monitor says nothing of the word.
go-Watched :
    (s : Cores) (i : ℕ) (p : Pc) → p ≢ take_store → p ≢ take_spin → Watched s → Watched (go s i p)
go-Watched s i p no_store no_spin v = record {
  read_free = λ j h g. ground (arith, v.read_free j);
  read_busy = λ j h g. ground (arith, v.read_busy j);
  store_event = λ j h g. ground (arith, v.store_event j);
  spin_event = λ j h g. ground (arith, v.spin_event j);
}

load-Watched :
    (s : Cores) (i : ℕ) (p : Pc)
    → (p ≡ take_store → s.sem ≡ 0)
    → (p ≡ take_spin → s.sem ≢ 0)
    → Watched s
    → Watched (load s i p)
load-Watched s i p free busy v = record {
  read_free = λ j h g. ground (arith, v.read_free j);
  read_busy = λ j h g. ground (arith, v.read_busy j);
  store_event = λ j h g. ground (arith, v.store_event j);
  spin_event = λ j h g. ground (arith, v.spin_event j);
}

store-Watched :
    (s : Cores) (i x : ℕ) (p : Pc)
    → p ≢ take_store
    → p ≢ take_spin
    → Watched s
    → Watched (store s i x p)
store-Watched s i x p no_store no_spin v = record {
  read_free = λ j h g. cc;
  read_busy = λ j h g. cc;
  store_event = λ j h g. ground (arith, v.store_event j);
  spin_event = λ j h g. ground (arith, v.spin_event j);
}

Step-Watched : {s : Cores} {a : Action} {i : ℕ} {t : Cores} → Step s a i t → Watched s → Watched t
Step-Watched {s} (do_call_take i e) v = go-Watched s i take_load (cc) (cc) v
Step-Watched {s} (do_load_free i e free) v = load-Watched s i take_store (λ _. free) (cc) v
Step-Watched {s} (do_load_busy i e busy) v = load-Watched s i take_spin (cc) (λ _. busy) v
Step-Watched {s} (do_store_taken i e mine) v = store-Watched s i 1 holding (cc) (cc) v
Step-Watched (do_store_lost i e lost) v = record {
  read_free = λ j h g. ground (arith, v.read_free j);
  read_busy = λ j h g. ground (arith, v.read_busy j);
  store_event = λ j h g. ground (arith, v.store_event j);
  spin_event = λ j h g. ground (arith, v.spin_event j, v.store_event i);
}
Step-Watched (do_wake i e ready) v = record {
  read_free = λ j h g. ground (arith, v.read_free j);
  read_busy = λ j h g. ground (arith, v.read_busy j);
  store_event = λ j h g. ground (arith, v.store_event j);
  spin_event = λ j h g. ground (arith, v.spin_event j);
}
Step-Watched {s} (do_call_put i e) v = go-Watched s i put_load (cc) (cc) v
Step-Watched {s} (do_call_stray i e) v = go-Watched s i put_load (cc) (cc) v
Step-Watched {s} (do_load_put i e) v = load-Watched s i put_store (cc) (cc) v
Step-Watched {s} (do_store_put i e mine) v = store-Watched s i 0 put_event (cc) (cc) v
Step-Watched {s} (do_retry_put i e lost) v = go-Watched s i put_load (cc) (cc) v
Step-Watched (do_send i e) v = record {
  read_free = λ j h g. ground (arith, v.read_free j);
  read_busy = λ j h g. ground (arith, v.read_busy j);
  store_event = λ j h g. refl;
  spin_event = λ j h g. refl;
}
Step-Watched (do_lose i mine) v = record {
  read_free = λ j h g. ground (arith, v.read_free j);
  read_busy = λ j h g. ground (arith, v.read_busy j);
  store_event = λ j h g. ground (arith, v.store_event j);
  spin_event = λ j h g. ground (arith, v.spin_event j);
}

pub Reach-Watched : {allowed : Action → Bool} {s : Cores} → Reach allowed s → Watched s
Reach-Watched (start reserved event) = record {
  read_free = λ i h g. cc;
  read_busy = λ i h g. cc;
  store_event = λ i h g. cc;
  spin_event = λ i h g. cc;
}
Reach-Watched (later a i r ok st) = Step-Watched st (Reach-Watched r)

-- No wake-up is lost: in every interleaving of takes and puts by any cores, a core that waits at the `wfe`
-- while the semaphore is free has its event register set, so that the `wfe` returns.
pub take-wakes :
    {allowed : Action → Bool} {s : Cores}
    → Reach allowed s
    → (i : ℕ) → s.pc i ≡ take_spin
    → s.sem ≡ 0
    → s.event i ≡ true
take-wakes {allowed} {s} r i here free =
    let v = Reach-Watched r in
    elim (Bool-cases (s.reserved i)) [
      | inl mine ↦ absurd (v.read_busy i here mine free)
      | inr lost ↦ v.spin_event i here lost
    ]
