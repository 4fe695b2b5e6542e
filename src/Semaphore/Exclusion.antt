-- ===== src/Semaphore/Exclusion.antt =====
-- At most one core has the semaphore when only the core that took it puts it.
use cob_kernel.Common.{ℕ, ◌≡◌, refl, arith, update, Bool, true, false}
use cob_kernel.Semaphore.Exclusive.{
  Pc, outside, take_load, take_store, take_spin, holding, put_load, put_store, put_event, Cores,
  Action, Step, Reach, do_call_take, do_load_free, do_load_busy, do_store_taken, do_store_lost,
  do_wake, do_call_put, do_call_stray, do_load_put, do_store_put, do_retry_put, do_send, do_lose,
  start, later, by_owner,
}
use cob_kernel.Semaphore.Wakeup.{Watched, Reach-Watched}

-- From the store of the take to the store of the put.
abbrev pub has_semaphore : Pc → Bool
has_semaphore holding = true
has_semaphore put_load = true
has_semaphore put_store = true
has_semaphore _ = false

-- The word is 1 while a core has the semaphore, and at most one core has it.
record Owned (sem : ℕ) (pc : ℕ → Pc) : Type 0 where
  locked : (i : ℕ) → has_semaphore (pc i) ≡ true → sem ≡ 1
  single : (i j : ℕ) → has_semaphore (pc i) ≡ true → has_semaphore (pc j) ≡ true → i ≡ j

-- A core that goes on without taking or putting the semaphore.
go-Owned :
    (sem : ℕ) (pc : ℕ → Pc) (i : ℕ) (from to : Pc)
    → pc i ≡ from
    → has_semaphore to ≡ has_semaphore from
    → Owned sem pc
    → Owned sem (update pc i to)
go-Owned sem pc i from to here same v = record {
  locked = λ j h. ground (arith, v.locked j);
  single = λ j k h g. ground (arith, v.single j k);
}

Step-Owned :
    {s : Cores} {a : Action} {i : ℕ} {t : Cores}
    → Step s a i t
    → by_owner a ≡ true
    → Watched s
    → Owned s.sem s.pc
    → Owned t.sem t.pc
Step-Owned (do_call_take i e) ok w v = go-Owned _ _ i outside take_load e refl v
Step-Owned (do_load_free i e free) ok w v = go-Owned _ _ i take_load take_store e refl v
Step-Owned (do_load_busy i e busy) ok w v = go-Owned _ _ i take_load take_spin e refl v
Step-Owned (do_store_taken i e mine) ok w v =
    let free = w.read_free i e mine in
    record { locked = λ j h. refl; single = λ j k h g. ground (arith, v.locked j, v.locked k) }
Step-Owned (do_store_lost i e lost) ok w v = go-Owned _ _ i take_store take_spin e refl v
Step-Owned (do_wake i e ready) ok w v = go-Owned _ _ i take_spin take_load e refl v
Step-Owned (do_call_put i e) ok w v = go-Owned _ _ i holding put_load e refl v
Step-Owned (do_call_stray i e) ok w v = absurd (cc ok)
Step-Owned (do_load_put i e) ok w v = go-Owned _ _ i put_load put_store e refl v
Step-Owned (do_store_put i e mine) ok w v = record {
  locked = λ j h. ground (arith, v.single j i);
  single = λ j k h g. ground (arith, v.single j k);
}
Step-Owned (do_retry_put i e lost) ok w v = go-Owned _ _ i put_store put_load e refl v
Step-Owned (do_send i e) ok w v = go-Owned _ _ i put_event outside e refl v
Step-Owned (do_lose i mine) ok w v = v

Reach-Owned : {s : Cores} → Reach by_owner s → Owned s.sem s.pc
Reach-Owned (start reserved event) = record { locked = λ i h. cc; single = λ i j h g. cc }
Reach-Owned (later a i r ok st) = Step-Owned st ok (Reach-Watched r) (Reach-Owned r)

-- The routines exclude: when only the core that took the semaphore puts it, at most one core is between
-- the store of its take and the store of its put, in every interleaving and whatever monitors are lost.
pub take_excludes :
    {s : Cores}
    → Reach by_owner s
    → (i j : ℕ) → has_semaphore (s.pc i) ≡ true
    → has_semaphore (s.pc j) ≡ true
    → i ≡ j
take_excludes r = (Reach-Owned r).single
