-- ===== src/Semaphore/Atomic.antt =====
-- What the two routines promise: each is one access to the word, that of the functions of Semaphore.antt.
-- The accesses of Semaphore/Exclusive.antt keep that promise.
use mathlib.Core.Path.{fun_ext, subst}
use cob_kernel.Common.{ℕ, ◌≡◌, refl, sym, ap, arith, update, Bool, true, some, List, [], ◌∷◌}
use cob_kernel.Semaphore.{arm64_take_semaphore_exclusive, arm64_put_semaphore_exclusive}
use cob_kernel.Semaphore.Exclusive.{
  Pc, outside, take_load, take_store, take_spin, holding, put_load, put_store, put_event, Cores,
  Action, call_take, call_put, call_stray, store_taken, store_put, Step, Reach, do_call_take,
  do_load_free, do_load_busy, do_store_taken, do_store_lost, do_wake, do_call_put, do_call_stray,
  do_load_put, do_store_put, do_retry_put, do_send, do_lose, start, later,
}
use cob_kernel.Semaphore.Wakeup.{Watched, Reach-Watched}

-- Where a core stands: in neither routine, in the take, with the semaphore, or in the put.
pub data Place : Type 0 where
  away waiting owning releasing : Place

-- The word and the cores.
pub record Lock : Type 0 where
  pub word : ℕ
  pub place : ℕ → Place

-- What is seen of a core: a call of the take, the take of the semaphore, a call of the put by the core that
-- took it or by one that did not, and the release of the semaphore.
pub data Event : Type 0 where
  called_take took called_put called_stray released : Event

-- What was seen, and of which core, the last first.
abbrev pub History : Type 0
History = List (Event × ℕ)

-- What one core does: a call, or the one access of a routine. A core that did not take the semaphore calls
-- the put only if `strays` says so.
pub data Access (strays : Bool) (l : Lock) : Event → ℕ → Lock → Type 0 where
  begin_take :
      (i : ℕ)
      → l.place i ≡ away
      → Access strays l called_take i (record l { place = update l.place i waiting })
  take :
      (i word : ℕ)
      → l.place i ≡ waiting
      → arm64_take_semaphore_exclusive l.word ≡ some word
      → Access strays l took i (record { word = word; place = update l.place i owning })
  begin_put :
      (i : ℕ)
      → l.place i ≡ owning
      → Access strays l called_put i (record l { place = update l.place i releasing })
  begin_stray :
      (i : ℕ)
      → strays ≡ true
      → l.place i ≡ away
      → Access strays l called_stray i (record l { place = update l.place i releasing })
  put :
      (i : ℕ)
      → l.place i ≡ releasing
      → Access strays l released i
          (record { word = arm64_put_semaphore_exclusive l.word; place = update l.place i away })

-- The histories of the promise, with the states they lead to.
pub data Runs (strays : Bool) : History → Lock → Type 0 where
  idle : Runs strays [] (record { word = 0; place = λ _. away })
  then :
      {h : History} {l m : Lock} {e : Event} {i : ℕ}
      → Runs strays h l
      → Access strays l e i m
      → Runs strays ((e, i) ∷ h) m

-- What is seen of an access: the store that ends the take is the take, that of the put the release.
abbrev pub seen : Action → ℕ → History → History
seen call_take i h = (called_take, i) ∷ h
seen store_taken i h = (took, i) ∷ h
seen call_put i h = (called_put, i) ∷ h
seen call_stray i h = (called_stray, i) ∷ h
seen store_put i h = (released, i) ∷ h
seen _ i h = h

-- What is seen of the accesses that lead to a state.
unfoldable pub history : {allowed : Action → Bool} {s : Cores} → Reach allowed s → History
history (start reserved event) = []
history (later a i r ok st) = seen a i (history r)

-- The place of a core that stands at an access. The put is done with its store.
abbrev pub place_of : Pc → Place
place_of outside = away
place_of take_load = waiting
place_of take_store = waiting
place_of take_spin = waiting
place_of holding = owning
place_of put_load = releasing
place_of put_store = releasing
place_of put_event = away

abbrev places : (ℕ → Pc) → ℕ → Place
places pc i = place_of (pc i)

abbrev pub view : Cores → Lock
view s = record { word = s.sem; place = places s.pc }

-- A core that goes on to another place.
moved :
    {strays : Bool} {h : History} (x : ℕ) (pc : ℕ → Pc) (i : ℕ) (p : Pc)
    → Runs strays h (record { word = x; place = update (places pc) i (place_of p) })
    → Runs strays h (record { word = x; place = places (update pc i p) })
moved {strays} {h} x pc i p r =
    let same : places (update pc i p) ≡ update (places pc) i (place_of p) =
      fun_ext (λ j. ground arith) in
    subst (λ f. Runs strays h (record { word = x; place = f })) (sym same) r

-- A core that goes on and keeps its place.
stayed :
    {strays : Bool} {h : History} (x : ℕ) (pc : ℕ → Pc) (i : ℕ) (from to : Pc)
    → pc i ≡ from
    → place_of to ≡ place_of from
    → Runs strays h (record { word = x; place = places pc })
    → Runs strays h (record { word = x; place = places (update pc i to) })
stayed {strays} {h} x pc i from to here keeps r =
    let same : places pc ≡ places (update pc i to) = fun_ext (λ j. ground arith) in
    subst (λ f. Runs strays h (record { word = x; place = f })) same r

-- A store of the take finds the word free.
take-at : (word : ℕ) → word ≡ 0 → arm64_take_semaphore_exclusive word ≡ some 1
unfolding arm64_take_semaphore_exclusive
take-at word free = rw free refl

step-Runs :
    (allowed : Action → Bool) {s : Cores} {a : Action} {i : ℕ} {t : Cores} {h : History}
    → Step s a i t
    → allowed a ≡ true
    → Watched s
    → Runs (allowed call_stray) h (view s)
    → Runs (allowed call_stray) (seen a i h) (view t)
unfolding arm64_put_semaphore_exclusive
step-Runs allowed {s} (do_call_take i e) ok w r =
    moved s.sem s.pc i take_load (then r (begin_take i (ap place_of e)))
step-Runs allowed {s} (do_load_free i e free) ok w r =
    stayed s.sem s.pc i take_load take_store e refl r
step-Runs allowed {s} (do_load_busy i e busy) ok w r =
    stayed s.sem s.pc i take_load take_spin e refl r
step-Runs allowed {s} (do_store_taken i e mine) ok w r =
    moved 1 s.pc i holding
      (then r (take i 1 (ap place_of e) (take-at s.sem (w.read_free i e mine))))
step-Runs allowed {s} (do_store_lost i e lost) ok w r =
    stayed s.sem s.pc i take_store take_spin e refl r
step-Runs allowed {s} (do_wake i e ready) ok w r = stayed s.sem s.pc i take_spin take_load e refl r
step-Runs allowed {s} (do_call_put i e) ok w r =
    moved s.sem s.pc i put_load (then r (begin_put i (ap place_of e)))
step-Runs allowed {s} (do_call_stray i e) ok w r =
    moved s.sem s.pc i put_load (then r (begin_stray i ok (ap place_of e)))
step-Runs allowed {s} (do_load_put i e) ok w r = stayed s.sem s.pc i put_load put_store e refl r
step-Runs allowed {s} (do_store_put i e mine) ok w r =
    moved 0 s.pc i put_event (then r (put i (ap place_of e)))
step-Runs allowed {s} (do_retry_put i e lost) ok w r =
    stayed s.sem s.pc i put_store put_load e refl r
step-Runs allowed {s} (do_send i e) ok w r = stayed s.sem s.pc i put_event outside e refl r
step-Runs allowed (do_lose i mine) ok w r = r

-- Whatever the accesses of the two routines do, on any number of cores and in any order, the atomic functions
-- do with the same history of calls, takes and releases, each by the same core, and they come to the same word
-- and places: a take, which is the store that ends the routine, is one that the atomic function grants, on a free
-- word. If the accesses allow no put by a core that did not take the semaphore, the promise allows none.
pub accesses_refine :
    {allowed : Action → Bool} {s : Cores} (r : Reach allowed s)
    → Runs (allowed call_stray) (history r) (view s)
unfolding history
accesses_refine (start reserved event) = idle
accesses_refine {allowed} (later a i r ok st) =
    step-Runs allowed st ok (Reach-Watched r) (accesses_refine r)
