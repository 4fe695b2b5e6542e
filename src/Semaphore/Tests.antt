-- ===== src/Semaphore/Tests.antt =====
-- A run of the semaphore routines: cores 0 and 1 both read 0, core 0 takes the semaphore and frees it, and
-- core 1 waits at its `wfe`.
use cob_kernel.Common.{ℕ, ◌≡◌, refl, true, false, [], ◌∷◌}
use cob_kernel.Semaphore.Exclusive.{
  take_load, take_store, take_spin, holding, put_load, put_store, put_event, outside, Cores, Reach,
  do_call_take, do_load_free, do_store_taken, do_store_lost, do_call_put, do_load_put, do_store_put,
  start, later, by_owner, call_take, load_free, store_taken, store_lost, call_put, load_put,
  store_put, go, load, store,
}
use cob_kernel.Semaphore.Exclusion.{take_excludes}
use cob_kernel.Semaphore.Wakeup.{take-wakes}
use cob_kernel.Semaphore.Atomic.{
  Runs, History, called_take, took, called_put, released, history, view, place_of, waiting,
  releasing, accesses_refine,
}
use cob_kernel.Semaphore.Progress.{routines_return, Leads}

abbrev first : Cores
first = record { sem = 0; pc = λ _. outside; reserved = λ _. false; event = λ _. false }

abbrev both_read : Cores
both_read = load (load (go (go first 0 take_load) 1 take_load) 0 take_store) 1 take_store

abbrev taken : Cores
taken = store both_read 0 1 holding

abbrev freed : Cores
freed = store (load (go (go taken 1 take_spin) 0 put_load) 0 put_store) 0 0 put_event

unfoldable Reach-taken : Reach by_owner taken
Reach-taken =
    later store_taken 0
      (later load_free 1
        (later load_free 0
          (later call_take 1 (later call_take 0 (start _ _) refl (do_call_take 0 refl)) refl
            (do_call_take 1 refl))
          refl (do_load_free 0 refl refl))
        refl (do_load_free 1 refl refl))
      refl (do_store_taken 0 refl refl)

unfoldable Reach-freed : Reach by_owner freed
Reach-freed =
    later store_put 0
      (later load_put 0
        (later call_put 0 (later store_lost 1 Reach-taken refl (do_store_lost 1 refl refl)) refl
          (do_call_put 0 refl))
        refl (do_load_put 0 refl))
      refl (do_store_put 0 refl refl)

take_excludes_example : ◌≡◌ {A = ℕ} 0 0
take_excludes_example = take_excludes Reach-taken 0 0 refl refl

take-wakes_example : freed.event 1 ≡ true
take-wakes_example = take-wakes Reach-freed 1 refl refl

-- What is seen of the run: both call the take, and core 0 takes the semaphore, calls the put and releases it.
abbrev seen_of_run : History
seen_of_run = (released, 0) ∷ (called_put, 0) ∷ (took, 0) ∷ (called_take, 1) ∷ (called_take, 0) ∷ []

accesses_refine_example : Runs false seen_of_run (view freed)
unfolding history Reach-freed Reach-taken
accesses_refine_example = accesses_refine Reach-freed

routines_return_example :
    (place_of (freed.pc 1) ≡ waiting → freed.sem ≡ 0 → Leads 1 freed holding 1)
    × (place_of (freed.pc 1) ≡ releasing → Leads 1 freed outside 0)
routines_return_example = routines_return Reach-freed 1
