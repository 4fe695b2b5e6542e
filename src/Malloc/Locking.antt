-- ===== src/Malloc/Locking.antt =====
-- The semaphore of the region when several cores are inside `_malloc` and `_free`: a core's steps are its
-- accesses to the semaphore word, interleaved in any order. What a core does to the page table happens
-- while it is `inside`.
use cob_kernel.Common.{ℕ, ◌≡◌, ◌≢◌, refl, arith, update, Bool, true, false}

-- Where a core stands.
pub data Pc : Type 0 where
  -- outside both functions
  outside : Pc
  -- in the loop of `arm64_take_semaphore_exclusive`
  taking : Pc
  -- between that call and the put that follows
  inside : Pc
  -- in `_malloc` on success, between the put before the label `_semfree` and the put behind it
  between_puts : Pc

pub record Cores : Type 0 where
  pub sem : ℕ
  pub pc : ℕ → Pc

-- What one core does.
pub data Action : Type 0 where
  call take spin put_found put_again put_leave : Action

pub data Step (s : Cores) : Action → ℕ → Cores → Type 0 where
  -- a call of `_malloc`, or of `_free` with an address in the region
  do_call : (i : ℕ) → s.pc i ≡ outside → Step s call i (record s { pc = update s.pc i taking })
  do_take :
      (i : ℕ)
      → s.pc i ≡ taking
      → s.sem ≡ 0
      → Step s take i (record { sem = 1; pc = update s.pc i inside })
  do_spin : (i : ℕ) → s.pc i ≡ taking → s.sem ≢ 0 → Step s spin i s
  -- `_malloc` has found a hole and marked it
  do_put_found :
      (i : ℕ)
      → s.pc i ≡ inside
      → Step s put_found i (record { sem = 0; pc = update s.pc i between_puts })
  -- then control runs on to the label
  do_put_again :
      (i : ℕ)
      → s.pc i ≡ between_puts
      → Step s put_again i (record { sem = 0; pc = update s.pc i outside })
  -- `_malloc` has found no hole, or `_free` is done
  do_put_leave :
      (i : ℕ)
      → s.pc i ≡ inside
      → Step s put_leave i (record { sem = 0; pc = update s.pc i outside })

-- The states that the given actions lead to, from all cores outside and the semaphore free.
pub data Reach (allowed : Action → Bool) : Cores → Type 0 where
  start : Reach allowed (record { sem = 0; pc = λ _. outside })
  later :
      {s t : Cores} (a : Action) (i : ℕ)
      → Reach allowed s
      → allowed a ≡ true
      → Step s a i t
      → Reach allowed t

abbrev pub anything : Action → Bool
anything _ = true

-- Everything but a `_malloc` that succeeds.
abbrev pub no_success : Action → Bool
no_success put_found = false
no_success _ = true

-- The semaphore says whether a core is inside, at most one is, and none is between two puts.
record Inv (s : Cores) : Type 0 where
  locked : (i : ℕ) → s.pc i ≡ inside → s.sem ≡ 1
  single : (i j : ℕ) → s.pc i ≡ inside → s.pc j ≡ inside → i ≡ j
  none_between : (i : ℕ) → s.pc i ≢ between_puts

Step-Inv :
    {s : Cores} {a : Action} {i : ℕ} {t : Cores}
    → Step s a i t
    → no_success a ≡ true
    → Inv s
    → Inv t
Step-Inv (do_call i e) ok v = record {
  locked = λ j h. ground (arith, v.locked j);
  single = λ j k h g. ground (arith, v.single j k);
  none_between = λ j h. ground (arith, v.none_between j);
}
Step-Inv (do_take i e free) ok v = record {
  locked = λ j h. refl;
  single = λ j k h g. ground (arith, v.locked j, v.locked k);
  none_between = λ j h. ground (arith, v.none_between j);
}
Step-Inv (do_spin i e busy) ok v = v
Step-Inv (do_put_found i e) ok v = cc
Step-Inv (do_put_again i e) ok v = absurd (v.none_between i e)
Step-Inv (do_put_leave i e) ok v = record {
  locked = λ j h. ground (arith, v.single j i);
  single = λ j k h g. ground (arith, v.single j k);
  none_between = λ j h. ground (arith, v.none_between j);
}

Reach-Inv : {s : Cores} → Reach no_success s → Inv s
Reach-Inv start = record { locked = λ i h. cc; single = λ i j h g. cc; none_between = λ i h. cc }
Reach-Inv (later a i r ok st) = Step-Inv st ok (Reach-Inv r)

-- As long as no `_malloc` succeeds, two cores are never inside together, in any interleaving of calls of
-- `_free` and of calls of `_malloc` that find no hole.
exclusive_without_success :
    {s : Cores} → Reach no_success s → (i j : ℕ) → s.pc i ≡ inside → s.pc j ≡ inside → i ≡ j
exclusive_without_success r = (Reach-Inv r).single

-- A `_malloc` that succeeds puts the semaphore twice, and the second put can release it while another
-- core has it: for any three cores there is a reachable state in which two of them are inside.
pub success_breaks_exclusion :
    (a b c : ℕ)
    → a ≢ b
    → a ≢ c
    → b ≢ c
    → (s : Cores) × Reach anything s × (s.pc b ≡ inside) × (s.pc c ≡ inside)
success_breaks_exclusion a b c ab ac bc = (
  _,
  later take c
      (later call c
        (later put_again a
          (later take b
            (later call b
              (later put_found a
                (later take a (later call a start refl (do_call a refl)) refl
                  (do_take a (ground arith) refl))
                refl (do_put_found a (ground arith)))
              refl (do_call b (ground arith)))
            refl (do_take b (ground arith) refl))
          refl (do_put_again a (ground arith)))
        refl (do_call c (ground arith)))
      refl (do_take c (ground arith) refl),
  ground arith,
  ground arith,
)
