-- ===== src/Primes/Multicore/Pending.antt =====
-- The task that is pending in a queue of `prime_multicore_test`, and the weight of its range.
use cob_kernel.Common.{
  ℕ, ◌+◌, ◌*◌, ◌<◌, ◌≡◌, ◌≢◌, ◌⊎◌, inl, inr, refl, sym, ◌∙◌, arith, Bool, true, false, List, [],
  ◌∷◌, ◌++◌, ◌==◌, ==-of_ne, ==-of_eq, if◌then◌else◌, update, ℕ_discrete,
}
use cob_kernel.Semaphore.{arm64_take_semaphore_exclusive, arm64_put_semaphore_exclusive}
use cob_kernel.WorkQueue.{
  ran, Queue, Post, post_take, post_write, post_put, Wait, wait_take, wait_put, Work, work_take,
  work_run, work_put,
}
use cob_kernel.WorkQueue.Order.{free, poster_has, worker_has, Inv}
use cob_kernel.Primes.Multicore.{PrimeParams, params_of, task_of, returns_zero, has_left, has_run}
use cob_kernel.Primes.Multicore.Queues.{is_unrun, IsSettled}

-- Over the three queues.
unfoldable pub all_of : (ℕ → ℕ) → ℕ
all_of f = f 0 + f 1 + f 2

pub all_of-same : (f g : ℕ → ℕ) → ((k : ℕ) → k < 3 → f k ≡ g k) → all_of f ≡ all_of g
unfolding all_of
all_of-same f g same =
    omega (arith, same 0 (omega arith), same 1 (omega arith), same 2 (omega arith))

pub all_of-none : (f : ℕ → ℕ) → ((k : ℕ) → k < 3 → f k ≡ 0) → all_of f ≡ 0
unfolding all_of
all_of-none f none_at =
    omega (arith, none_at 0 (omega arith), none_at 1 (omega arith), none_at 2 (omega arith))

below_three : (k : ℕ) → k < 3 → (k ≡ 0) ⊎ (k ≡ 1) ⊎ (k ≡ 2)
below_three k lt = ground (arith, lt)

pub all_of-moved :
    (f g : ℕ → ℕ) (k a b : ℕ)
    → k < 3
    → f k + a ≡ g k + b
    → ((j : ℕ) → j < 3 → j ≢ k → f j ≡ g j)
    → all_of f + a ≡ all_of g + b
unfolding all_of
all_of-moved f g k a b lt here same = elim (below_three k lt) [
  | inl e ↦
      let here' : f 0 + a ≡ g 0 + b = rw e at here in
      omega (
        arith,
        here',
        same 1 (omega arith) (omega (arith, e)),
        same 2 (omega arith) (omega (arith, e)),
      )
  | inr (inl e) ↦
      let here' : f 1 + a ≡ g 1 + b = rw e at here in
      omega (
        arith,
        here',
        same 0 (omega arith) (omega (arith, e)),
        same 2 (omega arith) (omega (arith, e)),
      )
  | inr (inr e) ↦
      let here' : f 2 + a ≡ g 2 + b = rw e at here in
      omega (
        arith,
        here',
        same 0 (omega arith) (omega (arith, e)),
        same 1 (omega arith) (omega (arith, e)),
      )
]

-- The sum of a weight over the ranges.
unfoldable pub weigh : (ℕ → ℕ → ℕ) → List (ℕ × ℕ) → ℕ
weigh w [] = 0
weigh w ((a, b) ∷ xs) = w a b + weigh w xs

pub weigh-append :
    (w : ℕ → ℕ → ℕ) (xs : List (ℕ × ℕ)) (a b : ℕ) → weigh w (xs ++ (a, b) ∷ []) ≡ weigh w xs + w a b
unfolding weigh
weigh-append w [] a b = omega arith
weigh-append w ((c, d) ∷ xs) a b = omega (arith, weigh-append w xs a b)

unfoldable pub unrun : Queue → Bool
unrun q = is_unrun q.worker q.entry.submission_sem

pub IsSettled-unrun : {q : Queue} → IsSettled q → unrun q ≡ false
unfolding unrun is_unrun
IsSettled-unrun {q} v = ground (arith, v.idles, v.taken)

-- A task is pending when `post_work_blocking` returns, and not before.
pub Post-unrun :
    (p : PrimeParams) (k : ℕ) {q u : Queue}
    → IsSettled q
    → Post (task_of p k) q u
    → unrun u ≡ has_left u.poster
unfolding unrun is_unrun has_left arm64_put_semaphore_exclusive
Post-unrun p k v (post_take sem e take) = ground (arith, v.idles, v.taken)
Post-unrun p k v (post_write e) = ground (arith, v.idles, v.taken)
Post-unrun p k v (post_put e) = ground (arith, v.idles, v.taken)

pub Wait-unrun : {q u : Queue} → Wait q u → unrun u ≡ unrun q
unfolding unrun
Wait-unrun (wait_take sem e take) = refl
Wait-unrun (wait_put e) = refl

-- A task is no more pending when it has run, and before that it is.
pub Work-unrun :
    {q u : Queue}
    → Inv q
    → Work returns_zero q u
    → ((has_run u.worker ≡ true) × (u.worker ≡ ran) × (unrun q ≡ true) × (unrun u ≡ false))
      ⊎ ((has_run u.worker ≡ false) × (unrun u ≡ unrun q))
unfolding unrun is_unrun has_run free poster_has worker_has arm64_take_semaphore_exclusive
Work-unrun {q} i (work_take sem e take) = inr (refl, ground (arith, e, take))
Work-unrun {q} i (work_run e) = inl (refl, refl, rw e refl, refl)
Work-unrun {q} i (work_put e) = inr (refl, ground (arith, e, i.token))

-- The weight of the task of a queue, from the places in `params` that it has.
unfoldable pub pending : (ℕ → ℕ → ℕ) → PrimeParams → (ℕ → ℕ) → ℕ → Queue → ℕ
pending w p memory k q =
    if unrun q then w (memory (params_of p k)) (memory (params_of p k + 8)) else 0

pub pending-none :
    (w : ℕ → ℕ → ℕ) (p : PrimeParams) (memory : ℕ → ℕ) (k : ℕ) (q : Queue)
    → unrun q ≡ false
    → pending w p memory k q ≡ 0
unfolding pending
pending-none w p memory k q e = rw e refl

pub pending-some :
    (w : ℕ → ℕ → ℕ) (p : PrimeParams) (memory : ℕ → ℕ) (k : ℕ) (q : Queue)
    → unrun q ≡ true
    → pending w p memory k q ≡ w (memory (params_of p k)) (memory (params_of p k + 8))
unfolding pending
pending-some w p memory k q e = rw e refl

pub pending-same :
    (w : ℕ → ℕ → ℕ) (p : PrimeParams) (memory : ℕ → ℕ) (k : ℕ) (q u : Queue)
    → unrun q ≡ unrun u
    → pending w p memory k q ≡ pending w p memory k u
unfolding pending
pending-same w p memory k q u e = rw e refl

-- The places in `params` of two queues do not meet.
pub pending-beside :
    (w : ℕ → ℕ → ℕ) (p : PrimeParams) (memory : ℕ → ℕ) (j k a v : ℕ) (q : Queue)
    → (a ≡ params_of p k) ⊎ (a ≡ params_of p k + 8)
    → j ≢ k
    → pending w p memory j q ≡ pending w p (update memory a v) j q
unfolding pending params_of
pending-beside w p memory j k a v q places other =
    let low : (a == p.params + j * 16) ≡ false =
      ==-of_ne _ _ (λ c. ground (arith, c, places, other)) in
    let high : (a == p.params + j * 16 + 8) ≡ false =
      ==-of_ne _ _ (λ c. ground (arith, c, places, other)) in
    rw (low, high) refl

-- While nothing is pending in a queue, its place in `params` can be written.
pub all_of-write :
    (w : ℕ → ℕ → ℕ) (p : PrimeParams) (memory : ℕ → ℕ) (queues : ℕ → Queue) (k a v : ℕ)
    → (a ≡ params_of p k) ⊎ (a ≡ params_of p k + 8)
    → unrun (queues k) ≡ false
    → all_of (λ j. pending w p memory j (queues j))
      ≡ all_of (λ j. pending w p (update memory a v) j (queues j))
all_of-write w p memory queues k a v places none_here = all_of-same _ _ (λ j h.
    elim (ℕ_discrete j k) [
      | yes e ↦
          let none_there : unrun (queues j) ≡ false = rw e none_here in
          pending-none w p memory j (queues j) none_there
          ∙ sym (pending-none w p (update memory a v) j (queues j) none_there)
      | no ne ↦ pending-beside w p memory j k a v (queues j) places ne
    ])

-- A write of one queue.
pub all_of-update :
    (w : ℕ → ℕ → ℕ) (p : PrimeParams) (memory : ℕ → ℕ) (queues : ℕ → Queue) (k a b : ℕ) (u : Queue)
    → k < 3
    → pending w p memory k (queues k) + a ≡ pending w p memory k u + b
    → all_of (λ j. pending w p memory j (queues j)) + a
      ≡ all_of (λ j. pending w p memory j (update queues k u j)) + b
all_of-update w p memory queues k a b u lt here =
    all_of-moved _ _ k a b lt (rw (==-of_eq k k refl) here)
      (λ j h ne. rw (==-of_ne k j (λ c. ne (sym c))) refl)
