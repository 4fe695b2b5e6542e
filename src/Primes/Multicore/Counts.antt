-- ===== src/Primes/Multicore/Counts.antt =====
-- What the cores have counted at each step of `prime_multicore_test`.
use cob_kernel.Common.{
  ℕ, ◌+◌, ◌≤◌, ◌<◌, ◌≡◌, inl, inr, refl, sym, ap, ◌∙◌, arith, true, false, ==-of_ne, ==-of_eq,
  Bool-cases, update,
}
use cob_kernel.WorkQueue.{Queue}
use cob_kernel.WorkQueue.Order.{Reach-Inv}
use cob_kernel.Primes.Multicore.{
  PrimeParams, params_of, start_at, stop_at, task_of, Position, at_post, at_stop, in_post, returned,
  Multicore, has_left, Step, enter_round, leave, write_start, write_stop, post, leave_posts, wait,
  leave_waits, work, IsQuiet, MulticoreReach, start, next,
}
use cob_kernel.Primes.Multicore.Queues.{is_open, Kept}
use cob_kernel.Primes.Multicore.Places.{QueuesInv, IsQuiet-IsSettled, MulticoreReach-QueuesInv}
use cob_kernel.Primes.Multicore.Pending.{
  all_of, all_of-none, all_of-write, all_of-update, weigh, weigh-append, unrun, IsSettled-unrun,
  Post-unrun, Wait-unrun, Work-unrun, pending, pending-none, pending-some, pending-same,
}

-- What a queue holds at a place at which it is closed.
Kept-unrun :
    {p : PrimeParams} {place : Position} {k : ℕ} {q : Queue}
    → Kept p place k q
    → is_open p place k ≡ false
    → unrun q ≡ false
Kept-unrun v closed = IsSettled-unrun (v.settled closed)

Kept-task :
    {p : PrimeParams} {place : Position} {k : ℕ} {q : Queue}
    → Kept p place k q
    → unrun q ≡ true
    → q.entry.task ≡ task_of p k
unfolding unrun
Kept-task v here = v.known here

module _ (w : ℕ → ℕ → ℕ) (p : PrimeParams) where
  abbrev all_pending : (ℕ → ℕ) → (ℕ → Queue) → ℕ
  all_pending memory queues = all_of (λ k. pending w p memory k (queues k))

  record CountsInv (s : Multicore) : Type 0 where
    half : (i k : ℕ) → s.place ≡ at_stop i k → s.memory (params_of p k) ≡ start_at p i k
    whole :
        (i k : ℕ)
        → s.place ≡ in_post i k
        → (s.memory (params_of p k) ≡ start_at p i k)
          × (s.memory (params_of p k + 8) ≡ stop_at p i k)
    sum : weigh w s.counted + all_pending s.memory s.queues ≡ weigh w s.posted

  written_start :
      (m : ℕ → ℕ) (i k i' k' : ℕ)
      → at_stop i k ≡ at_stop i' k'
      → update m (params_of p k) (start_at p i k) (params_of p k') ≡ start_at p i' k'
  written_start m i k i' k' e =
      let start : i ≡ i' = cc in
      let at : k ≡ k' = cc in rw (← start, ← at, ==-of_eq (params_of p k) (params_of p k) refl) refl

  written_stop :
      (m : ℕ → ℕ) (i k i' k' : ℕ)
      → in_post i k ≡ in_post i' k'
      → m (params_of p k) ≡ start_at p i k
      → (update m (params_of p k + 8) (stop_at p i k) (params_of p k') ≡ start_at p i' k')
        × (update m (params_of p k + 8) (stop_at p i k) (params_of p k' + 8) ≡ stop_at p i' k')
  written_stop m i k i' k' e first =
      let start : i ≡ i' = cc in
      let at : k ≡ k' = cc in
      rw
        (
          ← start,
          ← at,
          ==-of_ne (params_of p k + 8) (params_of p k) (λ c. omega (arith, c)),
          ==-of_eq (params_of p k + 8) (params_of p k + 8) refl,
        )
        (first, refl)

  closed-post : (i k : ℕ) → is_open p (at_post i k) k ≡ false
  unfolding is_open
  closed-post i k = ground arith

  closed-stop : (i k : ℕ) → is_open p (at_stop i k) k ≡ false
  unfolding is_open
  closed-stop i k = ground arith

  closed-in : (i k : ℕ) → is_open p (in_post i k) k ≡ false
  unfolding is_open
  closed-in i k = ground arith

  post-inside :
      {s : Multicore} → p.num_cores ≤ 3 → (i k : ℕ) → s.place ≡ in_post i k → QueuesInv p s → k < 3
  post-inside few i k e v = let lt : k < p.num_cores = rw e at v.inside in omega (arith, lt, few)

  Step-CountsInv :
      {s t : Multicore} → p.num_cores ≤ 3 → Step p s t → QueuesInv p s → CountsInv s → CountsInv t
  Step-CountsInv few (enter_round i e lt) v c = record {
    half = λ i k e. absurd cc;
    whole = λ i k e. absurd cc;
    sum = c.sum;
  }
  Step-CountsInv few (leave i e lt) v c = record {
    half = λ i k e. absurd cc;
    whole = λ i k e. absurd cc;
    sum = c.sum;
  }
  Step-CountsInv few (leave_posts i k e lt) v c = record {
    half = λ i k e. absurd cc;
    whole = λ i k e. absurd cc;
    sum = c.sum;
  }
  Step-CountsInv few (leave_waits i k e lt) v c = record {
    half = λ i k e. absurd cc;
    whole = λ i k e. absurd cc;
    sum = c.sum;
  }
  Step-CountsInv {s} few (write_start i k e lt) v c =
      let kept : Kept p (at_post i k) k (s.queues k) =
        rw e at (v.kept k (omega (arith, lt, few))) in
      let same =
        all_of-write w p s.memory s.queues k (params_of p k) (start_at p i k) (inl refl)
          (Kept-unrun kept (closed-post i k)) in
      record {
        half = λ i' k' e. written_start s.memory i k i' k' e;
        whole = λ i k e. absurd cc;
        sum = ap (λ n. weigh w s.counted + n) (sym same) ∙ c.sum;
      }
  Step-CountsInv {s} few (write_stop i k e) v c =
      let lt : k < p.num_cores = rw e at v.inside in
      let kept : Kept p (at_stop i k) k (s.queues k) =
        rw e at (v.kept k (omega (arith, lt, few))) in
      let same =
        all_of-write w p s.memory s.queues k (params_of p k + 8) (stop_at p i k) (inr refl)
          (Kept-unrun kept (closed-stop i k)) in
      record {
        half = λ i k e. absurd cc;
        whole = λ i' k' e'. written_stop s.memory i k i' k' e' (c.half i k e);
        sum = ap (λ n. weigh w s.counted + n) (sym same) ∙ c.sum;
      }
  Step-CountsInv {s} few (post {u} i k e m) v c =
      let lt : k < 3 = post-inside few i k e v in
      let kept : Kept p (in_post i k) k (s.queues k) = rw e at (v.kept k lt) in
      let settled = kept.settled (closed-in i k) in
      let before = pending-none w p s.memory k (s.queues k) (IsSettled-unrun settled) in
      let after = Post-unrun p k settled m in
      elim (Bool-cases (has_left u.poster)) [
        | inl left ↦
            let now = pending-some w p s.memory k u (after ∙ left) in
            let (first, second) = c.whole i k e in
            let moved =
              all_of-update w p s.memory s.queues k (w (start_at p i k) (stop_at p i k)) 0 u lt
                (rw (before, now, first, second) (omega arith)) in
            let more = weigh-append w s.posted (start_at p i k) (stop_at p i k) in
            rw left (record {
              half = λ i k e. absurd cc;
              whole = λ i k e. absurd cc;
              sum = omega (arith, moved, more, c.sum);
            })
        | inr within ↦
            let now = pending-none w p s.memory k u (after ∙ within) in
            let moved = all_of-update w p s.memory s.queues k 0 0 u lt (rw (before, now) refl) in
            rw within (record {
              half = λ i k e. absurd cc;
              whole = λ i' k' e'. c.whole i' k' (e ∙ e');
              sum = omega (arith, moved, c.sum);
            })
      ]
  Step-CountsInv {s} few (wait {u} i k e inside m) v c =
      let lt : k < 3 = omega (arith, inside, few) in
      let same = pending-same w p s.memory k (s.queues k) u (sym (Wait-unrun m)) in
      let moved = all_of-update w p s.memory s.queues k 0 0 u lt (rw same refl) in
      elim (Bool-cases (has_left u.poster)) [
        | inl left ↦ rw left (record {
          half = λ i k e. absurd cc;
          whole = λ i k e. absurd cc;
          sum = omega (arith, moved, c.sum);
        })
        | inr within ↦ rw within (record {
          half = λ i k e. absurd cc;
          whole = λ i k e. absurd cc;
          sum = omega (arith, moved, c.sum);
        })
      ]
  Step-CountsInv {s} few (work {u} k lt m handler) v c =
      elim (Work-unrun (Reach-Inv (v.kept k lt).reached) m) [
        | inl (yes_run, at, first, second) ↦
            let task = Kept-task (v.kept k lt) first in
            let old = pending-some w p s.memory k (s.queues k) first in
            let new = pending-none w p s.memory k u second in
            let moved =
              all_of-update w p s.memory s.queues k 0
                (w (s.memory (params_of p k)) (s.memory (params_of p k + 8))) u lt
                (rw (old, new) (omega arith)) in
            let more =
              weigh-append w s.counted (s.memory (params_of p k)) (s.memory (params_of p k + 8)) in
            rw (yes_run, task)
              (record { half = c.half; whole = c.whole; sum = omega (arith, moved, more, c.sum) })
        | inr (not_run, still) ↦
            let same = pending-same w p s.memory k (s.queues k) u (sym still) in
            let moved = all_of-update w p s.memory s.queues k 0 0 u lt (rw same refl) in
            rw not_run
              (record { half = c.half; whole = c.whole; sum = omega (arith, moved, c.sum) })
      ]

  IsQuiet-CountsInv :
      (queues : ℕ → Queue) (memory : ℕ → ℕ)
      → ((k : ℕ) → k < 3 → IsQuiet (queues k))
      → all_pending memory queues ≡ 0
  IsQuiet-CountsInv queues memory quiet = all_of-none _ (λ k lt.
      pending-none w p memory k (queues k) (IsSettled-unrun (IsQuiet-IsSettled (quiet k lt))))

  MulticoreReach-CountsInv : {s : Multicore} → p.num_cores ≤ 3 → MulticoreReach p s → CountsInv s
  unfolding weigh
  MulticoreReach-CountsInv few (start queues memory quiet) = record {
    half = λ i k e. absurd cc;
    whole = λ i k e. absurd cc;
    sum = omega (arith, IsQuiet-CountsInv queues memory quiet);
  }
  MulticoreReach-CountsInv few (next r st) =
      Step-CountsInv few st (MulticoreReach-QueuesInv few r) (MulticoreReach-CountsInv few r)

  -- When the test returns, each posted range has been counted.
  pub counted-posted :
      {s : Multicore}
      → p.num_cores ≤ 3
      → MulticoreReach p s
      → s.place ≡ returned
      → weigh w s.counted ≡ weigh w s.posted
  unfolding is_open
  counted-posted {s} few r e =
      let v = MulticoreReach-QueuesInv few r in
      let rest : all_pending s.memory s.queues ≡ 0 =
        all_of-none _ (λ k lt.
          pending-none w p s.memory k (s.queues k) (Kept-unrun (v.kept k lt) (rw e refl))) in
      omega (arith, rest, (MulticoreReach-CountsInv few r).sum)
