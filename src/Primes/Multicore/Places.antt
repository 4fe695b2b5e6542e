-- ===== src/Primes/Multicore/Places.antt =====
-- The queues at every step of `prime_multicore_test`.
use cob_kernel.Common.{
  ℕ, ◌+◌, ◌≤◌, ◌<◌, ◌≢◌, refl, sym, arith, ==-of_eq, ==-of_ne, Bool-cases, inl, inr, if◌then◌else◌,
  update, ℕ_discrete,
}
use cob_kernel.WorkQueue.{Queue}
use cob_kernel.WorkQueue.Order.{free, poster_has, worker_has, Reach-Inv}
use cob_kernel.Primes.Multicore.{
  PrimeParams, Position, at_round, at_post, at_stop, in_post, at_wait, returned, Multicore,
  has_left, Step, enter_round, leave, write_start, write_stop, post, leave_posts, wait, leave_waits,
  work, IsQuiet, MulticoreReach, start, next,
}
use cob_kernel.Primes.Multicore.Queues.{
  is_open, is_unrun, IsSettled, Kept, Kept-moved, Post-Kept, Wait-Kept, Work-Kept,
}

-- The queues that are not the one at hand, at each move.
module _ {p : PrimeParams} {i k : ℕ} {q : Queue} where
  Kept-enter_round : Kept p (at_round i) k q → Kept p (at_post i 0) k q
  unfolding is_open
  Kept-enter_round v = Kept-moved v (λ j c. cc) (λ j c. cc) (λ c. refl)

  Kept-leave : Kept p (at_round i) k q → Kept p returned k q
  unfolding is_open
  Kept-leave v = Kept-moved v (λ j c. cc) (λ j c. cc) (λ c. refl)

module _ {p : PrimeParams} {i j k : ℕ} {q : Queue} where
  Kept-write_start : Kept p (at_post i j) k q → Kept p (at_stop i j) k q
  unfolding is_open
  Kept-write_start v = Kept-moved v (λ j c. cc) (λ j c. cc) (λ c. c)

  Kept-write_stop : Kept p (at_stop i j) k q → Kept p (in_post i j) k q
  unfolding is_open
  Kept-write_stop v = Kept-moved v (λ j c. cc) (λ j c. cc) (λ c. c)

  Kept-leave_posts : p.num_cores ≤ j → Kept p (at_post i j) k q → Kept p (at_wait i 0) k q
  unfolding is_open
  Kept-leave_posts all v = Kept-moved v (λ j c. cc) (λ j c. cc) (λ c. ground (arith, c, all))

  Kept-leave_waits :
      {i' : ℕ} → p.num_cores ≤ j → Kept p (at_wait i j) k q → Kept p (at_round i') k q
  unfolding is_open
  Kept-leave_waits all v =
      Kept-moved v (λ j c. cc) (λ i c inside. ground (arith, c, all, inside))
        (λ c. ground (arith, c, all))

  Kept-beside_post :
      (u : Queue)
      → k ≢ j
      → Kept p (in_post i j) k q
      → Kept p (if has_left u.poster then at_post i (j + 1) else in_post i j) k q
  unfolding is_open
  Kept-beside_post u other v = elim (Bool-cases (has_left u.poster)) [
    | inl left ↦
        rw left (
          Kept-moved v (λ j c. ground (arith, c, other)) (λ j c. cc)
            (λ c. ground (arith, c, other)))
    | inr inside ↦ rw inside v
  ]

  Kept-beside_wait :
      (u : Queue)
      → k ≢ j
      → Kept p (at_wait i j) k q
      → Kept p (if has_left u.poster then at_wait i (j + 1) else at_wait i j) k q
  unfolding is_open
  Kept-beside_wait u other v = elim (Bool-cases (has_left u.poster)) [
    | inl left ↦ rw left (
        Kept-moved v (λ j c. cc) (λ i c inside. ground (arith, c, other))
          (λ c. ground (arith, c, other)))
    | inr inside ↦ rw inside v
  ]

-- A write of a queue keeps what holds of every queue.
update-All :
    (P : ℕ → Queue → Type 0) (queues : ℕ → Queue) (k : ℕ) (u : Queue)
    → P k u
    → ((j : ℕ) → j < 3 → j ≢ k → P j (queues j))
    → (j : ℕ) → j < 3
    → P j (update queues k u j)
update-All P queues k u new old j inside = elim (ℕ_discrete j k) [
  | yes e ↦ rw (e, ==-of_eq k k refl) new
  | no ne ↦ rw (==-of_ne k j (λ c. ne (sym c))) (old j inside ne)
]

-- Core 0 is at a queue that the test has.
abbrev pub IsInside : PrimeParams → Position → Type 0
IsInside p (at_round i) = Unit
IsInside p (at_post i k) = Unit
IsInside p (at_stop i k) = k < p.num_cores
IsInside p (in_post i k) = k < p.num_cores
IsInside p (at_wait i k) = Unit
IsInside p returned = Unit

pub record QueuesInv (p : PrimeParams) (s : Multicore) : Type 0 where
  pub inside : IsInside p s.place
  pub kept : (k : ℕ) → k < 3 → Kept p s.place k (s.queues k)

IsInside-post :
    (p : PrimeParams) (i j : ℕ) (u : Queue)
    → j < p.num_cores
    → IsInside p (if has_left u.poster then at_post i (j + 1) else in_post i j)
IsInside-post p i j u inside = elim (Bool-cases (has_left u.poster)) [
  | inl left ↦ rw left tt
  | inr within ↦ rw within inside
]

IsInside-wait :
    (p : PrimeParams) (i j : ℕ) (u : Queue)
    → IsInside p (if has_left u.poster then at_wait i (j + 1) else at_wait i j)
IsInside-wait p i j u = elim (Bool-cases (has_left u.poster)) [
  | inl left ↦ rw left tt
  | inr within ↦ rw within tt
]

pub Step-QueuesInv :
    {p : PrimeParams} {s t : Multicore}
    → p.num_cores ≤ 3
    → Step p s t
    → QueuesInv p s
    → QueuesInv p t
Step-QueuesInv {p} {s} few (enter_round i e lt) v = record {
  inside = tt;
  kept = λ k h. Kept-enter_round (rw e at v.kept k h);
}
Step-QueuesInv {p} {s} few (leave i e le) v = record {
  inside = tt;
  kept = λ k h. Kept-leave (rw e at v.kept k h);
}
Step-QueuesInv {p} {s} few (write_start i j e lt) v = record {
  inside = lt;
  kept = λ k h. Kept-write_start (rw e at v.kept k h);
}
Step-QueuesInv {p} {s} few (write_stop i j e) v = record {
  inside = rw e at v.inside;
  kept = λ k h. Kept-write_stop (rw e at v.kept k h);
}
Step-QueuesInv {p} {s} few (leave_posts i j e le) v = record {
  inside = tt;
  kept = λ k h. Kept-leave_posts le (rw e at v.kept k h);
}
Step-QueuesInv {p} {s} few (leave_waits i j e le) v = record {
  inside = tt;
  kept = λ k h. Kept-leave_waits le (rw e at v.kept k h);
}
Step-QueuesInv {p} {s} few (post {u} i j e m) v =
    let inside : j < p.num_cores = rw e at v.inside in
    let place = if has_left u.poster then at_post i (j + 1) else in_post i j in
    record {
      inside = IsInside-post p i j u inside;
      kept =
          update-All (Kept p place) s.queues j u
            (Post-Kept (rw e at v.kept j (omega (arith, few, inside))) inside m)
            (λ k h other. Kept-beside_post u other (rw e at v.kept k h));
    }
Step-QueuesInv {p} {s} few (wait {u} i j e inside m) v =
    let place = if has_left u.poster then at_wait i (j + 1) else at_wait i j in
    record {
      inside = IsInside-wait p i j u;
      kept =
          update-All (Kept p place) s.queues j u
            (Wait-Kept (rw e at v.kept j (omega (arith, few, inside))) inside m)
            (λ k h other. Kept-beside_wait u other (rw e at v.kept k h));
    }
Step-QueuesInv {p} {s} few (work {u} j lt m handler) v = record {
  inside = v.inside;
  kept =
      update-All (Kept p s.place) s.queues j u (Work-Kept (v.kept j lt) m)
        (λ k h other. v.kept k h);
}

-- Between two tests, a queue has no task.
pub IsQuiet-IsSettled : {q : Queue} → IsQuiet q → IsSettled q
unfolding free poster_has worker_has
IsQuiet-IsSettled {q} v =
    let i = Reach-Inv v.reached in
    record {
      idles = ground (arith, i.token, v.left, v.opened);
      taken = λ z. ground (arith, i.token, v.left, v.opened, z);
    }

IsQuiet-Kept : {p : PrimeParams} {k : ℕ} {q : Queue} → IsQuiet q → Kept p (at_round 0) k q
unfolding is_unrun is_open
IsQuiet-Kept {p} {k} {q} v =
    let settled = IsQuiet-IsSettled v in
    record {
      reached = v.reached;
      stands = rw v.left tt;
      settled = λ c. settled;
      known = λ c. absurd (ground (arith, c, settled.idles, settled.taken));
    }

pub MulticoreReach-QueuesInv :
    {p : PrimeParams} {s : Multicore} → p.num_cores ≤ 3 → MulticoreReach p s → QueuesInv p s
MulticoreReach-QueuesInv few (start queues memory quiet) = record {
  inside = tt;
  kept = λ k h. IsQuiet-Kept (quiet k h);
}
MulticoreReach-QueuesInv few (next r st) = Step-QueuesInv few st (MulticoreReach-QueuesInv few r)
