-- ===== src/Kernel/Cores.antt =====
-- The queues of the cores that `main` starts.
use mathlib.Core.Path.{fun_ext}
use cob_kernel.Common.{
  ℕ, zero, suc, ◌+◌, ◌-◌, ◌*◌, ◌/◌, ◌^◌, ◌≤◌, ◌<◌, ◌≡◌, ◌≢◌, inl, inr, refl, arith, true, false,
  some, List, [], ◌∷◌, ltb, update,
}
use cob_kernel.Common.Int.{ℤ}
use cob_kernel.Malloc.{MemoryRegion, Memory, page_entry_start_addr}
use cob_kernel.Malloc.Init.{Accepted}
use cob_kernel.Malloc.Heap.{init-Represents}
use cob_kernel.Malloc.Table.{slot}
use cob_kernel.Malloc.Pages.{PageSet, first_free}
use cob_kernel.Malloc.Refine.Held.{Represents}
use cob_kernel.WorkQueue.{WorkQueueEntry, create_work_queue_entry}
use cob_kernel.WorkQueue.Life.{new_entry, create-Represents}
use cob_kernel.Psci.{Firmware, raw, cpuon_funcid, psci_on_pending, psci_cpu_on}
use cob_kernel.Psci.CpuOn.{query, psci_cpu_on_lem}
use cob_kernel.Kernel.{
  started, add_queue, after_create, after_cpu_on, start_cores, core_affinity, main_cores,
  init_kheap,
}

-- The first `c` pages.
abbrev pub first_pages : ℕ → PageSet
first_pages c i = ltb i c

update-first_pages : (c : ℕ) → update (first_pages c) c true ≡ first_pages (suc c)
update-first_pages c = fun_ext (λ i. ground arith)

first_free-first_pages : (d n k c : ℕ) → k + d ≡ c → d < n → first_free (first_pages c) n k ≡ some c
unfolding first_free
first_free-first_pages d zero k c e lt = absurd (omega (arith, lt))
first_free-first_pages zero (suc n) k c e lt = ground (arith, e)
first_free-first_pages (suc d) (suc n) k c e lt =
    ground (arith, e, first_free-first_pages d n (suc k) c (omega (arith, e)) (omega (arith, lt)))

create-first :
    {r : MemoryRegion} {m : Memory} (c : ℕ) (q : WorkQueueEntry)
    → Represents r m (first_pages c)
    → 40 ≤ r.page_size
    → c < r.page_table_entries
    → (m' : Memory) × (create_work_queue_entry r m q
        ≡ some (some (c * r.page_size + r.top, new_entry q), r, m'))
      × Represents r m' (first_pages (suc c))
create-first {r} c q v big lt =
    let page = first_free-first_pages c r.page_table_entries 0 c (omega arith) lt in
    rw (update-first_pages c) at (create-Represents c q v big page)

module _ {D : Type 0} (smc : Firmware D) (secondary_start garbage fuel : ℕ)
    (held : ℕ → WorkQueueEntry) where
  -- A call that the firmware answers as pending ends: after it, the firmware reports the core as on at the
  -- `polls`-th query. Nothing is asked of a core that is off, nor of the calls with another answer.
  abbrev pub TurnsOn : ℕ → Type 0
  TurnsOn polls =
      (i ctxid : ℕ) (s : D)
      → let call = smc cpuon_funcid (raw (core_affinity garbage i)) secondary_start ctxid s in
        call.0 ≡ psci_on_pending → (query smc garbage (core_affinity garbage i) polls call.1).0 ≡ 0

  cpu_on_returns :
      (polls i ctxid : ℕ) (s : D)
      → TurnsOn polls
      → polls < fuel
      → (status : ℤ) × (s' : D) × (psci_cpu_on smc garbage fuel
            (core_affinity garbage i)
            secondary_start
            ctxid
            s
          ≡ some (status, s'))
  cpu_on_returns polls i ctxid s on enough =
      elim (psci_cpu_on_lem smc garbage (core_affinity garbage i) polls fuel secondary_start ctxid s
        (on i ctxid s) enough) [
          | inl (_, e) ↦ (_, _, e)
          | inr (inl (_, (k, _, e))) ↦ (_, _, e)
          | inr (inr (_, _, e)) ↦ (_, _, e)
        ]

  -- The queues of `n` cores from core `i` on, in the pages from `c` on.
  pub queues : ℕ → ℕ → ℕ → MemoryRegion → List (ℕ × WorkQueueEntry)
  queues zero c i r = []
  queues (suc n) c i r = (c * r.page_size + r.top, new_entry (held i)) ∷ queues n (suc c) (i + 1) r

  start_cores_lem :
      (n c i polls : ℕ) (r : MemoryRegion) (m : Memory) (s : D)
      → Represents r m (first_pages c)
      → 40 ≤ r.page_size
      → c + n ≤ r.page_table_entries
      → TurnsOn polls
      → polls < fuel
      → (m' : Memory) × (s' : D) × (start_cores smc secondary_start garbage fuel held n i r m s
          ≡ started (queues n c i r) r m' s')
        × Represents r m' (first_pages (c + n))
  unfolding start_cores queues after_create after_cpu_on add_queue
  start_cores_lem zero c i polls r m s v big room on enough =
      let e : c + 0 ≡ c = omega arith in (m, s, refl, rw e v)
  start_cores_lem (suc n) c i polls r m s v big room on enough =
      let (m1, created, v1) = create-first c (held i) v big (omega (arith, room)) in
      let (status, s1, on_now) = cpu_on_returns polls i (c * r.page_size + r.top) s on enough in
      let (m2, s2, rest, v2) =
        start_cores_lem n (suc c) (i + 1) polls r m1 s1 v1 big (omega (arith, room)) on enough in
      let e : suc c + n ≡ c + suc n = omega arith in
      (m2, s2, rw (created, on_now, rest), rw e at v2)

  -- With a heap that `init_kheap` accepts, that begins at a multiple of 64 KiB above 0 and has at least
  -- three entries, and that ends where nothing wraps around, and with a firmware that reports a core as on
  -- at the last query that the fuel allows if it has answered the call for it as pending, `main` starts the three cores and gives each a new queue in a page of its own: the first three
  -- pages of the heap, and no others, are then in use. The word behind the table must not look like a link
  -- to the last entry.
  pub main_cores_lem :
      (start end_addr polls : ℕ) (heap : MemoryRegion) (m : Memory) (s : D)
      → 0 < start
      → start / 2 ^ 16 * 2 ^ 16 ≡ start
      → start + (end_addr - start) + 2 ^ 16 ≤ 2 ^ 64
      → Accepted start (end_addr - start) (2 ^ 16) heap m
      → page_entry_start_addr (m (slot start ((end_addr - start) / 2 ^ 16)))
        ≢ slot start ((end_addr - start) / 2 ^ 16 - 1)
      → 3 ≤ (end_addr - start) / 2 ^ 16
      → TurnsOn polls
      → polls < fuel
      → (r : MemoryRegion) × (m' : Memory) × (s' : D) × (main_cores smc secondary_start garbage fuel
            held start end_addr heap m s
          ≡ started (queues 3 0 1 r) r m' s')
        × (r.page_size ≡ 2 ^ 16)
        × Represents r m' (first_pages 3)
  unfolding main_cores init_kheap
  main_cores_lem start end_addr polls heap m s mapped aligned fits a behind three on enough =
      let (r, m1, run, f, v) =
        init-Represents start (end_addr - start) 16 heap m mapped aligned (omega arith) fits a
          behind in
      let none_yet : Represents r m1 (first_pages 0) = rw (← no_pages) at v in
      let (m2, s2, cores, v2) =
        start_cores_lem 3 0 1 polls r m1 s none_yet (omega (arith, f.pages))
          (omega (arith, f.entries, three)) on enough in
      (r, m2, s2, rw run cores, f.pages, v2)
    where
      no_pages : first_pages 0 ≡ (λ _. false)
      no_pages = fun_ext (λ i. ground arith)
