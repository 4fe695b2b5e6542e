-- ===== src/Malloc/FindHole.antt =====
-- What `find_hole` returns, for every page table.
use cob_kernel.Common.{
  ℕ, zero, suc, ◌+◌, ◌-◌, ◌%◌, ◌≤◌, ◌<◌, ◌≡◌, ◌≢◌, ◌⊎◌, inl, inr, refl, arith, ◌==◌, if◌then◌else◌,
  Bool-cases, ℕ_discrete, ==-of_eq, ==-of_ne,
}
use cob_kernel.Malloc.{Memory, MemoryRegion, entry_size, find_hole_from, find_hole}
use cob_kernel.Malloc.Table.{slot, free_count}

-- The entries from `s` to before `i` are free, and the one before `s`, if any, is in use.
pub record Run (m : Memory) (pt s i : ℕ) : Type 0 where
  pub below : s ≤ i
  pub open_from : (k : ℕ) → s ≤ k → k < i → m (slot pt k) % 2 ≡ 0
  pub edge : (s ≡ 0) ⊎ (m (slot pt (s - 1)) % 2 ≡ 1)

Run-free : (m : Memory) (pt s i : ℕ) → Run m pt s i → m (slot pt i) % 2 ≡ 0 → Run m pt s (suc i)
Run-free m pt s i r free = record {
  below = omega arith;
  open_from = λ k lo hi. elim (Bool-cases (k == i)) [
    | inl last ↦ let e : k ≡ i = ground arith in rw e free
    | inr old ↦ r.open_from k lo (ground arith)
  ];
  edge = r.edge;
}

Run-used : (m : Memory) (pt i : ℕ) → m (slot pt i) % 2 ≢ 0 → Run m pt (suc i) (suc i)
Run-used m pt i used = record {
  below = omega arith;
  open_from = λ k lo hi. absurd (omega arith);
  edge = inr (let e : suc i - 1 ≡ i = omega arith in rw e (omega arith));
}

-- The hole that is returned begins the run of free entries that holds the `pages`-th free entry, `j`.
pub record Hole (m : Memory) (pt total pages s j : ℕ) : Type 0 where
  pub run : Run m pt s (suc j)
  pub start_le : s ≤ j
  pub in_table : j < total
  pub counted : free_count m pt (suc j) ≡ pages

-- The two outcomes of the search.
abbrev pub Found : Memory → ℕ → ℕ → ℕ → ℕ → Type 0
Found m pt total pages res =
    ((res ≡ 0) × ((pages ≡ 0) ⊎ (free_count m pt total < pages)))
    ⊎ ((s : ℕ) × (j : ℕ) × (res ≡ slot pt s) × Hole m pt total pages s j)

module _ (m : Memory) (pt pages : ℕ) (mapped : 0 < pt) where
  -- What the loop holds when it is about to read entry `i`.
  record Searching (i start found s : ℕ) : Type 0 where
    run : Run m pt s i
    at : start ≡ (if s == i then 0 else slot pt s)
    count : found ≡ free_count m pt i
    few : (pages ≡ 0) ⊎ (found < pages)

  -- The value of `start` once entry `i` is known to be free.
  opened :
      (i start found s : ℕ)
      → Searching i start found s
      → (if start == 0 then slot pt i else start) ≡ slot pt s
  opened i start found s inv = ground (arith, inv.at)

  next_free :
      (i start found s : ℕ)
      → Searching i start found s
      → m (slot pt i) % 2 ≡ 0
      → found + 1 ≢ pages
      → Searching (suc i) (if start == 0 then slot pt i else start) (found + 1) s
  unfolding free_count
  next_free i start found s inv free ne = record {
    run = Run-free m pt s i inv.run free;
    at = ground (arith, inv.run.below, opened i start found s inv);
    count = ground (arith, inv.count);
    few = ground (arith, inv.few);
  }

  next_used :
      (i start found s : ℕ)
      → Searching i start found s
      → m (slot pt i) % 2 ≢ 0
      → Searching (suc i) 0 found (suc i)
  unfolding free_count
  next_used i start found s inv used = record {
    run = Run-used m pt i used;
    at = ground arith;
    count = ground (arith, inv.count);
    few = inv.few;
  }

  enough_found :
      (i start found s total : ℕ)
      → i < total
      → Searching i start found s
      → m (slot pt i) % 2 ≡ 0
      → found + 1 ≡ pages
      → Hole m pt total pages s i
  unfolding free_count
  enough_found i start found s total lt inv free e = record {
    run = Run-free m pt s i inv.run free;
    start_le = inv.run.below;
    in_table = lt;
    counted = ground (arith, inv.count);
  }

  slot-suc : (i : ℕ) → slot pt i + entry_size ≡ slot pt (suc i)
  slot-suc i = omega arith

  search_from :
      (n i start found s total : ℕ)
      → i + n ≡ total
      → Searching i start found s
      → Found m pt total pages (find_hole_from m n (slot pt i) start found pages)
  unfolding find_hole_from
  search_from zero i start found s total e inv =
      let e' : i ≡ total = omega arith in inl (refl, rw (← e', ← inv.count) inv.few)
  search_from (suc n) i start found s total e inv = elim (ℕ_discrete (m (slot pt i) % 2) 0) [
    | yes free ↦ elim (ℕ_discrete (found + 1) pages) [
      | yes enough ↦
          rw (==-of_eq _ _ free, ==-of_eq _ _ enough)
            (inr (
              s,
              i,
              opened i start found s inv,
              enough_found i start found s total (omega arith) inv free enough,
            ))
      | no more ↦
          rw (==-of_eq _ _ free, ==-of_ne _ _ more, slot-suc i)
            (search_from n (suc i) _ (found + 1) s total (omega arith)
              (next_free i start found s inv free more))
    ]
    | no used ↦
        rw (==-of_ne _ _ used, slot-suc i)
          (search_from n (suc i) 0 found (suc i) total (omega arith)
            (next_used i start found s inv used))
  ]

-- For a table that is not at NULL, `find_hole` returns NULL exactly when no pages are asked for or fewer than `num_pages` entries of
-- the whole table are free. Else it returns the first entry of the run of free entries in which the
-- count of free entries, over the whole table so far, reaches `num_pages`.
pub find_hole_lem :
    (r : MemoryRegion) (m : Memory) (num_pages : ℕ)
    → 0 < r.page_table
    → Found m r.page_table r.page_table_entries num_pages (find_hole r m num_pages)
unfolding find_hole free_count
find_hole_lem r m num_pages mapped =
    let e : slot r.page_table 0 ≡ r.page_table = omega arith in
    rw e at (
      search_from m r.page_table num_pages mapped r.page_table_entries 0 0 0 0 r.page_table_entries
        (omega arith)
        (record {
          run = record {
            below = omega arith;
            open_from = λ k lo hi. absurd (omega arith);
            edge = inl refl;
          };
          at = refl;
          count = refl;
          few = elim (ℕ_discrete num_pages 0) [ yes z ↦ inl z | no nz ↦ inr (omega arith) ];
        }))
