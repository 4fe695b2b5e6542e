-- ===== src/Malloc/Alloc.antt =====
-- What `_malloc` returns and writes, for every page table.
use Prim.Native.Nat.add
use native.Mathlib.Nat.{mul-div_cancel}
use cob_kernel.Common.{
  ℕ, zero, suc, ◌+◌, ◌-◌, ◌*◌, ◌%◌, ◌≤◌, ◌<◌, ◌≡◌, ◌⊎◌, inl, inr, arith, dec_lt, ==-of_ne, some,
}
use cob_kernel.Util.{ceildiv}
use cob_kernel.Semaphore.{arm64_take_semaphore_exclusive, arm64_put_semaphore_exclusive}
use cob_kernel.Malloc.{Memory, MemoryRegion, entry_size, find_hole, mark_pages_used, malloc}
use cob_kernel.Malloc.Table.{slot, free_count}
use cob_kernel.Malloc.FindHole.{Hole, Found, find_hole_lem}

module _ (m : Memory) (pt : ℕ) where
  free_count_mono : (d a : ℕ) → free_count m pt a ≤ free_count m pt (d + a)
  unfolding free_count
  free_count_mono zero a = let e : 0 + a ≡ a = omega arith in rw e (omega arith)
  free_count_mono (suc d) a = rw (add.suc d a) (ground (arith, free_count_mono d a))

  free_count-run :
      (s x : ℕ)
      → ((k : ℕ) → k < x → m (slot pt (k + s)) % 2 ≡ 0)
      → free_count m pt (x + s) ≡ free_count m pt s + x
  unfolding free_count
  free_count-run s zero free = let e : 0 + s ≡ s = omega arith in rw e (omega arith)
  free_count-run s (suc x) free =
      rw (add.suc x s)
        (ground (arith, free x (omega arith), free_count-run s x (λ k h. free k (omega arith))))

  pub free_count-le-of : (a b : ℕ) → a ≤ b → free_count m pt a ≤ free_count m pt b
  free_count-le-of a b h =
      let e : b - a + a ≡ b = omega arith in rw e at (free_count_mono (b - a) a)

  free_count-suc : (j : ℕ) → m (slot pt j) % 2 ≡ 0 → free_count m pt (suc j) ≡ free_count m pt j + 1
  unfolding free_count
  free_count-suc j h = ground arith

-- Where the run of free entries from `s` on, `x` long, holds the `pages`-th free entry of the table.
pub record Placed (m : Memory) (pt total pages s x : ℕ) : Type 0 where
  pub edge : (s ≡ 0) ⊎ (m (slot pt (s - 1)) % 2 ≡ 1)
  pub free : (k : ℕ) → k < x → m (slot pt (k + s)) % 2 ≡ 0
  pub fewer : free_count m pt s < pages
  pub enough : pages ≤ free_count m pt s + x
  pub in_table : x + s ≤ total

module _ (r : MemoryRegion) (m : Memory) (pages : ℕ) (mapped : 0 < r.page_table) where
  open r use {page_table as pt, page_table_entries as total}

  -- The last entry that the search reads lies in the run.
  last_in_run :
      (s x s' j : ℕ)
      → Placed m pt total pages s x
      → Hole m pt total pages s' j
      → (s ≤ j) × (j < x + s)
  last_in_run s x s' j p h = (lower, upper)
    where
      lower : s ≤ j
      lower = elim (dec_lt j s) [
        | yes lt ↦ absurd (omega (arith, free_count-le-of m pt (suc j) s lt, h.counted, p.fewer))
        | no ge ↦ omega arith
      ]

      upper : j < x + s
      upper = elim (dec_lt j (x + s)) [
        | yes lt ↦ lt
        | no ge ↦ absurd (
            omega (
              arith,
              free_count-le-of m pt (x + s) j (omega arith),
              free_count-run m pt s x p.free,
              free_count-suc m pt j (h.run.open_from j h.start_le (omega arith)),
              h.counted,
              p.enough,
            ))
      ]

  -- So the run that is found begins at `s`.
  same_start : (s x s' j : ℕ) → Placed m pt total pages s x → Hole m pt total pages s' j → s' ≡ s
  same_start s x s' j p h =
      let (lower, upper) = last_in_run s x s' j p h in
      elim (dec_lt s' s) [
        | yes before ↦
            absurd (ground (arith, p.edge, h.run.open_from (s - 1) (omega arith) (omega arith)))
        | no after ↦ elim (dec_lt s s') [
          | yes behind ↦
              let e : s' - 1 - s + s ≡ s' - 1 = omega arith in
              let open_before : m (slot pt (s' - 1)) % 2 ≡ 0 =
                rw e at (p.free (s' - 1 - s) (omega (arith, h.start_le))) in
              absurd (ground (arith, h.run.edge))
          | no equal ↦ omega arith
        ]
      ]

  pub find_hole-Placed : (s x : ℕ) → Placed m pt total pages s x → find_hole r m pages ≡ slot pt s
  find_hole-Placed s x p = go (find_hole_lem r m pages mapped)
    where
      go : Found m pt total pages (find_hole r m pages) → find_hole r m pages ≡ slot pt s
      go (inl (e, inl z)) = absurd (omega (arith, p.fewer))
      go (inl (e, inr lt)) = absurd (
          omega (
            arith,
            free_count-run m pt s x p.free,
            free_count-le-of m pt (x + s) total p.in_table,
            p.enough,
          ))
      go (inr (s', j, e, h)) = rw (e, same_start s x s' j p h)

module _ (r : MemoryRegion) (m : Memory) (num_bytes : ℕ) (mapped : 0 < r.page_table) where
  open r use {page_table as pt, page_table_entries as total, page_size as ps}

  abbrev pub pages : ℕ
  pages = ceildiv num_bytes ps

  pub malloc-null : r.sem ≡ 0 → find_hole r m pages ≡ 0 → malloc r m num_bytes ≡ some (0, r, m)
  unfolding malloc arm64_take_semaphore_exclusive arm64_put_semaphore_exclusive
  malloc-null free e = ground arith

  pub malloc-some :
      (s : ℕ)
      → r.sem ≡ 0
      → find_hole r m pages ≡ slot pt s
      → malloc r m num_bytes ≡ some (s * ps + r.top, r, mark_pages_used (slot pt s) pages m)
  unfolding malloc arm64_take_semaphore_exclusive arm64_put_semaphore_exclusive
  malloc-some s free e =
      ground (
        arith,
        mul-div_cancel s {n = entry_size} (omega arith),
        ==-of_ne (slot pt s) 0 (omega arith),
      )
