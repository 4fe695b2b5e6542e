-- ===== src/Malloc/Tests.antt =====
-- Runs of the allocator on small regions.
use cob_kernel.Common.{ℕ, ◌+◌, ◌*◌, ◌%◌, ◌^◌, ◌≤◌, ◌<◌, ◌≡◌, ◌⊎◌, inr, refl, arith, some, update}
use cob_kernel.Util.{ceildiv, ispow2, ispow2_loop, alignup}
use cob_kernel.Malloc.{Memory, MemoryRegion, mark_pages_used, malloc, free, done}
use cob_kernel.Malloc.Table.{slot, free_count, link, Outside}
use cob_kernel.Malloc.FindHole.{Hole}
use cob_kernel.Malloc.Alloc.{Placed}
use cob_kernel.Malloc.Correct.{malloc_outcome, mark_pages_used-Marked, malloc_overlaps}
use cob_kernel.Malloc.Free.{page}
use cob_kernel.Malloc.Release.{InRegion, free-malloc_aligned, free_leaks}
use cob_kernel.Malloc.Init.{Accepted}
use cob_kernel.Malloc.Region.{IsFresh, malloc_beyond_region}
use cob_kernel.Malloc.Locking.{Cores, inside, Reach, anything, success_breaks_exclusion}

-- Eight pages, whose table begins at a multiple of 4096.
abbrev region : MemoryRegion
region = record {
  top = 0x2000;
  size = 0x8000;
  page_table = 0x1000;
  page_table_entries = 8;
  page_size = 0x1000;
  sem = 0;
}

abbrev all_free : Memory
all_free _ = 0

abbrev first_used : Memory
first_used = update all_free 0x1000 1

-- The entries 1 and 3 are in use.
abbrev holes : Memory
holes = update (update all_free 0x1008 1) 0x1018 1

malloc_outcome_example :
    let pages = ceildiv 5000 0x1000 in
    ((((pages ≡ 0) ⊎ (free_count holes 0x1000 8 < pages))
        × (malloc region holes 5000 ≡ some (0, region, holes)))
      ⊎ ((s : ℕ) × (j : ℕ) × Hole holes 0x1000 8 pages s j
          × (malloc region holes 5000
              ≡ some (s * 0x1000 + 0x2000, region, mark_pages_used (slot 0x1000 s) pages holes))))
malloc_outcome_example = malloc_outcome region holes 5000 (omega arith) refl

placed : Placed holes 0x1000 8 (ceildiv 5000 0x1000) 2 1
unfolding ceildiv free_count
placed = record {
  edge = inr refl;
  free = λ k h. ground arith;
  fewer = omega arith;
  enough = omega arith;
  in_table = omega arith;
}

malloc_overlaps_example :
    (m' : Memory) × (malloc region holes 5000 ≡ some (2 * 0x1000 + 0x2000, region, m'))
    × (m' (slot 0x1000 (1 + 2)) ≡ link (slot 0x1000 2))
unfolding ceildiv
malloc_overlaps_example =
    malloc_overlaps region holes 5000 2 (omega arith) 1 refl placed (omega arith) (omega arith) refl

-- A block of two pages from the first entry on, and one from the second on.
abbrev taken : ℕ → Memory
taken s = mark_pages_used (slot 0x1000 s) 2 all_free

in_region : (s : ℕ) → s ≤ 8 → InRegion 2 2 s region all_free (taken s) s
in_region s h = record {
  sem = refl;
  inside = omega (arith, h);
  not_null = omega arith;
  some_size = omega arith;
}

free-malloc_aligned_example :
    (m'' : Memory) × (free 2 region (taken 0) (page region 0) ≡ done region m'')
    × ((i : ℕ) → i < 2 → m'' (slot 0x1000 (i + 0)) ≡ 0)
    × ((a : ℕ) → Outside (slot 0x1000 0) 2 a → m'' a ≡ 0)
free-malloc_aligned_example =
    free-malloc_aligned 2 2 0 region all_free (taken 0) (in_region 0 (omega arith))
      (mark_pages_used-Marked all_free 0x1000 2 0 (omega arith)) (omega arith) (omega arith) refl
      (λ e. omega arith)

free_leaks_example :
    (m'' : Memory) × (free 2 region (taken 1) (page region 1) ≡ done region m'')
    × (m'' (slot 0x1000 1) ≡ 0)
    × ((i : ℕ)
        → 0 < i
        → i < 2
        → (m'' (slot 0x1000 (i + 1)) % 2 ≡ 1)
          × (free 2 region m'' (page region (i + 1)) ≡ done region m''))
free_leaks_example =
    free_leaks 2 2 1 region all_free (taken 1) (in_region 1 (omega arith))
      (mark_pages_used-Marked all_free 0x1000 2 1 (omega arith)) (omega arith) (λ e. omega arith)
      (omega arith)

-- The region of 16 KiB at 1 MiB, as it is set up.
abbrev fresh_region : MemoryRegion
fresh_region = record {
  top = 0x101000;
  size = 0x3000;
  page_table = 0x100000;
  page_table_entries = 4;
  page_size = 0x1000;
  sem = 0;
}

accepted : Accepted 0x100000 0x4000 (2 ^ 12) region all_free
unfolding ispow2 ispow2_loop alignup
accepted = record {
  power = refl;
  at_least = omega arith;
  holds_page = omega arith;
  room = omega arith;
}

fresh : IsFresh 0x100000 0x4000 0x1000 fresh_region all_free
fresh = record {
  table = refl;
  entries = refl;
  pages = refl;
  unlocked = refl;
  behind_table = omega arith;
  top_aligned = refl;
  size_aligned = refl;
  one_page = omega arith;
  inside = omega arith;
  cleared = λ i h. refl;
}

malloc_beyond_region_example :
    (m' : Memory) × (malloc fresh_region all_free 0x4000 ≡ some (0x101000, fresh_region, m'))
malloc_beyond_region_example =
    malloc_beyond_region 0x100000 0x4000 0x1000 fresh_region all_free 0x4000 fresh (omega arith)
      (omega arith) (omega arith) (omega arith) (omega arith)

abbrev core : ℕ
core = 5

success_breaks_exclusion_example :
    (s : Cores) × Reach anything s × (s.pc 1 ≡ inside) × (s.pc 2 ≡ inside)
success_breaks_exclusion_example =
    success_breaks_exclusion 0 1 2 (λ e. omega arith) (λ e. omega arith) (λ e. omega arith)
