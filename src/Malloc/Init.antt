-- ===== src/Malloc/Init.antt =====
-- What `init_memory_region` leaves in the region and in memory.
use cob_kernel.Common.{
  update, ◌%◌, ◌^◌, ◌==◌, if◌then◌else◌, ℕ, ◌+◌, ◌-◌, ◌*◌, ◌/◌, ◌≤◌, ◌≡◌, ◌⊎◌, inl, inr, arith,
  true, not, ◌||◌, ltb, Bool-cases,
}
use cob_kernel.Common.Int.{pos, negsuc}
use cob_kernel.Util.{alignup, aligndown, ispow2}
use cob_kernel.Semaphore.{arm64_init_semaphore}
use cob_kernel.Malloc.{Memory, MemoryRegion, entry_size, clear_table, init_memory_region}

module _ (top size ps : ℕ) (r : MemoryRegion) (m : Memory) where
  abbrev pub table_end : ℕ
  table_end = top + size / ps * entry_size

  -- The tests that `init_memory_region` makes.
  pub record Accepted : Type 0 where
    pub power : ispow2 ps ≡ true
    pub at_least : 4096 ≤ ps
    pub holds_page : ps ≤ size
    pub room : alignup table_end ps + ps ≤ top + size

  -- Either all tests pass, and the region is set up with a cleared table, though the word at address 0 is
  -- then cleared too, unless its low half is 0; or one fails, the status is -1, and the memory is
  -- unchanged.
  pub init_outcome :
      (Accepted
        × (init_memory_region top size ps r m ≡ (
          pos 0,
          record {
            top = alignup table_end ps;
            size = aligndown (top + size - alignup table_end ps) ps;
            page_table = top;
            page_table_entries = size / ps;
            page_size = ps;
            sem = 0;
          },
          update (clear_table (size / ps) top m) 0 (
              if clear_table (size / ps) top m 0 % 2 ^ 32 == 0
              then clear_table (size / ps) top m 0
              else 0),
        )))
      ⊎ (¬ Accepted
          × ((init_memory_region top size ps r m).0 ≡ negsuc 0)
          × ((init_memory_region top size ps r m).2 ≡ m))
  unfolding init_memory_region arm64_init_semaphore
  init_outcome = elim (Bool-cases (not (ispow2 ps) || ltb ps 4096)) [
    | inl bad ↦ inr (λ a. ground (arith, a.power, a.at_least), ground arith, ground arith)
    | inr fine ↦ elim (Bool-cases (ltb size ps)) [
      | inl small ↦ inr (λ a. ground (arith, a.holds_page), ground arith, ground arith)
      | inr fits ↦ elim (Bool-cases (ltb (top + size) (alignup table_end ps + ps))) [
        | inl full ↦ inr (λ a. ground (arith, a.room), ground arith, ground arith)
        | inr room ↦ inl (
          record {
            power = ground arith;
            at_least = ground arith;
            holds_page = ground arith;
            room = ground arith;
          },
          rw (fine, fits, room),
        )
      ]
    ]
  ]
