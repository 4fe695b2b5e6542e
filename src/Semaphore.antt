-- ===== src/Semaphore.antt =====
-- arm.S: the semaphore routines, as one core runs them with no other core in between.
-- A semaphore is a word: 0 when free, 1 when taken. Semaphore/Exclusive.antt has the accesses of several
-- cores, and Semaphore/Atomic.antt says that they implement these functions.
pub mod Exclusive
pub mod Wakeup
pub mod Exclusion
pub mod Atomic
pub mod Progress
mod Tests
use cob_kernel.Common.{ℕ, Bool, ◌%◌, ◌^◌, Option, none, some, ◌==◌, if◌then◌else◌}

-- `arm64_take_semaphore_exclusive`: the new word; `none` when the core would spin.
unfoldable pub arm64_take_semaphore_exclusive : ℕ → Option ℕ
arm64_take_semaphore_exclusive sem = if sem == 0 then some 1 else none

-- `arm64_put_semaphore_exclusive`: the word is stored whether or not it was taken.
unfoldable pub arm64_put_semaphore_exclusive : ℕ → ℕ
arm64_put_semaphore_exclusive sem = 0

-- `arm64_semaphore_taken` of include/arm.h.
unfoldable pub arm64_semaphore_taken : ℕ → Bool
arm64_semaphore_taken sem = sem == 1

-- What `arm64_init_semaphore` leaves.
pub record InitSemaphore : Type 0 where
  pub sem : ℕ
  pub word_at_zero : ℕ
  pub status : ℕ

-- `arm64_init_semaphore`, given the word at address 0. When the store has succeeded, `mov w0, w2` puts its
-- status, 0, in the place of the pointer, so `ldr x2, [x0]` reads address 0 and not the semaphore. If the
-- low half of that word is not 0, the routine runs once more from its start, on address 0.
unfoldable pub arm64_init_semaphore : ℕ → ℕ → InitSemaphore
arm64_init_semaphore sem word_at_zero = record {
  sem = 0;
  word_at_zero = if word_at_zero % 2 ^ 32 == 0 then word_at_zero else 0;
  status = 0;
}
