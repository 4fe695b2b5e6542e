-- ===== src/Console/Runs.antt =====
-- Runs of the escape sequences and of `heap_test`.
use cob_kernel.Common.{
  ℕ, zero, suc, ◌+◌, ◌%◌, ◌^◌, ◌<◌, ◌≡◌, ◌≢◌, refl, arith, some, List, [], ◌∷◌, replicate, All,
}
use cob_kernel.Malloc.{Memory, MemoryRegion}
use cob_kernel.Malloc.Table.{slot}
use cob_kernel.Device.{Bus}
use cob_kernel.Console.{cmd_size}
use cob_kernel.Console.Edit.{line}
use cob_kernel.Console.Escape.{console_keys}
use cob_kernel.Console.Escape.Arrows.{Below, IsParam}
use cob_kernel.Console.Escape.Inside.{Stays, console_keys-Stays}
use cob_kernel.Console.HeapTest.{heap_test}
use cob_kernel.Console.HeapTest.Run.{IsTestHeap, printed, heap_test_lem}

abbrev buf : List ℕ
buf = replicate cmd_size 0

frames : Below 0x8000 0x9000
frames = record { below = omega arith; fits = omega arith }

abbrev zeros : List ℕ
zeros = replicate 31 b'0'

zeros-IsParam : (n : ℕ) → All IsParam (replicate n b'0')
zeros-IsParam zero = tt
zeros-IsParam (suc n) = (refl, zeros-IsParam n)

-- Two characters, ESC [ C, and a character.
abbrev keys : List ℕ
keys = b'a' ∷ b'b' ∷ 0x1b ∷ b'[' ∷ b'C' ∷ b'c' ∷ []

console_keys-Stays_example : Stays keys (console_keys 7 0x9000 0x8000 (line buf 0 []) keys)
console_keys-Stays_example =
    console_keys-Stays 0x9000 0x8000 frames 7 buf 0 [] keys refl (omega arith)
      (
        (λ e. omega (arith, e)),
        (
          (λ e. omega (arith, e)),
          (
            (λ e. omega (arith, e)),
            ((λ e. omega (arith, e)), ((λ e. omega (arith, e)), ((λ e. omega (arith, e)), tt))),
          ),
        ),
      )
      (omega arith)

-- 16000 pages.
abbrev heap : MemoryRegion
heap = record {
  top = 0x220000;
  size = 0x3e800000;
  page_table = 0x200000;
  page_table_entries = 16000;
  page_size = 0x10000;
  sem = 0;
}

heap-IsTestHeap : IsTestHeap heap
heap-IsTestHeap = record {
  unlocked = refl;
  mapped = omega arith;
  aligned = refl;
  not_null = omega arith;
  pages = refl;
  eight = omega arith;
  below = omega arith;
  large = omega arith;
  small = omega arith;
}

abbrev clear_memory : Memory
clear_memory _ = 0

heap_test_lem_example :
    (m' : Memory) × (heap_test 1 heap clear_memory ≡ some (printed heap, heap, m'))
    × ((i : ℕ) → i < 15701 → i ≢ 3 → m' (slot 0x200000 i) % 2 ≡ 1)
    × (m' (slot 0x200000 3) ≡ 0)
heap_test_lem_example =
    heap_test_lem 1 (omega arith) heap heap-IsTestHeap clear_memory (λ i lt. refl)

-- A sensor that reads 65 degrees.
abbrev sensor : Bus ℕ
sensor = record { read32 = λ addr s. (2 ^ 16 + 700, s + 1); write32 = λ addr v s. s }
