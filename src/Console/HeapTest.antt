-- ===== src/Console/HeapTest.antt =====
-- `heap_test` of console.c, on the kernel's heap; what it prints is the addresses.
pub mod Filled
pub mod Run
use cob_kernel.Common.{ℕ, ◌+◌, Option, none, some, List, [], ◌∷◌, ◌>>=◌}
use cob_kernel.Malloc.{MemoryRegion, Memory, malloc, free, FreeResult, done, waiting, out_of_fuel}

-- The next call of `kfree`, once the one before it has returned.
unfoldable pub then_free : ℕ → FreeResult → ℕ → FreeResult
then_free fuel (done r m) addr = free fuel r m addr
then_free fuel waiting addr = waiting
then_free fuel out_of_fuel addr = out_of_fuel

-- From the call with NULL to the end: five calls that are to do nothing but for the first with `addr3`.
unfoldable pub heap_test_frees : ℕ → ℕ → ℕ → MemoryRegion → Memory → FreeResult
heap_test_frees fuel addr2 addr3 r m =
    let null = free fuel r m 0 in
    let inside_page = then_free fuel null (addr2 + 8) in
    let first = then_free fuel inside_page addr3 in
    let second = then_free fuel first addr3 in then_free fuel second 0x80000000

unfoldable pub returned : FreeResult → Option (MemoryRegion × Memory)
returned (done r m) = some (r, m)
returned waiting = none
returned out_of_fuel = none

-- The addresses that are printed, and the heap and the memory afterwards.
unfoldable pub heap_test : ℕ → MemoryRegion → Memory → Option (List ℕ × MemoryRegion × Memory)
heap_test fuel r m = malloc r m 0x10000 >>= (λ addr1. malloc addr1.1 addr1.2 0x10400 >>= (λ addr2.
    malloc addr2.1 addr2.2 0x40000 >>= (λ addr3.
      returned (free fuel addr3.1 addr3.2 addr2.0) >>= (λ freed2.
        malloc freed2.0 freed2.1 0x8000 >>= (λ addr2'.
          malloc addr2'.1 addr2'.2 0x3d4d0000 >>= (λ addr4.
            malloc addr4.1 addr4.2 0x400 >>= (λ addr5.
              malloc addr5.1 addr5.2 0x3d4d0000 >>= (λ addr6.
                returned (free fuel addr6.1 addr6.2 addr4.0) >>= (λ freed4.
                  malloc freed4.0 freed4.1 0x400 >>= (λ addr4'.
                    returned (heap_test_frees fuel addr2'.0 addr3.0 addr4'.1 addr4'.2) >>= (λ end.
                      some (
                        addr1.0 ∷ addr2.0 ∷ addr3.0 ∷ addr2'.0 ∷ addr4.0 ∷ addr5.0 ∷ addr6.0
                            ∷ addr4'.0 ∷ [],
                        end.0,
                        end.1,
                      ))))))))))))
