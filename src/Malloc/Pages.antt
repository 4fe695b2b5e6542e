-- ===== src/Malloc/Pages.antt =====
-- What the page allocator promises to a client that asks for at most one page at a time, as every caller of
-- `kmalloc` in the kernel does but the heap test: a set of pages in use.
use cob_kernel.Common.{
  ℕ, zero, suc, ◌+◌, ◌-◌, ◌*◌, ◌/◌, ◌≤◌, ◌<◌, Bool, true, false, not, ◌&&◌, Option, none, some,
  List, [], ◌∷◌, leb, ◌==◌, if◌then◌else◌, ◌>>=◌, update,
}
use cob_kernel.Malloc.{MemoryRegion, Memory, malloc, done, waiting, out_of_fuel, free}

-- The pages that are in use.
abbrev pub PageSet : Type 0
PageSet = ℕ → Bool

-- A call of a client.
pub data Call : Type 0 where
  kmalloc : ℕ → Call
  kfree : ℕ → Call

-- What the code does for a call: the address that is returned (0 for `kfree`), the region and the memory.
unfoldable pub serve : ℕ → Call → MemoryRegion → Memory → Option (ℕ × MemoryRegion × Memory)
serve fuel (kmalloc bytes) r m = malloc r m bytes
serve fuel (kfree addr) r m = elim (free fuel r m addr) [
  | done r' m' ↦ some (0, r', m')
  | waiting ↦ none
  | out_of_fuel ↦ none
]

unfoldable pub serve_all :
    ℕ → List Call → MemoryRegion → Memory → Option (List ℕ × MemoryRegion × Memory)
serve_all fuel [] r m = some ([], r, m)
serve_all fuel (c ∷ cs) r m =
    serve fuel c r m >>= (λ a. serve_all fuel cs a.1 a.2 >>= (λ b. some (a.0 ∷ b.0, b.1, b.2)))

-- The first page from `k` on that is not in use, among the `n` that are left.
unfoldable pub first_free : PageSet → ℕ → ℕ → Option ℕ
first_free used zero k = none
first_free used (suc n) k = let rest = first_free used n (suc k) in if used k then rest else some k

-- The page that an address names.
abbrev pub page_of : MemoryRegion → ℕ → ℕ
page_of r addr = (addr - r.top) / r.page_size

-- An address that `kfree` takes: that of a page of the region, and the page is in use.
abbrev pub is_block : MemoryRegion → PageSet → ℕ → Bool
is_block r used addr =
    not (addr == 0)
    && (leb r.top addr
        && (leb addr (r.top + r.size)
            && (addr == r.top + page_of r addr * r.page_size && used (page_of r addr))))

-- The specification: `kmalloc` takes the first page that is not in use, and `kfree` gives one back.
unfoldable pub promise : Call → MemoryRegion → PageSet → ℕ × PageSet
promise (kmalloc bytes) r used = elim (first_free used r.page_table_entries 0) [
  | none ↦ (0, used)
  | some i ↦ (i * r.page_size + r.top, update used i true)
]
promise (kfree addr) r used =
    (0, if is_block r used addr then update used (page_of r addr) false else used)

unfoldable pub promise_all : List Call → MemoryRegion → PageSet → List ℕ × PageSet
promise_all [] r used = ([], used)
promise_all (c ∷ cs) r used =
    let a = promise c r used in let b = promise_all cs r a.1 in (a.0 ∷ b.0, b.1)

-- A request for one page at most; `kfree` may have any address.
abbrev pub IsOnePage : MemoryRegion → Call → Type 0
IsOnePage r (kmalloc bytes) = (0 < bytes) × (bytes ≤ r.page_size)
IsOnePage r (kfree addr) = Unit
