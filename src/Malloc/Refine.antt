-- ===== src/Malloc/Refine.antt =====
-- The page table of a client that asks for at most one page at a time holds the set of pages in use.
pub mod Held
pub mod Take
pub mod Give
use native.Mathlib.Nat.{div-mul-le_self}
use cob_kernel.Common.{
  ℕ, zero, suc, ◌+◌, ◌-◌, ◌*◌, ◌%◌, ◌^◌, ◌≤◌, ◌<◌, ◌≡◌, ◌≢◌, ◌⊎◌, inl, inr, refl, ap, ◌∙◌, arith,
  true, false, none, some, List, [], ◌∷◌, All, if◌then◌else◌, update, Option-cases, Bool-cases,
  dec_lt, ℕ_discrete,
}
use cob_kernel.Util.{ceildiv}
use cob_kernel.Util.Ceildiv.{ceildiv-le, ceildiv-pos}
use cob_kernel.Malloc.{
  MemoryRegion, Memory, malloc, find_hole, free, done, page_entry_start_addr,
  is_first_page_in_block, clear_table,
}
use cob_kernel.Malloc.Table.{slot, Outside, clear_table-inside, clear_table-Outside}
use cob_kernel.Malloc.FindHole.{Found, find_hole_lem}
use cob_kernel.Malloc.Alloc.{malloc-null}
use cob_kernel.Malloc.Correct.{Marked, malloc_first_fit}
use cob_kernel.Malloc.Free.{page, free_rejects, free_whole}
use cob_kernel.Malloc.Pages.{
  PageSet, Call, kmalloc, kfree, serve, serve_all, first_free, page_of, is_block, promise,
  promise_all, IsOnePage,
}
use cob_kernel.Malloc.Refine.Held.{Represents, first_free-none, first_free-some}
use cob_kernel.Malloc.Refine.Take.{kmalloc_refines}
use cob_kernel.Malloc.Refine.Give.{kfree_refines}

pub serve-done :
    (fuel : ℕ) (r : MemoryRegion) (m m' : Memory) (addr : ℕ)
    → free fuel r m addr ≡ done r m'
    → serve fuel (kfree addr) r m ≡ some (0, r, m')
unfolding serve
serve-done fuel r m m' addr e = rw (e, serve)

-- Each call returns what the specification says, and leaves the set of pages that it says.
pub serve_refines :
    {r : MemoryRegion} {m : Memory} {used : PageSet} (fuel : ℕ) (c : Call)
    → 0 < fuel
    → Represents r m used
    → IsOnePage r c
    → (m' : Memory) × (serve fuel c r m ≡ some ((promise c r used).0, r, m'))
      × Represents r m' (promise c r used).1
unfolding serve promise
serve_refines fuel (kmalloc bytes) enough v (some_bytes, few) =
    kmalloc_refines v bytes some_bytes few
serve_refines {r} {m} {used} fuel (kfree addr) enough v one =
    let (m', run, kept) = kfree_refines v fuel addr enough in
    (m', serve-done fuel r m m' addr run, kept)

-- From a table that holds a set of pages, every sequence of `kmalloc` calls for one page at most and of
-- `kfree` calls with any addresses returns the addresses that the specification says, and leaves a table
-- that holds the set of pages that it says.
pub serve_all_refines :
    (fuel : ℕ) (r : MemoryRegion) (m : Memory) (used : PageSet) (calls : List Call)
    → 0 < fuel
    → Represents r m used
    → All (IsOnePage r) calls
    → (m' : Memory) × (serve_all fuel calls r m ≡ some ((promise_all calls r used).0, r, m'))
      × Represents r m' (promise_all calls r used).1
unfolding serve_all promise_all
serve_all_refines fuel r m used [] enough v one = (m, refl, v)
serve_all_refines fuel r m used (c ∷ cs) enough v (one, ones) =
    let (m1, first, v1) = serve_refines fuel c enough v one in
    let (m2, rest, v2) = serve_all_refines fuel r m1 (promise c r used).1 cs enough v1 ones in
    (m2, rw (first, rest), v2)
