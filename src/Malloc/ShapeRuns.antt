-- ===== src/Malloc/ShapeRuns.antt =====
-- Runs of the allocator under requests for several pages.
use cob_kernel.Common.{
  ℕ, ◌+◌, ◌*◌, ◌≡◌, refl, inr, arith, some, List, [], ◌∷◌, All, ◌==◌, if◌then◌else◌,
}
use cob_kernel.Util.{ceildiv}
use cob_kernel.Malloc.{MemoryRegion, Memory, malloc, free}
use cob_kernel.Malloc.Table.{slot, free_count, link}
use cob_kernel.Malloc.Alloc.{Placed}
use cob_kernel.Malloc.Behind.{malloc_writes_behind}
use cob_kernel.Malloc.Pages.{Call, kmalloc, kfree, serve_all}
use cob_kernel.Malloc.Shape.{Shaped, IsLimited, serve_all-Shaped}

-- Three pages.
abbrev heap : MemoryRegion
heap = record {
  top = 0x100000;
  size = 0x3000;
  page_table = 0xff008;
  page_table_entries = 3;
  page_size = 0x1000;
  sem = 0;
}

-- The page in the middle is in use.
abbrev middle_used : Memory
middle_used a = if a == 0xff010 then 1 else 0

middle_used-Shaped : Shaped heap middle_used 2
middle_used-Shaped = record {
  unlocked = refl;
  mapped = omega arith;
  some_size = omega arith;
  covered = omega arith;
  entry = λ i h. ground arith;
  barrier = λ j e. omega (arith, e);
}

-- Two pages are taken, a page in use, an address that names no page and one of a second page are given
-- back, and two pages are taken again.
abbrev calls : List Call
calls = kmalloc 5000 ∷ kfree 0x101000 ∷ kfree 0x101001 ∷ kfree 0x103000 ∷ kmalloc 5000 ∷ []

calls-IsLimited : All (IsLimited heap 2) calls
unfolding ceildiv
calls-IsLimited = (omega arith, (tt, (tt, (tt, (omega arith, tt)))))

serve_all-Shaped_example :
    (answers : List ℕ) × (m' : Memory) × (serve_all 6 calls heap middle_used
      ≡ some (answers, heap, m'))
    × Shaped heap m' 2
serve_all-Shaped_example =
    serve_all-Shaped 6 2 heap middle_used calls (omega arith) (omega arith) middle_used-Shaped
      calls-IsLimited

placed : Placed middle_used 0xff008 3 (ceildiv 5000 0x1000) 2 1
unfolding free_count ceildiv
placed = record {
  edge = inr refl;
  free = λ k h. ground arith;
  fewer = omega arith;
  enough = omega arith;
  in_table = omega arith;
}

-- The free entries are 0 and 2, and two pages are asked for.
malloc_writes_behind_example :
    (m' : Memory) × (malloc heap middle_used 5000 ≡ some (2 * 0x1000 + 0x100000, heap, m'))
    × (m' (slot 0xff008 3) ≡ link (slot 0xff008 2))
unfolding ceildiv
malloc_writes_behind_example =
    malloc_writes_behind heap middle_used 5000 2 1 (omega arith) refl placed (omega arith)
