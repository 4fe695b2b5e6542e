-- ===== src/Malloc/Report.antt =====
-- malloc.c: what the allocator logs.
use cob_kernel.Common.{
  ℕ, ◌+◌, ◌-◌, ◌*◌, ◌/◌, ◌≡◌, ◌≢◌, inl, inr, refl, not, ◌||◌, Bool-cases, Option-cases, List, [],
  ◌∷◌, ◌++◌, ltb, ◌==◌, if◌then◌else◌,
}
use cob_kernel.Util.{ceildiv, alignup, ispow2}
use cob_kernel.Semaphore.{arm64_take_semaphore_exclusive}
use cob_kernel.Printf.Format.{word, Printed}
use cob_kernel.Printf.Log.{Verbosity, verbosity_error, log_debug, log_error}
use cob_kernel.Malloc.{
  MemoryRegion, Memory, entry_size, is_first_page_in_block, find_hole, done, waiting, free_locked,
  free,
}

-- `init_memory_region`
unfoldable pub init_texts : Verbosity → ℕ → ℕ → ℕ → List Printed
init_texts v top size page_size =
    if not (ispow2 page_size) || ltb page_size 4096
    then log_error v "malloc.c" "page size must be power of 2 and > 4096\n\r" []
    else if ltb size page_size
    then log_error v "malloc.c" "Invalid size. must be > page_size\n\r" []
    else if ltb (top + size) (alignup (top + size / page_size * entry_size) page_size + page_size)
    then log_error v "malloc.c"
        "Memory region could not even fit 1 page after page table allocation\n\r" []
    else []

-- `init_kheap`, behind `init_memory_region`
unfoldable pub kheap_texts : Verbosity → MemoryRegion → List Printed
kheap_texts v r =
    log_debug v "malloc.c" "Kernel Heap Initialized: \n\r" []
    ++ log_debug v "malloc.c" "  Page Table Starts at: 0x%lx\n\r" (word r.page_table ∷ [])
    ++ log_debug v "malloc.c" "  Page Table Entries: %ld\n\r" (word r.page_table_entries ∷ [])
    ++ log_debug v "malloc.c" "  Memory Region Starts at: 0x%lx\n\r" (word r.top ∷ [])
    ++ log_debug v "malloc.c" "  Allocatable Heap Size: 0x%lx\n\r" (word r.size ∷ [])

-- `mark_pages_used`: `--cur` is the last entry that is written.
unfoldable pub mark_texts : Verbosity → ℕ → ℕ → List Printed
mark_texts v start_entry num_pages =
    log_debug v "malloc.c" "Marking Starting page of block: 0x%lx\n\r" (word start_entry ∷ [])
    ++ log_debug v "malloc.c" "Marked final page used 0x%lx. Starting block address is 0x%lx\n\r"
        (word (start_entry + (num_pages - 1) * entry_size) ∷ word start_entry ∷ [])

-- `_malloc`, when it gets the semaphore
unfoldable pub malloc_texts : Verbosity → MemoryRegion → Memory → ℕ → List Printed
malloc_texts v r m num_bytes =
    let num_pages = ceildiv num_bytes r.page_size in
    let start = find_hole r m num_pages in
    let addr =
      if start == 0 then 0 else (start - r.page_table) / entry_size * r.page_size + r.top in
    log_debug v "malloc.c" "Allocating %ld pages\n\r" (word num_pages ∷ [])
    ++ log_debug v "malloc.c" "Found hole at 0x%lx\n\r" (word start ∷ [])
    ++ (if start == 0 then [] else mark_texts v start num_pages)
    ++ log_debug v "malloc.c" "Returning address 0x%lx\n\r" (word addr ∷ [])

-- `_free` under the semaphore, of an address in the region
unfoldable pub locked_texts : Verbosity → MemoryRegion → Memory → ℕ → List Printed
locked_texts v r m addr =
    let page_entry_idx = (addr - r.top) / r.page_size in
    let start_entry = r.page_table + page_entry_idx * entry_size in
    let expected = r.top + page_entry_idx * r.page_size in
    let first = is_first_page_in_block (m start_entry) in
    log_debug v "malloc.c" "Calculated start_entry in free 0x%lx. Value of entry 0x%lx\n\r"
      (word start_entry ∷ word (m start_entry) ∷ [])
    ++ (if not (addr == expected) || not first
        then log_error v "malloc.c"
            "Address passed to free was not an address previously returned by malloc\n\r" []
          ++ log_error v "malloc.c" "Address was 0x%lx, expected address was 0x%lx\n\r"
              (word addr ∷ word expected ∷ [])
          ++ log_error v "malloc.c" "First page in block calculation: %d\n\r"
              (word (if first then 1 else 0) ∷ [])
        else [])

-- `_free`, when it gets the semaphore, or does not come to it
unfoldable pub free_texts : Verbosity → MemoryRegion → Memory → ℕ → List Printed
free_texts v r m addr =
    if addr == 0
    then []
    else if ltb addr r.top || ltb (r.top + r.size) addr
    then log_error v "malloc.c" "Invalid Free, Address provided was not within memory region\n\r" []
    else locked_texts v r m addr

done-memory : {r r' : MemoryRegion} {m m' : Memory} → done r m ≡ done r' m' → m' ≡ m
done-memory e = cc

-- Under the semaphore, an error is logged where the table is left as it is.
locked-unchanged :
    (fuel taken : ℕ) (r r' : MemoryRegion) (m m' : Memory) (addr : ℕ)
    → free_locked fuel (record r { sem = taken }) m addr ≡ done r' m'
    → locked_texts verbosity_error r m addr ≢ []
    → m' ≡ m
unfolding free_locked locked_texts log_error log_debug
locked-unchanged fuel taken r r' m m' addr run logs =
    let page_entry_idx = (addr - r.top) / r.page_size in
    let first = is_first_page_in_block (m (r.page_table + page_entry_idx * entry_size)) in
    elim (Bool-cases (not (addr == r.top + page_entry_idx * r.page_size) || not first)) [
      | inl refused ↦ done-memory (rw refused at run)
      | inr accepted ↦ absurd (logs (rw accepted refl))
    ]

-- Where `_free` logs an error, at a verbosity at which errors are logged and no more, it leaves the page
-- table and the rest of the memory as they were.
free_texts-unchanged :
    (fuel : ℕ) (r r' : MemoryRegion) (m m' : Memory) (addr : ℕ)
    → free fuel r m addr ≡ done r' m'
    → free_texts verbosity_error r m addr ≢ []
    → m' ≡ m
unfolding free free_texts
free_texts-unchanged fuel r r' m m' addr run logs = elim (Bool-cases (addr == 0)) [
  | inl null ↦ absurd (logs (rw null refl))
  | inr given ↦ elim (Bool-cases (ltb addr r.top || ltb (r.top + r.size) addr)) [
    | inl outside ↦ done-memory (rw (given, outside) at run)
    | inr inside ↦ elim (Option-cases (arm64_take_semaphore_exclusive r.sem)) [
      | inl waits ↦ let stuck : waiting ≡ done r' m' = rw (given, inside, waits) at run in absurd cc
      | inr (taken, take) ↦
          locked-unchanged fuel taken r r' m m' addr (rw (given, inside, take) at run)
            (rw (given, inside) at logs)
    ]
  ]
]
