-- ===== src/Console/HeapTest/Run.antt =====
-- What `heap_test` prints, and what it leaves in use.
use cob_kernel.Common.{
  ℕ, ◌+◌, ◌-◌, ◌*◌, ◌/◌, ◌%◌, ◌≤◌, ◌<◌, ◌≡◌, ◌≢◌, inl, inr, refl, sym, ◌∙◌, arith, ◌==◌, some, List,
  [], true, false, ltb, ◌∷◌, update,
}
use cob_kernel.Util.{ceildiv}
use cob_kernel.Malloc.{Memory, MemoryRegion, malloc, free, done}
use cob_kernel.Malloc.Table.{slot}
use cob_kernel.Malloc.Free.{page, free_rejects, free_first_only}
use cob_kernel.Malloc.DoubleFree.{free_again}
use cob_kernel.Console.HeapTest.{heap_test_frees, then_free, returned, heap_test}
use cob_kernel.Console.HeapTest.Filled.{Filled, take_next, take_none, free_take}

-- Of the calls at the end only the first with `addr3` has an effect, if the last address is behind the heap and
-- `addr2 + 8` is no page's address.
frees_once :
    (fuel addr2 addr3 : ℕ) (r : MemoryRegion) (m m' : Memory)
    → r.sem ≡ 0
    → addr2 + 8 ≢ page r ((addr2 + 8 - r.top) / r.page_size)
    → r.top + r.size < 0x80000000
    → free fuel r m addr3 ≡ done r m'
    → heap_test_frees fuel addr2 addr3 r m ≡ done r m'
unfolding heap_test_frees then_free
frees_once fuel addr2 addr3 r m m' sem within behind run =
    rw
      (
        free_rejects fuel r m 0 sem (inl refl),
        free_rejects fuel r m (addr2 + 8) sem (inr (inr (inr (inl within)))),
        run,
        free_again fuel r m m' addr3 sem run,
      )
      (free_rejects fuel r m' 0x80000000 sem (inr (inr (inl behind))))

abbrev at_page : MemoryRegion → ℕ → ℕ
at_page r i = i * r.page_size + r.top

-- The addresses that are printed.
abbrev pub printed : MemoryRegion → List ℕ
printed r =
    at_page r 0
    ∷ at_page r 1
    ∷ at_page r 3
    ∷ at_page r 1
    ∷ at_page r 7
    ∷ at_page r 15700
    ∷ 0
    ∷ at_page r 7
    ∷ []

heap_test-calls :
    (fuel : ℕ) (r : MemoryRegion) (m m1 m2 m3 m3' m4 m5 m6 m7 m8 m9 : Memory)
    → malloc r m 0x10000 ≡ some (at_page r 0, r, m1)
    → malloc r m1 0x10400 ≡ some (at_page r 1, r, m2)
    → malloc r m2 0x40000 ≡ some (at_page r 3, r, m3)
    → free fuel r m3 (at_page r 1) ≡ done r m3'
    → malloc r m3' 0x8000 ≡ some (at_page r 1, r, m4)
    → malloc r m4 0x3d4d0000 ≡ some (at_page r 7, r, m5)
    → malloc r m5 0x400 ≡ some (at_page r 15700, r, m6)
    → malloc r m6 0x3d4d0000 ≡ some (0, r, m6)
    → free fuel r m6 (at_page r 7) ≡ done r m7
    → malloc r m7 0x400 ≡ some (at_page r 7, r, m8)
    → heap_test_frees fuel (at_page r 1) (at_page r 3) r m8 ≡ done r m9
    → heap_test fuel r m ≡ some (printed r, r, m9)
unfolding heap_test returned
heap_test-calls fuel r m m1 m2 m3 m3' m4 m5 m6 m7 m8 m9 e1 e2 e3 e4 e5 e6 e7 e8 e9 e10 e11 =
    rw (e1, e2, e3, e4, e5, e6, e7, e8, e9, e10, e11) refl

lt-of_ltb : (a b : ℕ) → ltb a b ≡ true → a < b
lt-of_ltb a b e = ground (arith, e)

ne-of_== : (a b : ℕ) → (a == b) ≡ false → a ≢ b
ne-of_== a b e = ground (arith, e)

unaligned : (pt i : ℕ) → pt % 0x1000 ≡ 0 → 0 < i → i < 512 → slot pt i % 0x1000 ≢ 0
unaligned pt i aligned some_entry few e = omega (arith, aligned, some_entry, few, e)

within_page :
    (r : MemoryRegion)
    → r.page_size ≡ 0x10000
    → at_page r 1 + 8 ≢ page r ((at_page r 1 + 8 - r.top) / r.page_size)
within_page r ps = rw ps (λ e. omega (arith, e))

slot-Beside :
    (r : MemoryRegion) (m : Memory) (i : ℕ)
    → i ≢ 3
    → update m (slot r.page_table 3) 0 (slot r.page_table i) ≡ m (slot r.page_table i)
slot-Beside r m i other = ground (arith, other)

slot-cleared :
    (r : MemoryRegion) (m : Memory) → update m (slot r.page_table 3) 0 (slot r.page_table 3) ≡ 0
slot-cleared r m = ground arith

-- A heap of 15701 to 31393 pages of 64 KiB that ends below 2 GiB, with a table from a multiple of 4096 on.
pub record IsTestHeap (r : MemoryRegion) : Type 0 where
  pub unlocked : r.sem ≡ 0
  pub mapped : 0 < r.page_table
  pub aligned : r.page_table % 0x1000 ≡ 0
  pub not_null : 0 < r.top
  pub pages : r.page_size ≡ 0x10000
  pub eight : 7 * 0x10000 ≤ r.size
  pub below : r.top + r.size < 0x80000000
  pub large : 15701 ≤ r.page_table_entries
  pub small : r.page_table_entries < 31394

module _ (fuel : ℕ) (enough : 0 < fuel) (r : MemoryRegion) (h : IsTestHeap r) where
  in_size : (i : ℕ) → i ≤ 7 → i * r.page_size ≤ r.size
  in_size i le = rw h.pages (omega (arith, h.eight, le))

  -- The first three calls.
  three_blocks :
      (m : Memory)
      → Filled r m 0
      → (m1 : Memory) × (m2 : Memory) × (m3 : Memory) × (malloc r m 0x10000
          ≡ some (at_page r 0, r, m1))
        × (malloc r m1 0x10400 ≡ some (at_page r 1, r, m2))
        × (malloc r m2 0x40000 ≡ some (at_page r 3, r, m3))
        × Filled r m3 7
        × (m3 (slot r.page_table 1) ≡ 1)
        × (m3 (slot r.page_table 3) ≡ 1)
  unfolding ceildiv
  three_blocks m f0 =
      let (m1, e1, f1, first1, k1) =
        take_next h.mapped h.unlocked f0 0x10000 1 (rw h.pages refl) (omega arith)
          (omega (arith, h.large)) in
      let (m2, e2, f2, first2, k2) =
        take_next h.mapped h.unlocked f1 0x10400 2 (rw h.pages refl) (omega arith)
          (omega (arith, h.large)) in
      let (m3, e3, f3, first3, k3) =
        take_next h.mapped h.unlocked f2 0x40000 4 (rw h.pages refl) (omega arith)
          (omega (arith, h.large)) in
      (m1, m2, m3, e1, e2, e3, f3, k3 1 (lt-of_ltb 1 3 refl) (ne-of_== 1 3 refl) ∙ first2, first3)

  -- A block is given back and its first page is taken again; page 3 is not touched.
  again :
      (i n num_bytes : ℕ) (m : Memory)
      → Filled r m n
      → m (slot r.page_table i) ≡ 1
      → m (slot r.page_table 3) ≡ 1
      → 0 < i
      → i ≤ 7
      → i ≢ 3
      → 7 ≤ n
      → i < n
      → n ≤ r.page_table_entries
      → ceildiv num_bytes r.page_size ≡ 1
      → (m1 : Memory) × (m' : Memory) × (free fuel r m (at_page r i) ≡ done r m1)
        × (malloc r m1 num_bytes ≡ some (at_page r i, r, m'))
        × Filled r m' n
        × (m' (slot r.page_table 3) ≡ 1)
  again i n num_bytes m f first third some_entry le other seven lt fits size =
      let (m1, m', e, e', f', k) =
        free_take h.mapped h.unlocked f fuel i num_bytes enough h.not_null (omega (arith, h.pages))
          (in_size i le) lt fits first
          (unaligned r.page_table i h.aligned some_entry (omega (arith, le))) size in
      (m1, m', e, e', f', k 3 (omega (arith, seven)) (λ same. other (sym same)) ∙ third)

  -- The two large requests, with a small one between them.
  large_blocks :
      (m : Memory)
      → Filled r m 7
      → m (slot r.page_table 3) ≡ 1
      → (m5 : Memory) × (m6 : Memory) × (malloc r m 0x3d4d0000 ≡ some (at_page r 7, r, m5))
        × (malloc r m5 0x400 ≡ some (at_page r 15700, r, m6))
        × (malloc r m6 0x3d4d0000 ≡ some (0, r, m6))
        × Filled r m6 15701
        × (m6 (slot r.page_table 7) ≡ 1)
        × (m6 (slot r.page_table 3) ≡ 1)
  unfolding ceildiv
  large_blocks m f third =
      let (m5, e5, f5, first5, k5) =
        take_next h.mapped h.unlocked f 0x3d4d0000 15693 (rw h.pages refl) (omega arith)
          (omega (arith, h.large)) in
      let (m6, e6, f6, first6, k6) =
        take_next h.mapped h.unlocked f5 0x400 1 (rw h.pages refl) (omega arith)
          (omega (arith, h.large)) in
      (
        m5,
        m6,
        e5,
        e6,
        take_none h.mapped h.unlocked f6 0x3d4d0000 15693 (rw h.pages refl) h.large
            (omega (arith, h.small)),
        f6,
        k6 7 (lt-of_ltb 7 15700 refl) (ne-of_== 7 15700 refl) ∙ first5,
        k6 3 (lt-of_ltb 3 15700 refl) (ne-of_== 3 15700 refl)
            ∙ (k5 3 (lt-of_ltb 3 7 refl) (ne-of_== 3 7 refl) ∙ third),
      )

  -- The calls at the end.
  last_frees :
      (m : Memory)
      → m (slot r.page_table 3) ≡ 1
      → heap_test_frees fuel (at_page r 1) (at_page r 3) r m
        ≡ done r (update m (slot r.page_table 3) 0)
  last_frees m third =
      let here : page r 3 ≡ at_page r 3 = omega arith in
      let run =
        free_first_only fuel r m 3 enough h.unlocked
          (record {
            inside = in_size 3 (omega arith);
            not_null = h.not_null;
            some_size = omega (arith, h.pages);
            first = rw third refl;
          })
          (unaligned r.page_table 3 h.aligned (omega arith) (omega arith)) in
      frees_once fuel (at_page r 1) (at_page r 3) r m (update m (slot r.page_table 3) 0) h.unlocked
        (within_page r h.pages) h.below (rw here at run)

  -- On a heap of 15701 to 31393 pages of 64 KiB with a clear table, which begins at a multiple of 4096,
  -- and that ends below 2 GiB, `heap_test` prints the addresses of the pages 0, 1, 3, 1, 7 and 15700,
  -- NULL, and that of page 7. Though it gives back two blocks of several pages and then page 3's, of
  -- the 15701 pages that were taken only page 3 is free afterwards.
  pub heap_test_lem :
      (m : Memory)
      → ((i : ℕ) → i < r.page_table_entries → m (slot r.page_table i) ≡ 0)
      → (m' : Memory) × (heap_test fuel r m ≡ some (printed r, r, m'))
        × ((i : ℕ) → i < 15701 → i ≢ 3 → m' (slot r.page_table i) % 2 ≡ 1)
        × (m' (slot r.page_table 3) ≡ 0)
  unfolding ceildiv
  heap_test_lem m clear =
      let (m1, m2, m3, e1, e2, e3, f3, first3, third3) =
        three_blocks m
          (record { used = λ i lt. absurd (omega (arith, lt)); clear = λ i le lt. clear i lt }) in
      let (m3', m4, e4, e5, f4, third4) =
        again 1 7 0x8000 m3 f3 first3 third3 (omega arith) (omega arith) (ne-of_== 1 3 refl)
          (omega arith) (omega arith) (omega (arith, h.large)) (rw h.pages refl) in
      let (m5, m6, e6, e7, e8, f6, first6, third6) = large_blocks m4 f4 third4 in
      let (m7, m8, e9, e10, f8, third8) =
        again 7 15701 0x400 m6 f6 first6 third6 (omega arith) (omega arith) (ne-of_== 7 3 refl)
          (omega arith) (omega arith) h.large (rw h.pages refl) in
      (
        update m8 (slot r.page_table 3) 0,
        heap_test-calls fuel r m m1 m2 m3 m3' m4 m5 m6 m7 m8 _ e1 e2 e3 e4 e5 e6 e7 e8 e9 e10
            (last_frees m8 third8),
        λ i lt other. rw (slot-Beside r m8 i other) (f8.used i lt),
        slot-cleared r m8,
      )
