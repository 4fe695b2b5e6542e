-- ===== src/Console/HeapTest/Filled.antt =====
-- A heap whose pages are in use up to one of them, and free from there on.
use Prim.Native.Nat.add
use cob_kernel.Common.{
  ℕ, zero, suc, ◌+◌, ◌-◌, ◌*◌, ◌%◌, ◌≤◌, ◌<◌, ◌≡◌, ◌≢◌, inl, inr, refl, ◌∙◌, arith, dec_lt,
  ℕ_discrete, some, update,
}
use cob_kernel.Util.{ceildiv}
use cob_kernel.Malloc.{Memory, MemoryRegion, malloc, free, done}
use cob_kernel.Malloc.Table.{slot, free_count, Outside}
use cob_kernel.Malloc.Alloc.{free_count-le-of}
use cob_kernel.Malloc.Correct.{free_count-used, malloc_outcome, Marked, malloc_first_fit}
use cob_kernel.Malloc.Free.{page, free_first_only}

-- The entries below `n` are in use, and those from `n` on are clear.
pub record Filled (r : MemoryRegion) (m : Memory) (n : ℕ) : Type 0 where
  pub used : (i : ℕ) → i < n → m (slot r.page_table i) % 2 ≡ 1
  pub clear : (i : ℕ) → n ≤ i → i < r.page_table_entries → m (slot r.page_table i) ≡ 0

-- What later steps keep of the entries below `n`, but for the entry `hole`.
abbrev pub KeptBut : MemoryRegion → ℕ → ℕ → Memory → Memory → Type 0
KeptBut r hole n m m' =
    (i : ℕ) → i < n → i ≢ hole → m' (slot r.page_table i) ≡ m (slot r.page_table i)

Marked-same : {m m' : Memory} {pt s a b : ℕ} → a ≡ b → Marked m pt a s m' → Marked m pt b s m'
Marked-same e k = rw e at k

free_count_few : (m : Memory) (pt n d : ℕ) → free_count m pt (d + n) ≤ free_count m pt n + d
unfolding free_count
free_count_few m pt n zero = let e : 0 + n ≡ n = omega arith in rw e (omega arith)
free_count_few m pt n (suc d) = rw (add.suc d n) (ground (arith, free_count_few m pt n d))

module _ {r : MemoryRegion} {m : Memory} {n : ℕ} (mapped : 0 < r.page_table) (sem : r.sem ≡ 0)
    (f : Filled r m n) where
  -- A request takes the pages that follow, and leaves the entries before them as they are.
  pub take_next :
      (num_bytes pages : ℕ)
      → ceildiv num_bytes r.page_size ≡ pages
      → 0 < pages
      → n + pages ≤ r.page_table_entries
      → (m' : Memory) × (malloc r m num_bytes ≡ some (n * r.page_size + r.top, r, m'))
        × Filled r m' (n + pages)
        × (m' (slot r.page_table n) ≡ 1)
        × KeptBut r n n m m'
  take_next num_bytes pages size some_page fits =
      let (m', run, k) =
        malloc_first_fit r m num_bytes n mapped sem (omega (arith, size, some_page))
          (omega (arith, size, fits)) f.used
          (λ i lt. rw (f.clear (i + n) (omega arith) (omega (arith, lt, size, fits))) refl) in
      let k' = Marked-same size k in
      (m', run, filled m' k', k'.first, λ i lt other. k.unchanged _ (λ j h e. omega (arith, lt, e)))
    where
      filled : (m' : Memory) → Marked m r.page_table pages n m' → Filled r m' (n + pages)
      filled m' k = record {
        used = λ i lt. elim (dec_lt i n) [
          | yes before ↦
              rw (k.unchanged (slot r.page_table i) (λ j h e. omega (arith, before, e)))
                (f.used i before)
          | no after ↦ elim (ℕ_discrete i n) [
            | yes here ↦ rw (here, k.first) refl
            | no later ↦
                let e : i - n + n ≡ i = omega (arith, after) in
                let linked =
                  k.others (i - n) (omega (arith, after, later)) (omega (arith, lt, after)) in
                omega (arith, rw e at linked)
          ]
        ];
        clear = λ i le lt.
            k.unchanged (slot r.page_table i) (λ j h e. omega (arith, le, h, e))
            ∙ f.clear i (omega (arith, le)) lt;
      }

  -- A request that does not fit gets NULL.
  pub take_none :
      (num_bytes pages : ℕ)
      → ceildiv num_bytes r.page_size ≡ pages
      → n ≤ r.page_table_entries
      → r.page_table_entries < n + pages
      → malloc r m num_bytes ≡ some (0, r, m)
  take_none num_bytes pages size le short = elim (malloc_outcome r m num_bytes mapped sem) [
    | inl (why, run) ↦ run
    | inr (s, j, h, run) ↦
        let all : r.page_table_entries - n + n ≡ r.page_table_entries = omega (arith, le) in
        let few = free_count_few m r.page_table n (r.page_table_entries - n) in
        absurd (
          omega (
            arith,
            h.counted,
            size,
            short,
            rw all at few,
            free_count-used m r.page_table n f.used,
            free_count-le-of m r.page_table (suc j) r.page_table_entries h.in_table,
          ))
  ]

  -- After a block is freed at an entry that is no multiple of 4096, the next request for a page gets its first
  -- page again, and the rest of it stays in use.
  pub free_take :
      (fuel i num_bytes : ℕ)
      → 0 < fuel
      → 0 < r.top
      → 0 < r.page_size
      → i * r.page_size ≤ r.size
      → i < n
      → n ≤ r.page_table_entries
      → m (slot r.page_table i) ≡ 1
      → slot r.page_table i % 0x1000 ≢ 0
      → ceildiv num_bytes r.page_size ≡ 1
      → (m1 : Memory) × (m' : Memory) × (free fuel r m (i * r.page_size + r.top) ≡ done r m1)
        × (malloc r m1 num_bytes ≡ some (i * r.page_size + r.top, r, m'))
        × Filled r m' n
        × KeptBut r i n m m'
  free_take fuel i num_bytes enough top ps inside lt fits first odd size =
      let here : page r i ≡ i * r.page_size + r.top = omega arith in
      let run1 =
        free_first_only fuel r m i enough sem
          (record { inside = inside; not_null = top; some_size = ps; first = rw first refl }) odd in
      let (m', run, k) =
        malloc_first_fit r m1 num_bytes i mapped sem (omega (arith, size))
          (omega (arith, size, lt, fits))
          (λ j before. rw (beside j (omega (arith, before))) (f.used j (omega (arith, before, lt))))
          (λ j h. let e : j + i ≡ i = omega (arith, h, size) in rw e (ground arith)) in
      let k' = Marked-same size k in
      (
        m1,
        m',
        rw (← here) run1,
        run,
        refilled m' k',
        λ j before other. k'.unchanged _ (apart j other) ∙ beside j other,
      )
    where
      m1 : Memory
      m1 = update m (slot r.page_table i) 0

      beside : (j : ℕ) → j ≢ i → m1 (slot r.page_table j) ≡ m (slot r.page_table j)
      beside j other = ground (arith, other)

      apart : (j : ℕ) → j ≢ i → Outside (slot r.page_table i) 1 (slot r.page_table j)
      apart j other l h e = other (omega (arith, h, e))

      refilled : (m' : Memory) → Marked m1 r.page_table 1 i m' → Filled r m' n
      refilled m' k = record {
        used = λ j before. elim (ℕ_discrete j i) [
          | yes here ↦ rw (here, k.first) refl
          | no other ↦
              rw (k.unchanged (slot r.page_table j) (apart j other), beside j other)
                (f.used j before)
        ];
        clear = λ j le below.
            let other : j ≢ i = λ e. omega (arith, e, le, lt) in
            k.unchanged (slot r.page_table j) (apart j other)
            ∙ (beside j other ∙ f.clear j le below);
      }
