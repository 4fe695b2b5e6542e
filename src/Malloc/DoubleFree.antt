-- ===== src/Malloc/DoubleFree.antt =====
-- A second `_free` of an address.
use cob_kernel.Common.{
  ℕ, zero, suc, ◌+◌, ◌-◌, ◌/◌, ◌≤◌, ◌<◌, ◌≡◌, ◌≢◌, inl, inr, refl, sym, ◌∙◌, arith, true, ◌||◌, ltb,
  ◌==◌, Option, none, some, update, Bool-cases, Option-cases, ℕ_discrete,
}
use cob_kernel.Semaphore.{arm64_take_semaphore_exclusive, arm64_put_semaphore_exclusive}
use cob_kernel.Malloc.{
  Memory, MemoryRegion, entry_size, page_entry_start_addr, is_first_page_in_block, free_loop, done,
  out_of_fuel, FreeResult, free_locked, free,
}
use cob_kernel.Malloc.Table.{slot}
use cob_kernel.Malloc.Free.{page, free_rejects}

-- The loop writes nothing before its first entry.
free_loop-Before :
    (fuel start cur a : ℕ) (m m' : Memory)
    → free_loop fuel start cur m ≡ some m'
    → a < cur
    → m' a ≡ m a
unfolding free_loop
free_loop-Before zero start cur a m m' run lt = cc
free_loop-Before (suc fuel) start cur a m m' run lt =
    elim (Bool-cases (page_entry_start_addr (m cur) == start)) [
      | inl more ↦
          free_loop-Before fuel start (cur + entry_size) a (update m cur 0) m' (rw more at run)
            (omega (arith, lt))
          ∙ ground (arith, lt)
      | inr stop ↦ let same : some m ≡ some m' = rw stop at run in cc
    ]

-- How a call ends after its loop.
after_loop : MemoryRegion → Option Memory → FreeResult
after_loop r none = out_of_fuel
after_loop r (some m') = done r m'

-- A call on a page of the region whose entry is the first of a block comes to the loop.
free-after_loop :
    (fuel i : ℕ) (r : MemoryRegion) (m : Memory) (addr : ℕ)
    → r.sem ≡ 0
    → (addr - r.top) / r.page_size ≡ i
    → addr ≢ 0
    → r.top ≤ addr
    → addr ≤ r.top + r.size
    → addr ≡ page r i
    → is_first_page_in_block (m (slot r.page_table i)) ≡ true
    → free fuel r m addr
      ≡ after_loop r (
          free_loop fuel
            (slot r.page_table i)
            (slot r.page_table i + entry_size)
            (update m (slot r.page_table i) 0))
unfolding free free_locked arm64_take_semaphore_exclusive arm64_put_semaphore_exclusive after_loop
free-after_loop fuel i r m addr sem index some_addr lo hi aligned first =
    elim (Option-cases (
      free_loop fuel (slot r.page_table i) (slot r.page_table i + entry_size)
        (update m (slot r.page_table i) 0))) [
          | inl e ↦ ground (arith, e)
          | inr (m', e) ↦ ground (arith, e)
        ]

-- Such a call clears the entry, if it returns.
free-cleared :
    (fuel i : ℕ) (r : MemoryRegion) (m m' : Memory) (o : Option Memory)
    → free_loop fuel
        (slot r.page_table i)
        (slot r.page_table i + entry_size)
        (update m (slot r.page_table i) 0)
      ≡ o
    → after_loop r o ≡ done r m'
    → m' (slot r.page_table i) ≡ 0
unfolding after_loop
free-cleared fuel i r m m' none run e = cc
free-cleared fuel i r m m' (some m'') run e =
    let same : m'' ≡ m' = cc in
    rw (← same) (
      free_loop-Before fuel (slot r.page_table i) (slot r.page_table i + entry_size)
        (slot r.page_table i) (update m (slot r.page_table i) 0) m'' run (omega arith)
      ∙ ground arith)

-- Once a call of `_free` has returned, the same call changes nothing more.
pub free_again :
    (fuel : ℕ) (r : MemoryRegion) (m m' : Memory) (addr : ℕ)
    → r.sem ≡ 0
    → free fuel r m addr ≡ done r m'
    → free fuel r m' addr ≡ done r m'
free_again fuel r m m' addr sem run =
    elim (Bool-cases (ltb addr r.top || ltb (r.top + r.size) addr)) [
      | inl out ↦ free_rejects fuel r m' addr sem (ground (arith, out))
      | inr inside ↦ elim (ℕ_discrete addr (page r index)) [
        | no within ↦ free_rejects fuel r m' addr sem (inr (inr (inr (inl within))))
        | yes aligned ↦ elim (ℕ_discrete addr 0) [
          | yes null ↦ free_rejects fuel r m' addr sem (inl null)
          | no some_addr ↦
              elim (Bool-cases (is_first_page_in_block (m (slot r.page_table index)))) [
                | inr used_or_free ↦
                    let left : done r m ≡ done r m' =
                      sym (free_rejects fuel r m addr sem (inr (inr (inr (inr used_or_free)))))
                      ∙ run in
                    let same : m ≡ m' = cc in rw same at run
                | inl first ↦
                    let cleared : m' (slot r.page_table index) ≡ 0 =
                      free-cleared fuel index r m m' _ refl (
                        sym (
                          free-after_loop fuel index r m addr sem refl some_addr
                            (ground (arith, inside)) (ground (arith, inside)) aligned first)
                        ∙ run) in
                    free_rejects fuel r m' addr sem (inr (inr (inr (inr (rw cleared refl)))))
              ]
        ]
      ]
    ]
  where
    index : ℕ
    index = (addr - r.top) / r.page_size
