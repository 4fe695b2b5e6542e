-- ===== src/Malloc/Table.antt =====
-- The page table as entries by index, and what the loops that write it leave in memory.
use cob_kernel.Common.{
  ℕ, zero, suc, ◌+◌, ◌-◌, ◌*◌, ◌/◌, ◌%◌, ◌<◌, ◌≡◌, ◌≢◌, refl, arith, ◌==◌, if◌then◌else◌, update,
}
use cob_kernel.Malloc.{Memory, entry_size, clear_table, mark_rest, mark_pages_used}

-- The address of an entry.
abbrev pub slot : ℕ → ℕ → ℕ
slot pt i = pt + i * entry_size

-- The number of free entries among the first `n`.
unfoldable pub free_count : Memory → ℕ → ℕ → ℕ
free_count m pt zero = 0
free_count m pt (suc n) = free_count m pt n + (if m (slot pt n) % 2 == 0 then 1 else 0)

-- An address that is none of the `n` slots from `cur` on.
abbrev pub Outside : ℕ → ℕ → ℕ → Type 0
Outside cur n a = (i : ℕ) → i < n → a ≢ slot cur i

Outside-tail : (cur n a : ℕ) → Outside cur (suc n) a → Outside (cur + entry_size) n a
Outside-tail cur n a out i h e = out (suc i) (omega arith) (omega arith)

pub clear_table-Outside :
    (n cur : ℕ) (m : Memory) (a : ℕ) → Outside cur n a → clear_table n cur m a ≡ m a
unfolding clear_table
clear_table-Outside zero cur m a out = refl
clear_table-Outside (suc n) cur m a out = ground (
  arith,
  out 0,
  clear_table-Outside n (cur + entry_size) (update m cur 0) a (Outside-tail cur n a out),
)

pub clear_table-inside :
    (n cur : ℕ) (m : Memory) (i : ℕ) → i < n → clear_table n cur m (slot cur i) ≡ 0
unfolding clear_table
clear_table-inside zero cur m i h = absurd (omega arith)
clear_table-inside (suc n) cur m zero h = ground (
  arith,
  clear_table-Outside n (cur + entry_size) (update m cur 0) (slot cur 0) (λ k q. omega arith),
)
clear_table-inside (suc n) cur m (suc i) h =
    let e : slot cur (suc i) ≡ slot (cur + entry_size) i = omega arith in
    rw e (clear_table-inside n (cur + entry_size) (update m cur 0) i (omega arith))

-- `1 | start_entry`
abbrev pub link : ℕ → ℕ
link start_entry = start_entry / 2 * 2 + 1

mark_rest-Outside :
    (start n cur : ℕ) (m : Memory) (a : ℕ) → Outside cur n a → mark_rest start n cur m a ≡ m a
unfolding mark_rest
mark_rest-Outside start zero cur m a out = refl
mark_rest-Outside start (suc n) cur m a out = ground (
  arith,
  out 0,
  mark_rest-Outside start n (cur + entry_size) (update m cur (link start)) a
      (Outside-tail cur n a out),
)

mark_rest-inside :
    (start n cur : ℕ) (m : Memory) (i : ℕ)
    → i < n
    → mark_rest start n cur m (slot cur i) ≡ link start
unfolding mark_rest
mark_rest-inside start zero cur m i h = absurd (omega arith)
mark_rest-inside start (suc n) cur m zero h = ground (
  arith,
  mark_rest-Outside start n (cur + entry_size) (update m cur (link start)) (slot cur 0)
      (λ k q. omega arith),
)
mark_rest-inside start (suc n) cur m (suc i) h =
    let e : slot cur (suc i) ≡ slot (cur + entry_size) i = omega arith in
    rw e (mark_rest-inside start n (cur + entry_size) (update m cur (link start)) i (omega arith))

-- The entry of the first page is 1, those of the other pages link to it, and no other word changes.
pub mark_pages_used-first : (start pages : ℕ) (m : Memory) → mark_pages_used start pages m start ≡ 1
unfolding mark_pages_used
mark_pages_used-first start pages m = ground (
  arith,
  mark_rest-Outside start (pages - 1) (start + entry_size) (update m start 1) start
      (λ k q. omega arith),
)

pub mark_pages_used-next :
    (start pages : ℕ) (m : Memory) (i : ℕ)
    → 0 < i
    → i < pages
    → mark_pages_used start pages m (slot start i) ≡ link start
unfolding mark_pages_used
mark_pages_used-next start pages m i pos h =
    let e : slot start i ≡ slot (start + entry_size) (i - 1) = omega arith in
    rw e (
      mark_rest-inside start (pages - 1) (start + entry_size) (update m start 1) (i - 1)
        (omega arith))

pub mark_pages_used-Outside :
    (start pages : ℕ) (m : Memory) (a : ℕ)
    → 0 < pages
    → Outside start pages a
    → mark_pages_used start pages m a ≡ m a
unfolding mark_pages_used
mark_pages_used-Outside start pages m a pos out = ground (
  arith,
  out 0,
  mark_rest-Outside start (pages - 1) (start + entry_size) (update m start 1) a rest,
)
  where
    rest : Outside (start + entry_size) (pages - 1) a
    rest i h e = out (suc i) (omega arith) (omega arith)
