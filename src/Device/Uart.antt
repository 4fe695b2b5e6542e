-- ===== src/Device/Uart.antt =====
-- The polling loops of uart.c, and what `_get_char` returns.
use Prim.Native.Nat.{bit_and}
use cob_kernel.Common.{
  ℕ, zero, suc, ◌+◌, ◌%◌, ◌^◌, ◌≤◌, ◌<◌, ◌≡◌, inl, inr, refl, ◌∙◌, arith, Bool, true, some, ◌==◌,
  Bool-cases,
}
use cob_kernel.Common.Bits.{bit_and_low, bit_and_field}
use cob_kernel.Device.{Bus, uart_base, poll, get_char}

module _ {D : Type 0} (bus : Bus D) where
  -- The state after `n` reads of a register.
  unfoldable pub after_reads : ℕ → ℕ → D → D
  after_reads addr zero s = s
  after_reads addr (suc n) s = after_reads addr n (bus.read32 addr s).1

  -- A loop that is answered at read `n` ends at that read or before it.
  poll_lem :
      (n fuel addr : ℕ) (stop : ℕ → Bool) (s : D)
      → stop (bus.read32 addr (after_reads addr n s)).0 ≡ true
      → n < fuel
      → (k : ℕ) × (k ≤ n)
        × (stop (bus.read32 addr (after_reads addr k s)).0 ≡ true)
        × (poll bus fuel addr stop s ≡ some (after_reads addr (suc k) s))
  unfolding poll after_reads
  poll_lem n zero addr stop s answered enough = absurd (omega (arith, enough))
  poll_lem zero (suc fuel) addr stop s answered enough =
      (zero, omega arith, answered, rw answered refl)
  poll_lem (suc n) (suc fuel) addr stop s answered enough =
      elim (Bool-cases (stop (bus.read32 addr s).0)) [
        | inl now ↦ (zero, omega arith, now, rw now refl)
        | inr not_yet ↦
            let (k, le, now, run) =
              poll_lem n fuel addr stop (bus.read32 addr s).1 answered (omega (arith, enough)) in
            (suc k, omega (arith, le), now, rw not_yet run)
      ]

  -- `reg & 0xFF` has none of the error bits 0xf00.
  no_error_bits : (dat : ℕ) → bit_and (bit_and dat 0xff) 0xf00 ≡ 0
  no_error_bits dat =
      let low : bit_and dat 0xff ≡ dat % 2 ^ 8 = bit_and_low 8 dat in
      let high = bit_and_field 8 12 (dat % 2 ^ 8) (omega arith) in rw low (high ∙ omega arith)

  byte_of : (dat : ℕ) → bit_and (bit_and dat 0xff) 0xff ≡ dat % 2 ^ 8
  byte_of dat =
      let low : bit_and dat 0xff ≡ dat % 2 ^ 8 = bit_and_low 8 dat in
      rw low (bit_and_low 8 (dat % 2 ^ 8) ∙ omega arith)

  -- If the receive FIFO is not empty at read `n` of its flag, `_get_char` returns after at most as many reads the
  -- low byte of the data register. It leaves `uart_err` as it is, whatever error bits the register has.
  get_char_lem :
      (n fuel uart_err : ℕ) (s : D)
      → bit_and (bus.read32 (uart_base + 0x18) (after_reads (uart_base + 0x18) n s)).0 (2 ^ 4) ≡ 0
      → n < fuel
      → (k : ℕ) × (k ≤ n)
        × (let ready = after_reads (uart_base + 0x18) (suc k) s in
            get_char bus fuel uart_err s
            ≡ some
                ((bus.read32 uart_base ready).0 % 2 ^ 8, uart_err, (bus.read32 uart_base ready).1))
  unfolding get_char
  get_char_lem n fuel uart_err s ready enough =
      let (k, le, _, run) =
        poll_lem n fuel (uart_base + 0x18) (λ reg. bit_and reg (2 ^ 4) == 0) s (rw ready refl)
          enough in
      let dat = (bus.read32 uart_base (after_reads (uart_base + 0x18) (suc k) s)).0 in
      (k, le, rw (run, no_error_bits dat, byte_of dat) refl)
