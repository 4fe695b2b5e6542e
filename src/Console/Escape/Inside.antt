-- ===== src/Console/Escape/Inside.antt =====
-- The cursor stays in the buffer, escape sequences included.
use cob_kernel.Common.{
  ℕ, zero, suc, ◌+◌, ◌-◌, ◌<◌, ◌≡◌, inl, inr, refl, arith, false, Option, List, [], ◌∷◌, ◌++◌,
  length, ltb, ◌==◌, Bool-cases,
}
use cob_kernel.Console.{cmd_size, Editor}
use cob_kernel.Console.Edit.{line, console_key-stays, console_key-esc}
use cob_kernel.Console.Escape.Arrows.{Below}
use cob_kernel.Console.Escape.{
  Escape, moved, waiting, overflowed, out_of_bounds, handle_esc, address, Console, at_prompt,
  in_escape, ansi_overflowed, escape_faulted, faulted, out_of_fuel, after_esc, after_key,
  console_keys,
}
use cob_kernel.Console.Escape.Sequence.{
  NoBackspace, Tail, whole, behind, Tail-trans, Tail-length, Tail-NoBackspace, IsOverlong, Kept,
  handle_esc-Kept,
}

-- The console waits for a key with the cursor in the buffer; or an ESC is among the keys, and it waits for one
-- in the sequence behind it, or has written behind `ansi_buf` there, where the sequence is too long. Nothing
-- else is accessed outside of a buffer.
pub Stays : List ℕ → Console → Type 0
Stays keys (at_prompt e) =
    (buf : List ℕ) × (place : ℕ) × (echo : List ℕ) × (e ≡ line buf place echo)
    × ((length buf ≡ cmd_size) × (place < cmd_size))
Stays keys in_escape = (s : List ℕ) × Tail keys (0x1b ∷ s)
Stays keys ansi_overflowed = (s : List ℕ) × Tail keys (0x1b ∷ s) × IsOverlong s
Stays keys escape_faulted = ⊥
Stays keys faulted = ⊥
Stays keys out_of_fuel = ⊥

Tail-Stays : {s t : List ℕ} (x : Console) → Tail s t → Stays t x → Stays s x
unfolding Stays
Tail-Stays (at_prompt e) u h = h
Tail-Stays in_escape u (s, v) = (s, Tail-trans u v)
Tail-Stays ansi_overflowed u (s, v, o) = (s, Tail-trans u v, o)
Tail-Stays escape_faulted u h = h
Tail-Stays faulted u h = h
Tail-Stays out_of_fuel u h = h

module _ (cmd ansi : ℕ) (b : Below ansi cmd) where
  after_esc-Stays :
      (buf : List ℕ) (place : ℕ) (echo keys : List ℕ) (x : Escape)
      (next : Editor → List ℕ → Console)
      → Kept cmd keys (IsOverlong keys) x
      → ((place' : ℕ) (echo' input' : List ℕ)
          → place' < cmd_size
          → Tail keys input'
          → Stays input' (next (line buf place' echo') input'))
      → Stays (0x1b ∷ keys) (after_esc cmd (line buf place echo) x next)
  unfolding after_esc Kept Stays
  after_esc-Stays buf place echo keys (moved cur new input) next (lo, (hi, left)) go =
      let inside : ltb cur cmd ≡ false = ground (arith, lo) in
      rw inside (
        Tail-Stays _ (behind left)
          (go (cur - cmd) (echo ++ new) input (omega (arith, lo, hi)) left))
  after_esc-Stays buf place echo keys waiting next h go = (keys, whole)
  after_esc-Stays buf place echo keys overflowed next h go = (keys, whole, h)
  after_esc-Stays buf place echo keys out_of_bounds next h go = absurd h

  -- With `ansi_buf` below `cmd_buf`, and from a cursor inside `cmd_buf`, on keys without a backspace, escape
  -- sequences included, no byte outside of `cmd_buf` is accessed through the cursor, by `split_str` or for the
  -- argument of a sequence, and one of three things happens. The loop of `start_console` takes all keys,
  -- and the cursor is inside the buffer again; or it waits for a key behind an ESC; or it has
  -- written behind `ansi_buf`, and then the keys have an ESC, a [, 31 keys of which none is D or C, and one
  -- more. Fuel of the number of keys and 1 is enough.
  pub console_keys-Stays :
      (fuel : ℕ) (buf : List ℕ) (place : ℕ) (echo input : List ℕ)
      → length buf ≡ cmd_size
      → place < cmd_size
      → NoBackspace input
      → length input < fuel
      → Stays input (console_keys fuel cmd ansi (line buf place echo) input)
  unfolding console_keys address after_key Stays
  console_keys-Stays zero buf place echo input size inside ok enough =
      absurd (omega (arith, enough))
  console_keys-Stays (suc fuel) buf place echo [] size inside ok enough =
      (buf, place, echo, refl, (size, inside))
  console_keys-Stays (suc fuel) buf place echo (key ∷ input) size inside (other_key, ok) enough =
      elim (Bool-cases (key == 0x1b)) [
        | inl is_esc ↦
            let e : key ≡ 0x1b = ground (arith, is_esc) in
            rw (e, console_key-esc esc others (line buf place echo))
              (after_esc-Stays buf place echo input _ _
                (handle_esc-Kept cmd ansi buf b (cmd + place) input (omega arith)
                  (omega (arith, inside)))
                (λ place' echo' input' lt left.
                  let shorter = Tail-length left in
                  console_keys-Stays fuel buf place' echo' input' size lt (Tail-NoBackspace left ok)
                    (omega (arith, shorter, enough))))
        | inr other ↦
            let (buf', place', echo', run, size', inside') =
              console_key-stays esc others buf place echo key size inside
                (λ e. ground (arith, e, other)) (λ e. absurd (other_key e)) in
            rw run (
              Tail-Stays _ (behind whole) (
                console_keys-Stays fuel buf' place' echo' input size' inside' ok
                  (omega (arith, enough))))
      ]
    where
      esc : Console
      esc =
          after_esc cmd (line buf place echo) (handle_esc cmd ansi buf (cmd + place) input)
            (λ e' input'. console_keys fuel cmd ansi e' input')

      others : Option Editor → Console
      others o = after_key o (λ e'. console_keys fuel cmd ansi e' input)
