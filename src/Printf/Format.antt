-- ===== src/Printf/Format.antt =====
-- printf.c: `tfp_format` and what it calls, `tfp_printf` and `tfp_sprintf`. What goes through `putf` is the
-- list that is returned.
use cob_kernel.Common.{
  ℕ, zero, suc, ◌+◌, ◌-◌, ◌*◌, ◌%◌, ◌^◌, Bool, true, false, not, ◌&&◌, Option, none, some, List, [],
  ◌∷◌, ◌++◌, length, replicate, ltb, leb, ◌==◌, if◌then◌else◌, ◌>>=◌,
}
use cob_kernel.Semaphore.{
  arm64_take_semaphore_exclusive, arm64_put_semaphore_exclusive, arm64_init_semaphore,
}
use cob_kernel.Printf.{uli2a, ui2a, li2a, i2a, char_ge}

-- What a caller passes for one directive: a 64-bit register, for an integer of either length, or a string. A
-- directive for an `int` takes the low half of the register, also where the caller passes a `u64` for it
-- (exceptions.c, kernel_info.c): such a mismatch, undefined in C, is what AArch64 makes of it. A string for
-- an integer, or an integer for a string, is `none` below.
pub data Arg : Type 0 where
  word : ℕ → Arg
  str : List ℕ → Arg

-- `a2d`; -1 is `none`.
unfoldable pub a2d : ℕ → Option ℕ
a2d ch =
    if char_ge ch b'0' && leb ch b'9'
    then some (ch - b'0')
    else if char_ge ch b'a' && leb ch b'f'
    then some (ch - b'a' + 10)
    else if char_ge ch b'A' && leb ch b'F'
    then some (ch - b'A' + 10)
    else none

-- `*p++`
unfoldable pub next_char : List ℕ → ℕ × List ℕ
next_char [] = (0, [])
next_char (c ∷ s) = (c, s)

-- `while ((digit=a2d(ch))>=0) { if (digit>base) break; … }`: where it stops, and where it goes on.
unfoldable pub a2i_round {ℓ} : {A : Type ℓ} → ℕ → Option ℕ → A → (ℕ → A) → A
a2i_round base none stop next = stop
a2i_round base (some digit) stop next = if ltb base digit then stop else next digit

-- The loop of `a2i`: the character that ends it, the text behind that, and `num`, an `int` pattern.
unfoldable pub a2i : ℕ → List ℕ → ℕ → ℕ → ℕ × List ℕ × ℕ
a2i ch [] base num =
    a2i_round base (a2d ch) (ch, [], num) (λ digit. (0, [], (num * base + digit) % 2 ^ 32))
a2i ch (c ∷ s) base num =
    a2i_round base (a2d ch) (ch, c ∷ s, num) (λ digit. a2i c s base ((num * base + digit) % 2 ^ 32))

-- The first loop of `putchw`: what is left of the width.
unfoldable pub pad_left : List ℕ → ℕ → ℕ
pad_left [] n = n
pad_left (c ∷ bf) zero = zero
pad_left (c ∷ bf) (suc n) = pad_left bf n

-- `putchw`; `n` is an `int` pattern, and no loop runs on a negative one.
unfoldable pub putchw : ℕ → Bool → List ℕ → List ℕ
putchw n z bf =
    let fc = if z then b'0' else b' ' in
    let width = if ltb n (2 ^ 31) then n else 0 in replicate (pad_left bf width) fc ++ bf

-- A directive as `tfp_format` reads it, behind the `%`.
pub record Directive : Type 0 where
  pub lz : Bool
  pub w : ℕ
  pub lng : Bool
  pub ch : ℕ
  pub rest : List ℕ

-- `if (ch=='l') { … }`
unfoldable pub read_long : Bool → ℕ × List ℕ × ℕ → Directive
read_long lz (ch, fmt, w) =
    if ch == b'l'
    then record { lz = lz; w = w; lng = true; ch = (next_char fmt).0; rest = (next_char fmt).1 }
    else record { lz = lz; w = w; lng = false; ch = ch; rest = fmt }

-- `if (ch>='0' && ch<='9') { … }`
unfoldable pub read_width : Bool → ℕ × List ℕ → Directive
read_width lz (ch, fmt) =
    read_long lz (if char_ge ch b'0' && leb ch b'9' then a2i ch fmt 10 0 else (ch, fmt, 0))

unfoldable pub read_directive : List ℕ → Directive
read_directive fmt =
    let (ch, rest) = next_char fmt in
    if ch == b'0' then read_width true (next_char rest) else read_width false (ch, rest)

-- The cases that format a number: `va_arg(va, unsigned int)` is the low half of the register.
unfoldable pub put_number :
    Directive
    → (ℕ → Option (List ℕ))
    → (ℕ → Option (List ℕ))
    → List Arg
    → Option (List ℕ × List Arg)
put_number d long int [] = none
put_number d long int (str s ∷ va) = none
put_number d long int (word v ∷ va) =
    (if d.lng then long v else int (v % 2 ^ 32)) >>= (λ bf. some (putchw d.w d.lz bf, va))

unfoldable pub put_char : List Arg → Option (List ℕ × List Arg)
put_char [] = none
put_char (str s ∷ va) = none
put_char (word v ∷ va) = some (v % 256 ∷ [], va)

unfoldable pub put_string : Directive → List Arg → Option (List ℕ × List Arg)
put_string d [] = none
put_string d (word v ∷ va) = none
put_string d (str s ∷ va) = some (putchw d.w false s, va)

-- The `switch` for a character other than NUL.
unfoldable pub put_directive : Directive → List Arg → Option (List ℕ × List Arg)
put_directive d va =
    if d.ch == b'u'
    then put_number d (λ v. uli2a v 10 false) (λ v. ui2a v 10 false) va
    else if d.ch == b'd'
    then put_number d li2a i2a va
    else if d.ch == b'x'
    then put_number d (λ v. uli2a v 16 false) (λ v. ui2a v 16 false) va
    else if d.ch == b'X'
    then put_number d (λ v. uli2a v 16 true) (λ v. ui2a v 16 true) va
    else if d.ch == b'c'
    then put_char va
    else if d.ch == b's'
    then put_string d va
    else if d.ch == b'%'
    then some (b'%' ∷ [], va)
    else some ([], va)

-- What a call of `tfp_format` does.
pub data Printed : Type 0 where
  text : List ℕ → Printed
  -- a directive finds no argument of its kind
  bad_argument : Printed
  out_of_fuel : Printed

unfoldable pub prepend : List ℕ → Printed → Printed
prepend s (text t) = text (s ++ t)
prepend s bad_argument = bad_argument
prepend s out_of_fuel = out_of_fuel

-- What a directive printed, and the rest of the text behind it.
unfoldable pub continue_with : Option (List ℕ × List Arg) → (List Arg → Printed) → Printed
continue_with none next = bad_argument
continue_with (some (s, va)) next = prepend s (next va)

-- The loop of `tfp_format`, with fuel.
unfoldable pub format_loop : ℕ → List ℕ → List Arg → Printed
format_loop zero fmt va = out_of_fuel
format_loop (suc fuel) [] va = text []
format_loop (suc fuel) (ch ∷ fmt) va =
    let d = read_directive fmt in
    let plain = prepend (ch ∷ []) (format_loop fuel fmt va) in
    let directive = continue_with (put_directive d va) (λ va'. format_loop fuel d.rest va') in
    if ch == 0
    then text []
    else if not (ch == b'%')
    then plain
    else if d.ch == 0
    then text []
    else directive

-- Each round takes a character at least.
unfoldable pub tfp_format : List ℕ → List Arg → Printed
tfp_format fmt va = format_loop (length fmt + 1) fmt va

-- `struct char_device`, less the function and the pointer that it calls it with.
pub record CharDevice : Type 0 where
  pub sem : ℕ
  pub thread_safe : Bool

unfoldable pub init_printf : CharDevice → CharDevice
init_printf dev = record dev { thread_safe = false }

-- `init_printf_threadsafe`, given the word at address 0: the device and that word afterwards.
unfoldable pub init_printf_threadsafe : CharDevice → ℕ → CharDevice × ℕ
unfolding init_printf
init_printf_threadsafe dev word_at_zero =
    let dev' = init_printf dev in
    let init = arm64_init_semaphore dev'.sem word_at_zero in
    (record dev' { sem = init.sem; thread_safe = true }, init.word_at_zero)

-- `tfp_printf`: the device afterwards and what was printed; `none` when the core waits.
unfoldable pub tfp_printf : CharDevice → List ℕ → List Arg → Option (CharDevice × Printed)
tfp_printf dev fmt va =
    if dev.thread_safe
    then arm64_take_semaphore_exclusive dev.sem >>= (λ taken.
      some (record dev { sem = arm64_put_semaphore_exclusive taken }, tfp_format fmt va))
    else some (dev, tfp_format fmt va)

-- `putcp(&s,0)` behind what was written.
unfoldable pub terminate : Printed → Printed
terminate (text t) = text (t ++ (0 ∷ []))
terminate bad_argument = bad_argument
terminate out_of_fuel = out_of_fuel

-- `tfp_sprintf`: what it writes from `s` on, with the NUL.
unfoldable pub tfp_sprintf : List ℕ → List Arg → Printed
tfp_sprintf fmt va = terminate (tfp_format fmt va)
