-- ===== src/Printf.antt =====
-- printf.c: number formatting and scanning. A C string is the list of its bytes before the NUL; an `int`
-- or a `long` is its bit pattern, with the wrap-around written out. Printf/Format.antt has `tfp_format`.
mod Tests
pub mod Emit
pub mod Digits
pub mod Scan
pub mod Format
pub mod Pad
pub mod Text
pub mod Bounds
pub mod Directives
pub mod Log
use cob_kernel.Common.{
  ℕ, zero, suc, ◌+◌, ◌-◌, ◌*◌, ◌/◌, ◌%◌, ◌^◌, ◌≡◌, refl, Bool, true, false, not, ◌&&◌, ◌||◌, Option,
  none, some, List, [], ◌∷◌, ltb, leb, ◌==◌, if◌then◌else◌, ◌>>=◌,
}

-- `while (num/d >= base) d*=base;` on words below `word`, with fuel.
unfoldable pub grow : ℕ → ℕ → ℕ → ℕ → ℕ → Option ℕ
grow word zero num base d = none
grow word (suc fuel) num base d =
    let rest = grow word fuel num base (d * base % word) in
    if leb base (num / d) then rest else some d

-- `dgt+(dgt<10 ? '0' : (uc ? 'A' : 'a')-10)`
unfoldable pub digit_char : Bool → ℕ → ℕ
digit_char uc dgt = if ltb dgt 10 then dgt + b'0' else dgt + (if uc then b'A' else b'a') - 10

-- `while (d!=0) { … }`, with fuel: the characters that it appends. `n` is the number written so far.
unfoldable pub emit : ℕ → ℕ → Bool → ℕ → ℕ → ℕ → Option (List ℕ)
emit zero base uc num d n = none
emit (suc fuel) base uc num d n =
    let dgt = num / d in
    let d' = d / base in
    let written = emit fuel base uc (num % d) d' (n + 1) in
    let skipped = emit fuel base uc (num % d) d' n in
    if d == 0
    then some []
    else if not (n == 0) || ltb 0 dgt || d' == 0
    then written >>= (λ rest. some (digit_char uc dgt ∷ rest))
    else skipped

-- The common text of `uli2a` and `ui2a`; 64 rounds are enough for any word and base.
unfoldable pub word_to_ascii : ℕ → ℕ → ℕ → Bool → Option (List ℕ)
word_to_ascii word num base uc = grow word 65 num base 1 >>= (λ d. emit 66 base uc num d 0)

unfoldable pub uli2a : ℕ → ℕ → Bool → Option (List ℕ)
uli2a num base uc = word_to_ascii (2 ^ 64) num base uc

unfoldable pub ui2a : ℕ → ℕ → Bool → Option (List ℕ)
ui2a num base uc = word_to_ascii (2 ^ 32) num base uc

-- `num` is the pattern of a `long`; `-num` in 64 bits.
unfoldable pub li2a : ℕ → Option (List ℕ)
li2a num =
    if leb (2 ^ 63) num
    then uli2a ((2 ^ 64 - num) % 2 ^ 64) 10 false >>= (λ bf. some (b'-' ∷ bf))
    else uli2a num 10 false

-- `num` is the pattern of an `int`.
unfoldable pub i2a : ℕ → Option (List ℕ)
i2a num =
    if leb (2 ^ 31) num
    then ui2a ((2 ^ 32 - num) % 2 ^ 32) 10 false >>= (λ bf. some (b'-' ∷ bf))
    else ui2a num 10 false

-- `*str >= k`, where a byte from 128 on is a negative `char`.
unfoldable pub char_ge : ℕ → ℕ → Bool
char_ge c k = leb k c && ltb c 128

-- The digit that `strtol` reads from a character, if it takes one.
unfoldable pub digit_of : ℕ → ℕ → Option ℕ
digit_of base c =
    if char_ge c b'0' && leb c b'9'
    then some (c - b'0')
    else if ltb 10 base && char_ge c b'a' && ltb c (base - 10 + b'a')
    then some (c - b'a' + 10)
    else if ltb 10 base && char_ge c b'A' && ltb c (base - 10 + b'A')
    then some (c - b'A' + 10)
    else none

-- The loop of `strtol`, from the values of `val` and `negative`; `val` is the pattern of a `long`.
unfoldable pub strtol_loop : ℕ → ℕ → Bool → List ℕ → ℕ × Bool
strtol_loop base val negative [] = (val, negative)
strtol_loop base val negative (c ∷ str) =
    let minus = strtol_loop base val true str in
    let digit = λ (d : ℕ). strtol_loop base ((val * base + d) % 2 ^ 64) negative str in
    if c == 0
    then (val, negative)
    else if base == 10 && c == b'-'
    then minus
    else elim (digit_of base c) [ none ↦ (val, negative) | some d ↦ digit d ]

-- `strtol`: the pattern of the `long` that is returned.
unfoldable pub strtol : List ℕ → ℕ → ℕ
strtol str base =
    let (val, negative) = strtol_loop base 0 false str in
    if negative then (2 ^ 64 - val) % 2 ^ 64 else val
