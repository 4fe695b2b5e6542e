-- ===== src/Printf/Tests.antt =====
-- Runs of the number formatting, of `strtol` and of `tfp_format`.
use cob_kernel.Common.{ℕ, ◌%◌, ◌^◌, ◌≡◌, arith, true, false, some, List, [], ◌∷◌, All}
use cob_kernel.Printf.{uli2a, ui2a, li2a, i2a, strtol}
use cob_kernel.Printf.Bounds.{Fits, itoa_bf_size, itoa_bf_size_short, numbers_fit}
use cob_kernel.Printf.Scan.{strtol-uli2a}
use cob_kernel.Printf.Text.{IsPlain}

strtol-uli2a_example : (bf : List ℕ) × (uli2a 0xbeef 16 true ≡ some bf) × (strtol bf 16 ≡ 0xbeef)
strtol-uli2a_example = strtol-uli2a 16 (omega arith) (omega arith) 0xbeef true (omega arith)

abbrev label : List ℕ
label = b't' ∷ b'=' ∷ []

label-IsPlain : All IsPlain label
label-IsPlain = ((λ e. omega arith, λ e. omega arith), ((λ e. omega arith, λ e. omega arith), tt))

numbers_fit_example :
    Fits itoa_bf_size (uli2a (2 ^ 63) 10 false)
    × Fits itoa_bf_size (li2a (2 ^ 63))
    × Fits itoa_bf_size (uli2a (2 ^ 63) 16 true)
    × Fits itoa_bf_size_short (ui2a (2 ^ 63 % 2 ^ 32) 10 false)
    × Fits itoa_bf_size_short (i2a (2 ^ 63 % 2 ^ 32))
    × Fits itoa_bf_size_short (ui2a (2 ^ 63 % 2 ^ 32) 16 true)
numbers_fit_example = numbers_fit (2 ^ 63) true (omega arith)
