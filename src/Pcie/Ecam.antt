-- ===== src/Pcie/Ecam.antt =====
-- The fields of a configuration address and of a window.
use Prim.Native.Nat.{bit_or}
use cob_kernel.Common.{ℕ, ◌+◌, ◌*◌, ◌/◌, ◌%◌, ◌^◌, ◌≤◌, ◌<◌, ◌≡◌, ◌∙◌, ap, arith}
use cob_kernel.Common.Bor.{bit_or_shifted, shifted_bit_or}
use cob_kernel.Pcie.{pcie_ecam_offset, decode_window, window_bytes}

-- The fields of an ECAM offset do not overlap.
pub pcie_ecam_offset_lem :
    (b devfn at : ℕ)
    → pcie_ecam_offset b devfn at ≡ b % 2 ^ 8 * 2 ^ 20 + devfn % 2 ^ 8 * 2 ^ 12 + at % 2 ^ 12
unfolding pcie_ecam_offset
pcie_ecam_offset_lem b devfn at =
    let e : b % 2 ^ 8 * 2 ^ 20 + devfn % 2 ^ 8 * 2 ^ 12
        ≡ (b % 2 ^ 8 * 2 ^ 8 + devfn % 2 ^ 8) * 2 ^ 12 =
      omega arith in
    ap (λ (x : ℕ). bit_or x (at % 2 ^ 12))
      (bit_or_shifted 20 (b % 2 ^ 8) (devfn % 2 ^ 8 * 2 ^ 12) (omega arith) ∙ e)
    ∙ (bit_or_shifted 12 (b % 2 ^ 8 * 2 ^ 8 + devfn % 2 ^ 8) (at % 2 ^ 12) (omega arith)
        ∙ omega arith)

-- Different functions, of a bus and a device number of eight bits each, have different configuration
-- addresses, and so have different registers below 4 KiB.
pcie_ecam_offset_injective :
    (b devfn at b' devfn' at' : ℕ)
    → b < 2 ^ 8
    → devfn < 2 ^ 8
    → at < 2 ^ 12
    → b' < 2 ^ 8
    → devfn' < 2 ^ 8
    → at' < 2 ^ 12
    → pcie_ecam_offset b devfn at ≡ pcie_ecam_offset b' devfn' at'
    → (b ≡ b') × (devfn ≡ devfn') × (at ≡ at')
pcie_ecam_offset_injective b devfn at b' devfn' at' hb hd ha hb' hd' ha' e = (
  omega (arith, e, pcie_ecam_offset_lem b devfn at, pcie_ecam_offset_lem b' devfn' at'),
  omega (arith, e, pcie_ecam_offset_lem b devfn at, pcie_ecam_offset_lem b' devfn' at'),
  omega (arith, e, pcie_ecam_offset_lem b devfn at, pcie_ecam_offset_lem b' devfn' at'),
)

-- The megabytes in a window's register fields.
abbrev megabytes : ℕ → ℕ → ℕ
megabytes lo hi = lo % 2 ^ 12 + hi % 2 ^ 8 * 2 ^ 12

-- The addresses of a window are the whole megabytes that its fields hold, below 2 ^ 40, and its PCIe
-- address the two words of 32 bits. Its size is the distance from base to limit, if the limit is not below
-- the base.
decode_window_lem :
    (lo hi base_limit base_hi limit_hi : ℕ)
    → lo < 2 ^ 32
    → hi < 2 ^ 32
    → megabytes (base_limit / 2 ^ 4) base_hi ≤ megabytes (base_limit / 2 ^ 20) limit_hi
    → let w = decode_window lo hi base_limit base_hi limit_hi in
      (w.pcie_addr ≡ hi * 2 ^ 32 + lo)
      × (w.cpu_addr ≡ megabytes (base_limit / 2 ^ 4) base_hi * 2 ^ 20)
      × (window_bytes w + w.cpu_addr ≡ megabytes (base_limit / 2 ^ 20) limit_hi * 2 ^ 20)
unfolding decode_window window_bytes
decode_window_lem lo hi base_limit base_hi limit_hi small_lo small_hi le =
    let whole : hi * 2 ^ 32 % 2 ^ 64 ≡ hi * 2 ^ 32 = omega (arith, small_hi) in
    let base =
      shifted_bit_or 12 (base_hi / 2 ^ 0 % 2 ^ 8) (base_limit / 2 ^ 4 % 2 ^ 12) (omega arith) in
    let limit =
      shifted_bit_or 12 (limit_hi / 2 ^ 0 % 2 ^ 8) (base_limit / 2 ^ 20 % 2 ^ 12) (omega arith) in
    (
      rw whole (shifted_bit_or 32 hi lo small_lo),
      omega (arith, base),
      omega (arith, base, limit, le),
    )
