-- ===== src/Pcie.antt =====
-- rp1_pcie.c and include/pci_ecam.h: the configuration space behind the index register, and the windows.
mod Runs
pub mod Ecam
pub mod ConfigSpace
pub mod Scan
pub mod Windows
use Prim.Native.Nat.{bit_and, bit_or}
use cob_kernel.Common.{ℕ, zero, suc, ◌+◌, ◌-◌, ◌*◌, ◌/◌, ◌%◌, ◌^◌, ◌==◌, if◌then◌else◌}
use cob_kernel.Common.Int.{ℤ, pos, negsuc}
use cob_kernel.Util.{get_bits_sz}
use cob_kernel.Device.{Bus, pcie_base}

-- PCIE_ECAM_BUS, PCIE_ECAM_DEVFN and PCIE_ECAM_REG: a mask of all ones below a bit is a remainder.
abbrev pub pcie_ecam_bus : ℕ → ℕ
pcie_ecam_bus x = x % 2 ^ 8 * 2 ^ 20

abbrev pub pcie_ecam_devfn : ℕ → ℕ
pcie_ecam_devfn x = x % 2 ^ 8 * 2 ^ 12

abbrev pub pcie_ecam_reg : ℕ → ℕ
pcie_ecam_reg x = x % 2 ^ 12

-- PCIE_ECAM_OFFSET
unfoldable pub pcie_ecam_offset : ℕ → ℕ → ℕ → ℕ
pcie_ecam_offset bus devfn at =
    bit_or (bit_or (pcie_ecam_bus bus) (pcie_ecam_devfn devfn)) (pcie_ecam_reg at)

-- What `rp1_read_pcie_windows` makes of the five registers of a window.
pub record Window : Type 0 where
  pub pcie_addr : ℕ
  pub cpu_addr : ℕ
  pub cpu_limit : ℕ

-- The arithmetic of a round of `rp1_read_pcie_windows`, on `u64`: the registers are MEM_WIN0_LO, MEM_WIN0_HI,
-- BASE_LIMIT, BASE_HI and LIMIT_HI.
unfoldable pub decode_window : ℕ → ℕ → ℕ → ℕ → ℕ → Window
decode_window pcie_lo pcie_hi base_limit base_hi limit_hi =
    let cpu_addr_mb_lo = get_bits_sz base_limit 4 12 in
    let cpu_limit_mb_lo = get_bits_sz base_limit 20 12 in
    let cpu_addr_mb_hi = get_bits_sz base_hi 0 8 in
    let cpu_limit_mb_hi = get_bits_sz limit_hi 0 8 in
    record {
      pcie_addr = bit_or pcie_lo (pcie_hi * 2 ^ 32 % 2 ^ 64);
      cpu_addr = bit_or cpu_addr_mb_lo (cpu_addr_mb_hi * 2 ^ 12) * 1024 * 1024 % 2 ^ 64;
      cpu_limit = bit_or cpu_limit_mb_lo (cpu_limit_mb_hi * 2 ^ 12) * 1024 * 1024 % 2 ^ 64;
    }

-- `cpu_limit - cpu_addr`, on `u64`
unfoldable pub window_bytes : Window → ℕ
window_bytes w = (w.cpu_limit + (2 ^ 64 - w.cpu_addr)) % 2 ^ 64

module _ {D : Type 0} (bus : Bus D) where
  unfoldable pub rp1_pcie_read32 : ℕ → D → ℕ × D
  rp1_pcie_read32 off s = bus.read32 (pcie_base + off) s

  unfoldable pub rp1_pcie_write32 : ℕ → ℕ → D → D
  rp1_pcie_write32 off value s = bus.write32 (pcie_base + off) value s

  -- `rp1_map_pcie_cfg`, with EXT_CFG_INDEX and EXT_CFG_DATA.
  unfoldable pub rp1_map_pcie_cfg : ℕ → ℕ → ℕ → D → ℕ × D
  rp1_map_pcie_cfg b devfn off s =
      (0x8000 + pcie_ecam_reg off, rp1_pcie_write32 0x9000 (pcie_ecam_offset b devfn 0) s)

  unfoldable pub rp1_pcie_cfg_read : ℕ → ℕ → ℕ → D → ℕ × D
  rp1_pcie_cfg_read b devfn off s =
      let (addr, s') = rp1_map_pcie_cfg b devfn off s in rp1_pcie_read32 addr s'

  unfoldable pub rp1_pcie_cfg_write : ℕ → ℕ → ℕ → ℕ → D → D
  rp1_pcie_cfg_write b devfn off value s =
      let (addr, s') = rp1_map_pcie_cfg b devfn off s in rp1_pcie_write32 addr value s'

  -- The reads of a round of `rp1_read_pcie_windows` for window `i`, up to its first `printf`.
  unfoldable pub read_window : ℕ → D → Window × D
  read_window i s =
      let (pcie_lo, s1) = rp1_pcie_read32 (0x400c + i * 8) s in
      let (pcie_hi, s2) = rp1_pcie_read32 (0x4010 + i * 8) s1 in
      let (base_limit, s3) = rp1_pcie_read32 (0x4070 + i * 4) s2 in
      let (base_hi, s4) = rp1_pcie_read32 (0x4080 + i * 8) s3 in
      let (limit_hi, s5) = rp1_pcie_read32 (0x4084 + i * 8) s4 in
      (decode_window pcie_lo pcie_hi base_limit base_hi limit_hi, s5)

  unfoldable pub rp1_pcie_link_up : D → ℤ × D
  rp1_pcie_link_up s =
      let (val, s') = bus.read32 (pcie_base + 0x4068) s in
      (if bit_and val 0x30 == 0x30 then pos 0 else negsuc 0, s')

  -- `pcie_fixups` of fixups.c
  unfoldable pub pcie_fixups : D → D
  pcie_fixups s =
      let s1 = bus.write32 (pcie_base + 0x4008) 0x263480 s in
      let s2 = bus.write32 (pcie_base + 0x40a4) 0x82000 s1 in
      let s3 = bus.write32 (pcie_base + 0x40a8) 0xb2d0000 s2 in
      let s4 = bus.write32 (pcie_base + 0x43c) 0x30060400 s3 in
      let s5 = bus.write32 (pcie_base + 0x188) 0x0 s4 in
      let s6 = bus.write32 (pcie_base + 0xac) 0x420010 s5 in
      rp1_pcie_cfg_write 1 0 0x10 0x80410000 s6
