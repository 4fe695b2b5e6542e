-- ===== src/Pcie/Runs.antt =====
-- Runs of the configuration accesses on a device whose first register cannot be written.
use cob_kernel.Common.{
  ℕ, ◌+◌, ◌-◌, ◌^◌, ◌<◌, ◌≡◌, refl, arith, Bool, true, false, ◌&&◌, map, ltb, leb, ◌==◌,
  if◌then◌else◌,
}
use cob_kernel.Device.{Bus, pcie_base}
use cob_kernel.Pcie.{pcie_ecam_offset, rp1_pcie_cfg_read, rp1_pcie_cfg_write}
use cob_kernel.Pcie.ConfigSpace.{ConfigPort, cfg_read-cfg_write, print_pcie_cfg}
use cob_kernel.Pcie.Scan.{from, devices, print_pcie_cfg_lem}

pub record Root : Type 0 where
  pub selected : ℕ
  pub held : ℕ → ℕ → ℕ

-- Whether an address lies in the data window.
abbrev in_window : ℕ → Bool
in_window addr = leb (pcie_base + 0x8000) addr && ltb addr (pcie_base + 0x9000)

abbrev kept_value : ℕ → ℕ → ℕ → ℕ → ℕ
kept_value i at old v = if at == 0 then old else v

abbrev root_bus : Bus Root
root_bus = record {
  read32 =
      λ addr s. (if in_window addr then s.held s.selected (addr - (pcie_base + 0x8000)) else 0, s);
  write32 = λ addr v s.
      if addr == pcie_base + 0x9000
      then record s { selected = v }
      else if in_window addr
      then record s {
        held = λ i at.
            if (i == s.selected) && (at == addr - (pcie_base + 0x8000))
            then kept_value i at (s.held i at) v
            else s.held i at;
      }
      else s;
}

window : (at : ℕ) → at < 2 ^ 12 → in_window (pcie_base + (0x8000 + at)) ≡ true
window at lt = ground (arith, lt)

not_index : (at : ℕ) → at < 2 ^ 12 → (pcie_base + (0x8000 + at) == pcie_base + 0x9000) ≡ false
not_index at lt = ground (arith, lt)

within : (at : ℕ) → pcie_base + (0x8000 + at) - (pcie_base + 0x8000) ≡ at
within at = omega arith

root_port : ConfigPort root_bus
root_port = record {
  index = λ s. s.selected;
  space = λ s. s.held;
  accept = kept_value;
  select_index = λ v s. refl;
  select_space = λ v s i at. refl;
  read_data = λ at s lt. rw (window at lt, within at) refl;
  read_space = λ at s i at' lt. refl;
  write_data = λ at v s i at' lt. rw (not_index at lt, window at lt, within at) refl;
}

abbrev root : Root
root = record { selected = 0; held = λ i at. if i == 0x100000 then 0x1de4 else 0xffffffff }

cfg_read-cfg_write_example :
    let before = (rp1_pcie_cfg_read root_bus 1 0 0x10 root).0 in
    (rp1_pcie_cfg_read root_bus 1 0 0x10 (rp1_pcie_cfg_write root_bus 1 0 0x10 0x80410000 root)).0
    ≡ (if (1 == 1) && ((0 == 0) && (0x10 == 0x10))
        then root_port.accept (pcie_ecam_offset 1 0 0) 0x10 before 0x80410000
        else before)
cfg_read-cfg_write_example =
    cfg_read-cfg_write root_bus root_port 1 0 0x10 0x80410000 1 0 0x10 root (omega arith)
      (omega arith) (omega arith) (omega arith) (omega arith) (omega arith)

print_pcie_cfg_lem_example :
    (print_pcie_cfg root_bus root).0 ≡ map (devices (root_port.space root)) (from 256 0)
print_pcie_cfg_lem_example = print_pcie_cfg_lem root_bus root_port root
