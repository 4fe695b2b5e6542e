-- ===== src/Pcie/Scan.antt =====
-- What `print_pcie_cfg` prints.
use mathlib.Core.Path.{fun_ext}
use cob_kernel.Common.{
  ℕ, zero, suc, ◌+◌, ◌*◌, ◌%◌, ◌^◌, ◌≤◌, ◌≡◌, inl, inr, refl, ◌∙◌, arith, Bool, not, List, [], ◌∷◌,
  map, ◌==◌, if◌then◌else◌, Bool-cases,
}
use cob_kernel.Device.{Bus}
use cob_kernel.Pcie.{pcie_ecam_offset, rp1_pcie_cfg_read}
use cob_kernel.Pcie.ConfigSpace.{
  dump_cfg, scan_devices, scan_buses, print_pcie_cfg, ConfigPort, read_register, read_keeps,
}

-- The numbers from `k` on, `n` of them.
unfoldable pub from : ℕ → ℕ → List ℕ
from zero k = []
from (suc n) k = k ∷ from n (suc k)

unfoldable pub keep : (ℕ → Bool) → List ℕ → List ℕ
keep p [] = []
keep p (x ∷ xs) = let rest = keep p xs in if p x then x ∷ rest else rest

-- Function 0 of a device: its registers of four bytes below 256, and whether it answers.
abbrev pub registers : (ℕ → ℕ → ℕ) → ℕ → ℕ → ℕ → List (ℕ × ℕ)
registers space b dev n =
    map (λ i. (i * 4, space (pcie_ecam_offset b (dev * 2 ^ 3) 0) (i * 4))) (from n 0)

abbrev pub answers : (ℕ → ℕ → ℕ) → ℕ → ℕ → Bool
answers space b dev = not (space (pcie_ecam_offset b (dev * 2 ^ 3) 0) 0 == 0xffffffff)

-- The devices of a bus that answer, with their registers.
abbrev pub devices : (ℕ → ℕ → ℕ) → ℕ → List (ℕ × ℕ × List (ℕ × ℕ))
devices space b =
    map (λ dev. (b, dev, registers space b dev 64)) (keep (answers space b) (from 32 0))

module _ {D : Type 0} (bus : Bus D) (port : ConfigPort bus) where
  read_same :
      (b devfn off : ℕ) (s : D) → port.space (rp1_pcie_cfg_read bus b devfn off s).1 ≡ port.space s
  read_same b devfn off s = fun_ext (λ i. fun_ext (λ at. read_keeps bus port b devfn off s i at))

  dump_lem :
      (n b dev k : ℕ) (s : D)
      → (k + n) * 4 ≤ 2 ^ 12
      → ((dump_cfg bus n b dev (k * 4) s).0
          ≡ map
              (λ i. (i * 4, port.space s (pcie_ecam_offset b (dev * 2 ^ 3) 0) (i * 4)))
              (from n k))
        × (port.space (dump_cfg bus n b dev (k * 4) s).1 ≡ port.space s)
  unfolding dump_cfg from
  dump_lem zero b dev k s le = (refl, refl)
  dump_lem (suc n) b dev k s le =
      let next : k * 4 + 4 ≡ suc k * 4 = omega arith in
      let whole : k * 4 % 2 ^ 12 ≡ k * 4 = omega (arith, le) in
      let (list, kept) =
        dump_lem n b dev (suc k) (rp1_pcie_cfg_read bus b (dev * 2 ^ 3) (k * 4) s).1
          (omega (arith, le)) in
      (
        rw
            (
              next,
              read_register bus port b (dev * 2 ^ 3) (k * 4) s,
              whole,
              list,
              read_same b (dev * 2 ^ 3) (k * 4) s,
            )
            refl,
        rw next (kept ∙ read_same b (dev * 2 ^ 3) (k * 4) s),
      )

  -- What a device adds to the list of its bus, and the state behind it.
  devices_lem :
      (n b dev : ℕ) (s : D)
      → ((scan_devices bus n b dev s).0
          ≡ map
              (λ d. (b, d, registers (port.space s) b d 64))
              (keep (answers (port.space s) b) (from n dev)))
        × (port.space (scan_devices bus n b dev s).1 ≡ port.space s)
  unfolding scan_devices from keep
  devices_lem zero b dev s = (refl, refl)
  devices_lem (suc n) b dev s =
      let s1 = (rp1_pcie_cfg_read bus b (dev * 2 ^ 3) 0 s).1 in
      let s2 = (dump_cfg bus 64 b dev 0 s1).1 in
      let vid = read_register bus port b (dev * 2 ^ 3) 0 s in
      let same = read_same b (dev * 2 ^ 3) 0 s in
      let next : dev + 1 ≡ suc dev = omega arith in
      elim (Bool-cases (port.space s (pcie_ecam_offset b (dev * 2 ^ 3) 0) 0 == 0xffffffff)) [
        | inl absent ↦
            let (list, kept) = devices_lem n b (suc dev) s1 in
            (rw (vid, absent, next, list, same) refl, rw (vid, absent, next) (kept ∙ same))
        | inr present ↦
            let (regs, kept) = dump_lem 64 b dev 0 s1 (omega arith) in
            let (list, kept') = devices_lem n b (suc dev) s2 in
            (
              rw (vid, present, next, regs, list, kept, same) refl,
              rw (vid, present, next) (kept' ∙ (kept ∙ same)),
            )
      ]

  buses_lem : (n b : ℕ) (s : D) → (scan_buses bus n b s).0 ≡ map (devices (port.space s)) (from n b)
  unfolding scan_buses from
  buses_lem zero b s = refl
  buses_lem (suc n) b s =
      let (found, kept) = devices_lem 32 b 0 s in
      let e : b + 1 ≡ suc b = omega arith in
      rw (found, e, buses_lem n (suc b) (scan_devices bus 32 b 0 s).1, kept) refl

  -- If the root complex answers as a configuration port, `print_pcie_cfg` prints, bus by bus, the devices
  -- whose first register is not all ones, each with its 64 registers, as the configuration space has them
  -- at the start: the reads of the scan do not disturb each other.
  pub print_pcie_cfg_lem :
      (s : D) → (print_pcie_cfg bus s).0 ≡ map (devices (port.space s)) (from 256 0)
  unfolding print_pcie_cfg
  print_pcie_cfg_lem s = buses_lem 256 0 s
