-- ===== src/Pcie/ConfigSpace.antt =====
-- The configuration space behind the index register: the accesses of rp1_pcie.c, and `print_pcie_cfg` of
-- console.c.
use cob_kernel.Common.{
  ℕ, zero, suc, ◌+◌, ◌*◌, ◌%◌, ◌^◌, ◌<◌, ◌≡◌, refl, ap, ◌∙◌, arith, ◌&&◌, List, [], ◌∷◌, ◌==◌,
  if◌then◌else◌,
}
use cob_kernel.Device.{Bus, pcie_base}
use cob_kernel.Pcie.{
  pcie_ecam_offset, rp1_pcie_read32, rp1_pcie_write32, rp1_map_pcie_cfg, rp1_pcie_cfg_read,
  rp1_pcie_cfg_write,
}
use cob_kernel.Pcie.Ecam.{pcie_ecam_offset_lem}

module _ {D : Type 0} (bus : Bus D) where
  -- The loop of `print_pcie_cfg` over the registers from `i` on, with the rounds that are left.
  unfoldable pub dump_cfg : ℕ → ℕ → ℕ → ℕ → D → List (ℕ × ℕ) × D
  dump_cfg zero b dev i s = ([], s)
  dump_cfg (suc n) b dev i s =
      let (dat, s') = rp1_pcie_cfg_read bus b (dev * 2 ^ 3) i s in
      let (rest, s'') = dump_cfg n b dev (i + 4) s' in ((i, dat) ∷ rest, s'')

  -- The loop over the devices of a bus.
  unfoldable pub scan_devices : ℕ → ℕ → ℕ → D → List (ℕ × ℕ × List (ℕ × ℕ)) × D
  scan_devices zero b dev s = ([], s)
  scan_devices (suc n) b dev s =
      let (vid, s') = rp1_pcie_cfg_read bus b (dev * 2 ^ 3) 0 s in
      let (regs, s'') = dump_cfg 64 b dev 0 s' in
      let absent = scan_devices n b (dev + 1) s' in
      let (rest, s''') = scan_devices n b (dev + 1) s'' in
      if vid == 0xffffffff then absent else ((b, dev, regs) ∷ rest, s''')

  -- The loop over the buses: a line for each bus.
  unfoldable pub scan_buses : ℕ → ℕ → D → List (List (ℕ × ℕ × List (ℕ × ℕ))) × D
  scan_buses zero b s = ([], s)
  scan_buses (suc n) b s =
      let (found, s') = scan_devices 32 b 0 s in
      let (rest, s'') = scan_buses n (b + 1) s' in (found ∷ rest, s'')

  -- `print_pcie_cfg`: the devices that it prints, with their registers, and the state afterwards.
  unfoldable pub print_pcie_cfg : D → List (List (ℕ × ℕ × List (ℕ × ℕ))) × D
  print_pcie_cfg s = scan_buses 256 0 s

  -- How the root complex answers at the index register and at the data window: it has a configuration space of
  -- registers by index and offset, a read gives the register that the index selects, and a write changes that
  -- register alone, to what the device accepts of it.
  pub record ConfigPort : Type 0 where
    pub index : D → ℕ
    pub space : D → ℕ → ℕ → ℕ
    pub accept : ℕ → ℕ → ℕ → ℕ → ℕ
    pub select_index : (v : ℕ) (s : D) → index (bus.write32 (pcie_base + 0x9000) v s) ≡ v
    pub select_space :
        (v : ℕ) (s : D) (i at : ℕ)
        → space (bus.write32 (pcie_base + 0x9000) v s) i at ≡ space s i at
    pub read_data :
        (at : ℕ) (s : D)
        → at < 2 ^ 12
        → (bus.read32 (pcie_base + (0x8000 + at)) s).0 ≡ space s (index s) at
    pub read_space :
        (at : ℕ) (s : D) (i at' : ℕ)
        → at < 2 ^ 12
        → space (bus.read32 (pcie_base + (0x8000 + at)) s).1 i at' ≡ space s i at'
    pub write_data :
        (at v : ℕ) (s : D) (i at' : ℕ)
        → at < 2 ^ 12
        → space (bus.write32 (pcie_base + (0x8000 + at)) v s) i at' ≡ (
            if (i == index s) && (at' == at) then accept i at' (space s i at') v else space s i at')

  module _ (port : ConfigPort) where
    pub read_register :
        (b devfn off : ℕ) (s : D)
        → (rp1_pcie_cfg_read bus b devfn off s).0
          ≡ port.space s (pcie_ecam_offset b devfn 0) (off % 2 ^ 12)
    unfolding rp1_pcie_cfg_read rp1_map_pcie_cfg rp1_pcie_read32 rp1_pcie_write32
    read_register b devfn off s =
        let selected = bus.write32 (pcie_base + 0x9000) (pcie_ecam_offset b devfn 0) s in
        port.read_data (off % 2 ^ 12) selected (omega arith)
        ∙ (ap (λ i. port.space selected i (off % 2 ^ 12))
              (port.select_index (pcie_ecam_offset b devfn 0) s)
            ∙ port.select_space (pcie_ecam_offset b devfn 0) s (pcie_ecam_offset b devfn 0)
                (off % 2 ^ 12))

    pub read_keeps :
        (b devfn off : ℕ) (s : D) (i at : ℕ)
        → port.space (rp1_pcie_cfg_read bus b devfn off s).1 i at ≡ port.space s i at
    unfolding rp1_pcie_cfg_read rp1_map_pcie_cfg rp1_pcie_read32 rp1_pcie_write32
    read_keeps b devfn off s i at =
        port.read_space (off % 2 ^ 12)
          (bus.write32 (pcie_base + 0x9000) (pcie_ecam_offset b devfn 0) s) i at (omega arith)
        ∙ port.select_space (pcie_ecam_offset b devfn 0) s i at

    write_register :
        (b devfn off v : ℕ) (s : D) (i at : ℕ)
        → off < 2 ^ 12
        → port.space (rp1_pcie_cfg_write bus b devfn off v s) i at ≡ (
            if (i == pcie_ecam_offset b devfn 0) && (at == off)
            then port.accept i at (port.space s i at) v
            else port.space s i at)
    unfolding rp1_pcie_cfg_write rp1_map_pcie_cfg rp1_pcie_write32
    write_register b devfn off v s i at lt =
        let whole : off % 2 ^ 12 ≡ off = omega (arith, lt) in
        let selected = bus.write32 (pcie_base + 0x9000) (pcie_ecam_offset b devfn 0) s in
        rw
          (
            whole,
            port.write_data off v selected i at lt,
            port.select_index (pcie_ecam_offset b devfn 0) s,
            port.select_space (pcie_ecam_offset b devfn 0) s i at,
          )
          refl

    -- A read of a register after a write to one gives what the device accepts of the written value if it is the
    -- same register of the same function, and what a read before the write gives otherwise. Bus and
    -- function have eight bits, and the offsets lie below 4 KiB.
    pub cfg_read-cfg_write :
        (b devfn off v b' devfn' off' : ℕ) (s : D)
        → b < 2 ^ 8
        → devfn < 2 ^ 8
        → off < 2 ^ 12
        → b' < 2 ^ 8
        → devfn' < 2 ^ 8
        → off' < 2 ^ 12
        → let before = (rp1_pcie_cfg_read bus b' devfn' off' s).0 in
          (rp1_pcie_cfg_read bus b' devfn' off' (rp1_pcie_cfg_write bus b devfn off v s)).0 ≡ (
            if (b' == b) && ((devfn' == devfn) && (off' == off))
            then port.accept (pcie_ecam_offset b' devfn' 0) off' before v
            else before)
    cfg_read-cfg_write b devfn off v b' devfn' off' s hb hd ho hb' hd' ho' =
        let whole : off' % 2 ^ 12 ≡ off' = omega (arith, ho') in
        rw
          (
            read_register b' devfn' off' s,
            read_register b' devfn' off' (rp1_pcie_cfg_write bus b devfn off v s),
            whole,
            write_register b devfn off v s (pcie_ecam_offset b' devfn' 0) off' ho,
            same_function,
          )
          refl
      where
        same_function :
            ((pcie_ecam_offset b' devfn' 0 == pcie_ecam_offset b devfn 0) && (off' == off))
            ≡ ((b' == b) && ((devfn' == devfn) && (off' == off)))
        same_function = ground (
          arith,
          pcie_ecam_offset_lem b' devfn' 0,
          pcie_ecam_offset_lem b devfn 0,
          hb,
          hd,
          hb',
          hd',
        )
