-- ===== src/Pcie/Windows.antt =====
-- rp1_pcie.c: what `rp1_read_pcie_windows` prints. What is printed is a list of texts, one for each `printf`.
use cob_kernel.Common.{ℕ, zero, suc, ◌+◌, ◌/◌, ◌%◌, ◌^◌, List, [], ◌∷◌, ◌++◌}
use cob_kernel.Common.Bytes.{bytes}
use cob_kernel.Device.{Bus}
use cob_kernel.Printf.Format.{Arg, word, Printed, tfp_format}
use cob_kernel.Pcie.{Window, window_bytes, read_window, rp1_pcie_read32}

-- The arguments of a `printf` that shows a window.
unfoldable pub window_args : ℕ → ℕ → ℕ → ℕ → List Arg
window_args i size cpu_addr pcie_addr = word i ∷ word size ∷ word cpu_addr ∷ word pcie_addr ∷ []

-- The texts of window `i`.
unfoldable pub window_texts : ℕ → Window → List Printed
window_texts i w =
    let size = window_bytes w in
    tfp_format (bytes "Window %d %lx bytes, cpu_addr: %lx -> pcie_addr: %lx\n\r")
      (window_args i size w.cpu_addr w.pcie_addr)
    ∷ tfp_format (bytes "Window %d %x bytes, cpu_addr: %x -> pcie_addr: %x\n\r")
        (window_args i (size % 2 ^ 32) (w.cpu_addr % 2 ^ 32) (w.pcie_addr % 2 ^ 32))
    ∷ tfp_format (bytes "Window %d %x bytes_hi, cpu_addr_hi: %x -> pcie_addr_hi: %x\n\r")
        (window_args i (size / 2 ^ 32) (w.cpu_addr / 2 ^ 32) (w.pcie_addr / 2 ^ 32))
    ∷ []

module _ {D : Type 0} (bus : Bus D) where
  -- The loop of `rp1_read_pcie_windows` from window `i` on, with the windows that are left.
  unfoldable pub read_windows : ℕ → ℕ → D → List Printed × D
  read_windows zero i s = ([], s)
  read_windows (suc n) i s =
      let (w, s1) = read_window bus i s in
      let (misc_ctrl, s2) = rp1_pcie_read32 bus 0x4008 s1 in
      let (rest, s3) = read_windows n (i + 1) s2 in
      (window_texts i w ++ tfp_format (bytes "MISC_CTRL: %x\n\r") (word misc_ctrl ∷ []) ∷ rest, s3)

  -- `rp1_read_pcie_windows`, with NUM_WINDOWS.
  unfoldable pub rp1_read_pcie_windows : D → List Printed × D
  rp1_read_pcie_windows s = read_windows 4 0 s
