-- ===== src/Util/Tests.antt =====
-- Runs of the macros of include/util.h.
use cob_kernel.Common.{ℕ, ◌≡◌, refl, true}
use cob_kernel.Util.{alignup, ispow2}

ispow2_runs : ispow2 65536 ≡ true
unfolding ispow2
ispow2_runs = refl

alignup_runs : alignup 0x12345 0x1000 ≡ 0x13000
unfolding alignup
alignup_runs = refl

abbrev page_size : ℕ
page_size = 4096
