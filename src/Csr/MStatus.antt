-- ===== src/Csr/MStatus.antt =====
-- csr.h, the namespace MStatus: the fields of mstatus.
use mocker.Prelude.{ℕ, ◌<<◌}

abbrev pub mie : ℕ
mie = 1 << 3

abbrev pub mpie : ℕ
mpie = 1 << 7

abbrev pub mpp_shift : ℕ
mpp_shift = 11

abbrev pub mpp_mask : ℕ
mpp_mask = 3 << 11

abbrev pub mpp_u : ℕ
mpp_u = 0 << 11

abbrev pub mpp_m : ℕ
mpp_m = 3 << 11
