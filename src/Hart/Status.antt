-- ===== src/Hart/Status.antt =====
-- The bit-fields of the control registers (sim/include/decode.hh), by their positions in `value`.
pub mod Laws
use revive.Common.{ℕ, field, set_field}

-- `CSRstatus`
abbrev pub uie : ℕ → ℕ
uie = field 0 1

abbrev pub sie : ℕ → ℕ
sie = field 1 1

abbrev pub mie : ℕ → ℕ
mie = field 3 1

abbrev pub upie : ℕ → ℕ
upie = field 4 1

abbrev pub spie : ℕ → ℕ
spie = field 5 1

abbrev pub mpie : ℕ → ℕ
mpie = field 7 1

abbrev pub spp : ℕ → ℕ
spp = field 8 1

abbrev pub mpp : ℕ → ℕ
mpp = field 11 2

abbrev pub mprv : ℕ → ℕ
mprv = field 17 1

abbrev pub sum : ℕ → ℕ
sum = field 18 1

abbrev pub mxr : ℕ → ℕ
mxr = field 19 1

abbrev pub tsr : ℕ → ℕ
tsr = field 22 1

abbrev pub set_uie : ℕ → ℕ → ℕ
set_uie = set_field 0 1

abbrev pub set_sie : ℕ → ℕ → ℕ
set_sie = set_field 1 1

abbrev pub set_mie : ℕ → ℕ → ℕ
set_mie = set_field 3 1

abbrev pub set_upie : ℕ → ℕ → ℕ
set_upie = set_field 4 1

abbrev pub set_spie : ℕ → ℕ → ℕ
set_spie = set_field 5 1

abbrev pub set_mpie : ℕ → ℕ → ℕ
set_mpie = set_field 7 1

abbrev pub set_spp : ℕ → ℕ → ℕ
set_spp = set_field 8 1

abbrev pub set_mpp : ℕ → ℕ → ℕ
set_mpp = set_field 11 2

-- `CSRisa`
abbrev pub isa_c : ℕ → ℕ
isa_c = field 2 1

-- `CSRatp`
abbrev pub atp_ppn : ℕ → ℕ
atp_ppn = field 0 22

abbrev pub atp_mode : ℕ → ℕ
atp_mode = field 31 1
