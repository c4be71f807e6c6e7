-- ===== src/Hart/Encode.antt =====
-- `InstrEncode`: an instruction is its `value`, and a field of the union is a bit-field of it.
use revive.Common.{ℕ, field}

abbrev pub opcode : ℕ → ℕ
opcode = field 0 7

abbrev pub rd : ℕ → ℕ
rd = field 7 5

abbrev pub func3 : ℕ → ℕ
func3 = field 12 3

abbrev pub rs1 : ℕ → ℕ
rs1 = field 15 5

abbrev pub rs2 : ℕ → ℕ
rs2 = field 20 5

abbrev pub func7 : ℕ → ℕ
func7 = field 25 7

abbrev pub quad : ℕ → ℕ
quad = field 0 2

abbrev pub crs2 : ℕ → ℕ
crs2 = field 2 5

abbrev pub crdrs1 : ℕ → ℕ
crdrs1 = field 7 5

abbrev pub cfunc1 : ℕ → ℕ
cfunc1 = field 12 1

abbrev pub cfunc3 : ℕ → ℕ
cfunc3 = field 13 3

abbrev pub crdrs2p : ℕ → ℕ
crdrs2p = field 2 3

abbrev pub cfunc21 : ℕ → ℕ
cfunc21 = field 5 2

abbrev pub crdrs1p : ℕ → ℕ
crdrs1p = field 7 3

abbrev pub cfunc22 : ℕ → ℕ
cfunc22 = field 10 2

-- `typeI`, `typeS`, `typeB`, `typeU`, `typeJ` and `typeAMO`
abbrev pub i_imm110 : ℕ → ℕ
i_imm110 = field 20 12

abbrev pub s_imm40 : ℕ → ℕ
s_imm40 = field 7 5

abbrev pub s_imm115 : ℕ → ℕ
s_imm115 = field 25 7

abbrev pub b_imm11 : ℕ → ℕ
b_imm11 = field 7 1

abbrev pub b_imm41 : ℕ → ℕ
b_imm41 = field 8 4

abbrev pub b_imm105 : ℕ → ℕ
b_imm105 = field 25 6

abbrev pub b_imm12 : ℕ → ℕ
b_imm12 = field 31 1

abbrev pub u_imm3112 : ℕ → ℕ
u_imm3112 = field 12 20

abbrev pub j_imm1912 : ℕ → ℕ
j_imm1912 = field 12 8

abbrev pub j_imm11 : ℕ → ℕ
j_imm11 = field 20 1

abbrev pub j_imm101 : ℕ → ℕ
j_imm101 = field 21 10

abbrev pub j_imm20 : ℕ → ℕ
j_imm20 = field 31 1

abbrev pub amo_func5 : ℕ → ℕ
amo_func5 = field 27 5
