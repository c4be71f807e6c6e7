-- ===== src/Hart/Alu.antt =====
-- The operators of the instructions, `OP_…`. Each gives the 32-bit word that is stored.
pub mod Bounds
pub mod Product
use revive.Common.{
  ℕ, ◌+◌, ◌-◌, ◌*◌, ◌/◌, ◌%◌, ◌^◌, bit_and, bit_or, bit_xor, Bool, not, xor, ◌&&◌, ◌||◌, ltb, leb,
  ◌==◌, ◌!=◌, if◌then◌else◌, u32, u64, not32, not64, test_bits,
}
use revive.Common.Int.{ltb_ℤ, signed32, word32, quot, rem, shift_right}

unfoldable pub op_add : ℕ → ℕ → ℕ
op_add src1 src2 = u32 (src1 + src2)

unfoldable pub op_sub : ℕ → ℕ → ℕ
op_sub src1 src2 = u32 (src1 + 2 ^ 32 - src2)

unfoldable pub op_and : ℕ → ℕ → ℕ
op_and src1 src2 = bit_and src1 src2

unfoldable pub op_or : ℕ → ℕ → ℕ
op_or src1 src2 = bit_or src1 src2

unfoldable pub op_xor : ℕ → ℕ → ℕ
op_xor src1 src2 = bit_xor src1 src2

abbrev pub signed_lt : ℕ → ℕ → Bool
signed_lt src1 src2 = ltb_ℤ (signed32 src1) (signed32 src2)

unfoldable pub op_slt : ℕ → ℕ → ℕ
op_slt src1 src2 = if signed_lt src1 src2 then 1 else 0

unfoldable pub op_sltu : ℕ → ℕ → ℕ
op_sltu src1 src2 = if ltb src1 src2 then 1 else 0

-- The count of a shift goes through `shift_count`: C++ leaves a count of 32 or more undefined.
unfoldable pub op_sll : (ℕ → ℕ) → ℕ → ℕ → ℕ
op_sll shift_count src1 src2 = u32 (src1 * 2 ^ shift_count src2)

unfoldable pub op_srl : (ℕ → ℕ) → ℕ → ℕ → ℕ
op_srl shift_count src1 src2 = src1 / 2 ^ shift_count src2

unfoldable pub op_sra : (ℕ → ℕ) → ℕ → ℕ → ℕ
op_sra shift_count src1 src2 = word32 (shift_right (signed32 src1) (shift_count src2))

unfoldable pub op_mul : ℕ → ℕ → ℕ
op_mul src1 src2 = u32 (src1 * src2)

-- the operands that the division macros set apart, `src2` being 1 or -1
abbrev pub overflows : ℕ → ℕ → Bool
overflows src1 src2 = src1 == 0x80000000 && (src2 == 0x1 || src2 == 0xffffffff)

unfoldable pub op_div : ℕ → ℕ → ℕ
op_div src1 src2 =
    if overflows src1 src2
    then 0x80000000
    else if src2 != 0
    then word32 (quot (signed32 src1) (signed32 src2))
    else 0xffffffff

unfoldable pub op_divu : ℕ → ℕ → ℕ
op_divu src1 src2 = if src2 != 0 then src1 / src2 else 0xffffffff

unfoldable pub op_rem : ℕ → ℕ → ℕ
op_rem src1 src2 =
    if overflows src1 src2
    then 0
    else if src2 != 0
    then word32 (rem (signed32 src1) (signed32 src2))
    else src1

unfoldable pub op_remu : ℕ → ℕ → ℕ
op_remu src1 src2 = if src2 != 0 then src1 % src2 else src1

-- `EXECUTE_MUH`: the high word of a product of signed or unsigned operands
unfoldable pub op_muh : ℕ → Bool → ℕ → Bool → ℕ
op_muh src1 sign1 src2 sign2 =
    let neg1 = sign1 && test_bits src1 0x80000000 in
    let neg2 = sign2 && test_bits src2 0x80000000 in
    let usrc1 = if neg1 then u32 (not32 src1 + 1) else src1 in
    let usrc2 = if neg2 then u32 (not32 src2 + 1) else src2 in
    let value = u64 (usrc1 * usrc2) in
    let signed_value = if xor neg1 neg2 then u64 (not64 value + 1) else value in
    signed_value / 2 ^ 32

-- the tests of the branches
unfoldable pub op_eq : ℕ → ℕ → Bool
op_eq src1 src2 = src1 == src2

unfoldable pub op_ne : ℕ → ℕ → Bool
op_ne src1 src2 = src1 != src2

unfoldable pub op_lt : ℕ → ℕ → Bool
op_lt src1 src2 = signed_lt src1 src2

unfoldable pub op_ltu : ℕ → ℕ → Bool
op_ltu src1 src2 = ltb src1 src2

unfoldable pub op_ge : ℕ → ℕ → Bool
op_ge src1 src2 = not (signed_lt src1 src2)

unfoldable pub op_geu : ℕ → ℕ → Bool
op_geu src1 src2 = leb src2 src1

unfoldable pub op_amo_ok : ℕ → ℕ → ℕ
op_amo_ok src1 src2 = 0

unfoldable pub op_amo_ll : ℕ → ℕ → ℕ
op_amo_ll src1 src2 = src1

unfoldable pub op_amo_swap : ℕ → ℕ → ℕ
op_amo_swap src1 src2 = src2

unfoldable pub op_amo_min : ℕ → ℕ → ℕ
op_amo_min src1 src2 = if signed_lt src1 src2 then src1 else src2

unfoldable pub op_amo_minu : ℕ → ℕ → ℕ
op_amo_minu src1 src2 = if ltb src1 src2 then src1 else src2

unfoldable pub op_amo_max : ℕ → ℕ → ℕ
op_amo_max src1 src2 = if signed_lt src2 src1 then src1 else src2

unfoldable pub op_amo_maxu : ℕ → ℕ → ℕ
op_amo_maxu src1 src2 = if ltb src2 src1 then src1 else src2

unfoldable pub op_csr_swap : ℕ → ℕ → ℕ
op_csr_swap src1 src2 = src2

unfoldable pub op_csr_set : ℕ → ℕ → ℕ
op_csr_set src1 src2 = bit_or src1 src2

unfoldable pub op_csr_clear : ℕ → ℕ → ℕ
op_csr_clear src1 src2 = bit_and src1 (not32 src2)
