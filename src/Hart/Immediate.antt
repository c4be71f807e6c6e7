-- ===== src/Hart/Immediate.antt =====
-- The immediates of the instruction formats, `extendImmType…` and `extendImmC…`.
pub mod Bounds
pub mod Placed
use revive.Common.{ℕ, ◌-◌, ◌*◌, ◌^◌, bit_or, if◌then◌else◌, u32, not32, test_bits}
use revive.Hart.Csr.{extract_bits}
use revive.Hart.Encode.{
  rs1, i_imm110, s_imm40, s_imm115, b_imm11, b_imm41, b_imm105, b_imm12, u_imm3112, j_imm1912,
  j_imm11, j_imm101, j_imm20,
}

-- `value << k` of a 32-bit word
abbrev pub shl : ℕ → ℕ → ℕ
shl value k = u32 (value * 2 ^ k)

unfoldable pub extend_sign_bit : ℕ → ℕ → ℕ
extend_sign_bit value sign_bit_idx =
    let sign_bit_mask = 2 ^ sign_bit_idx in
    if test_bits value sign_bit_mask then bit_or value (not32 (sign_bit_mask - 1)) else value

unfoldable pub extend_imm_type_i : ℕ → ℕ
extend_imm_type_i encode = extend_sign_bit (i_imm110 encode) 11

unfoldable pub extend_imm_type_s : ℕ → ℕ
extend_imm_type_s encode = extend_sign_bit (bit_or (shl (s_imm115 encode) 5) (s_imm40 encode)) 11

unfoldable pub extend_imm_type_b : ℕ → ℕ
extend_imm_type_b encode =
    let v1 = bit_or (shl (b_imm12 encode) 1) (b_imm11 encode) in
    let v2 = bit_or (shl v1 6) (b_imm105 encode) in
    let v3 = bit_or (shl v2 4) (b_imm41 encode) in extend_sign_bit (shl v3 1) 12

unfoldable pub extend_imm_type_u : ℕ → ℕ
extend_imm_type_u encode = shl (u_imm3112 encode) 12

unfoldable pub extend_imm_type_j : ℕ → ℕ
extend_imm_type_j encode =
    let v1 = bit_or (shl (j_imm20 encode) 8) (j_imm1912 encode) in
    let v2 = bit_or (shl v1 1) (j_imm11 encode) in
    let v3 = bit_or (shl v2 10) (j_imm101 encode) in extend_sign_bit (shl v3 1) 20

unfoldable pub extend_zimm : ℕ → ℕ
extend_zimm encode = rs1 encode

unfoldable pub extend_csr : ℕ → ℕ
extend_csr encode = i_imm110 encode

-- `value = (value << width) | EXTRACT_BITS(encode.value, hi:lo)`
abbrev pub append_bits : ℕ → ℕ → ℕ → ℕ → ℕ → ℕ
append_bits value width encode hi lo = bit_or (shl value width) (extract_bits encode hi lo)

unfoldable pub extend_imm_c_slli : ℕ → ℕ
extend_imm_c_slli encode = append_bits (extract_bits encode 12 12) 5 encode 6 2

unfoldable pub extend_imm_c_lwsp : ℕ → ℕ
extend_imm_c_lwsp encode =
    let v1 = append_bits (extract_bits encode 3 2) 1 encode 12 12 in
    let v2 = append_bits v1 3 encode 6 4 in shl v2 2

unfoldable pub extend_imm_c_swsp : ℕ → ℕ
extend_imm_c_swsp encode = shl (append_bits (extract_bits encode 8 7) 4 encode 12 9) 2

unfoldable pub extend_imm_c_addi4spn : ℕ → ℕ
extend_imm_c_addi4spn encode =
    let v1 = append_bits (extract_bits encode 10 7) 2 encode 12 11 in
    let v2 = append_bits v1 1 encode 5 5 in let v3 = append_bits v2 1 encode 6 6 in shl v3 2

unfoldable pub extend_imm_c_lwsw : ℕ → ℕ
extend_imm_c_lwsw encode =
    let v1 = append_bits (extract_bits encode 5 5) 3 encode 12 10 in
    let v2 = append_bits v1 1 encode 6 6 in shl v2 2

unfoldable pub extend_imm_c_addi : ℕ → ℕ
extend_imm_c_addi encode = extend_sign_bit (append_bits (extract_bits encode 12 12) 5 encode 6 2) 5

unfoldable pub extend_imm_c_j : ℕ → ℕ
extend_imm_c_j encode =
    let v1 = append_bits (extract_bits encode 12 12) 1 encode 8 8 in
    let v2 = append_bits v1 2 encode 10 9 in
    let v3 = append_bits v2 1 encode 6 6 in
    let v4 = append_bits v3 1 encode 7 7 in
    let v5 = append_bits v4 1 encode 2 2 in
    let v6 = append_bits v5 1 encode 11 11 in
    let v7 = append_bits v6 3 encode 5 3 in extend_sign_bit (shl v7 1) 11

unfoldable pub extend_imm_c_addi16sp : ℕ → ℕ
extend_imm_c_addi16sp encode =
    let v1 = append_bits (extract_bits encode 12 12) 2 encode 4 3 in
    let v2 = append_bits v1 1 encode 5 5 in
    let v3 = append_bits v2 1 encode 2 2 in
    let v4 = append_bits v3 1 encode 6 6 in extend_sign_bit (shl v4 4) 9

unfoldable pub extend_imm_c_lui : ℕ → ℕ
extend_imm_c_lui encode =
    extend_sign_bit (shl (append_bits (extract_bits encode 12 12) 5 encode 6 2) 12) 17

unfoldable pub extend_imm_c_srl : ℕ → ℕ
extend_imm_c_srl encode = append_bits (extract_bits encode 12 12) 5 encode 6 2

unfoldable pub extend_imm_c_b : ℕ → ℕ
extend_imm_c_b encode =
    let v1 = append_bits (extract_bits encode 12 12) 2 encode 6 5 in
    let v2 = append_bits v1 1 encode 2 2 in
    let v3 = append_bits v2 2 encode 11 10 in
    let v4 = append_bits v3 2 encode 4 3 in extend_sign_bit (shl v4 1) 8
