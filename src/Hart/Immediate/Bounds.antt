-- ===== src/Hart/Immediate/Bounds.antt =====
-- The immediates are 32-bit words.
use revive.Common.{
  ℕ, ◌-◌, ◌/◌, ◌^◌, ◌≤◌, ◌<◌, bit_and, bit_or, Bool, true, false, arith, if◌then◌else◌, not32,
}
use revive.Common.Bits.{bit_and-le_right, bit_or-lt}
use revive.Hart.Immediate.{
  shl, extend_sign_bit, extend_imm_type_i, extend_imm_type_s, extend_imm_type_b, extend_imm_type_u,
  extend_imm_type_j, extend_zimm, extend_imm_c_slli, extend_imm_c_lwsp, extend_imm_c_swsp,
  extend_imm_c_addi4spn, extend_imm_c_lwsw, extend_imm_c_addi, extend_imm_c_j,
  extend_imm_c_addi16sp, extend_imm_c_lui, extend_imm_c_srl, extend_imm_c_b,
}

pub extend_sign_bit-lt : (value idx : ℕ) → value < 2 ^ 32 → extend_sign_bit value idx < 2 ^ 32
unfolding extend_sign_bit
extend_sign_bit-lt value idx h = go _
  where
    go : (b : Bool) → (if b then bit_or value (not32 (2 ^ idx - 1)) else value) < 2 ^ 32
    go true = bit_or-lt 32 value _ h (omega arith)
    go false = h

shl-lt : (value k : ℕ) → shl value k < 2 ^ 32
shl-lt value k = omega arith

or_low-lt : (a b : ℕ) → a < 2 ^ 32 → b < 2 ^ 32 → bit_or a b < 2 ^ 32
or_low-lt = bit_or-lt 32

-- The lowest bits of a word, 31 of them at most.
extract_bits-lt : (value k lo : ℕ) → k ≤ 0xffff → bit_and (value / 2 ^ lo) k < 2 ^ 32
extract_bits-lt value k lo h = omega (arith, h, bit_and-le_right (value / 2 ^ lo) k)

-- A field of an instruction that a chain of `append_bits` appends.
appended-lt :
    (value width encode k lo : ℕ)
    → k ≤ 0xffff
    → bit_or (shl value width) (bit_and (encode / 2 ^ lo) k) < 2 ^ 32
appended-lt value width encode k lo h =
    bit_or-lt 32 (shl value width) _ (shl-lt value width) (extract_bits-lt encode k lo h)

module _ (encode : ℕ) where
  pub extend_imm_type_i-lt : extend_imm_type_i encode < 2 ^ 32
  unfolding extend_imm_type_i
  extend_imm_type_i-lt = extend_sign_bit-lt _ 11 (omega arith)

  pub extend_imm_type_s-lt : extend_imm_type_s encode < 2 ^ 32
  unfolding extend_imm_type_s
  extend_imm_type_s-lt = extend_sign_bit-lt _ 11 (or_low-lt _ _ (omega arith) (omega arith))

  pub extend_imm_type_b-lt : extend_imm_type_b encode < 2 ^ 32
  unfolding extend_imm_type_b
  extend_imm_type_b-lt = extend_sign_bit-lt _ 12 (shl-lt _ 1)

  pub extend_imm_type_u-lt : extend_imm_type_u encode < 2 ^ 32
  unfolding extend_imm_type_u
  extend_imm_type_u-lt = shl-lt _ 12

  pub extend_imm_type_j-lt : extend_imm_type_j encode < 2 ^ 32
  unfolding extend_imm_type_j
  extend_imm_type_j-lt = extend_sign_bit-lt _ 20 (shl-lt _ 1)

  pub extend_zimm-lt : extend_zimm encode < 2 ^ 32
  unfolding extend_zimm
  extend_zimm-lt = omega arith

  pub extend_imm_c_slli-lt : extend_imm_c_slli encode < 2 ^ 32
  unfolding extend_imm_c_slli
  extend_imm_c_slli-lt = appended-lt _ 5 encode _ 2 (omega arith)

  pub extend_imm_c_lwsp-lt : extend_imm_c_lwsp encode < 2 ^ 32
  unfolding extend_imm_c_lwsp
  extend_imm_c_lwsp-lt = shl-lt _ 2

  pub extend_imm_c_swsp-lt : extend_imm_c_swsp encode < 2 ^ 32
  unfolding extend_imm_c_swsp
  extend_imm_c_swsp-lt = shl-lt _ 2

  pub extend_imm_c_addi4spn-lt : extend_imm_c_addi4spn encode < 2 ^ 32
  unfolding extend_imm_c_addi4spn
  extend_imm_c_addi4spn-lt = shl-lt _ 2

  pub extend_imm_c_lwsw-lt : extend_imm_c_lwsw encode < 2 ^ 32
  unfolding extend_imm_c_lwsw
  extend_imm_c_lwsw-lt = shl-lt _ 2

  pub extend_imm_c_addi-lt : extend_imm_c_addi encode < 2 ^ 32
  unfolding extend_imm_c_addi
  extend_imm_c_addi-lt = extend_sign_bit-lt _ 5 (appended-lt _ 5 encode _ 2 (omega arith))

  pub extend_imm_c_j-lt : extend_imm_c_j encode < 2 ^ 32
  unfolding extend_imm_c_j
  extend_imm_c_j-lt = extend_sign_bit-lt _ 11 (shl-lt _ 1)

  pub extend_imm_c_addi16sp-lt : extend_imm_c_addi16sp encode < 2 ^ 32
  unfolding extend_imm_c_addi16sp
  extend_imm_c_addi16sp-lt = extend_sign_bit-lt _ 9 (shl-lt _ 4)

  pub extend_imm_c_lui-lt : extend_imm_c_lui encode < 2 ^ 32
  unfolding extend_imm_c_lui
  extend_imm_c_lui-lt = extend_sign_bit-lt _ 17 (shl-lt _ 12)

  pub extend_imm_c_srl-lt : extend_imm_c_srl encode < 2 ^ 32
  unfolding extend_imm_c_srl
  extend_imm_c_srl-lt = appended-lt _ 5 encode _ 2 (omega arith)

  pub extend_imm_c_b-lt : extend_imm_c_b encode < 2 ^ 32
  unfolding extend_imm_c_b
  extend_imm_c_b-lt = extend_sign_bit-lt _ 8 (shl-lt _ 1)
