-- ===== src/Hart/Immediate/Placed.antt =====
-- The immediates as the numbers that the fields of an instruction spell.
use revive.Common.{
  ℕ, zero, suc, ◌+◌, ◌-◌, ◌*◌, ◌/◌, ◌%◌, ◌^◌, ◌<◌, bit_or, ◌≡◌, refl, ap, arith, ◌!=◌,
  if◌then◌else◌, not32, test_bits,
}
use revive.Common.Bits.{bit_or_shifted, bit_or_fields, bit_and_comm}
use native.Mathlib.Nat.{one-le-pow, div-add-mod'}
use revive.Common.Bits.Masks.{test_bits-bit}
use revive.Hart.Encode.{
  i_imm110, s_imm40, s_imm115, b_imm11, b_imm41, b_imm105, b_imm12, j_imm1912, j_imm11, j_imm101,
  j_imm20,
}
use revive.Hart.Immediate.{
  shl, extend_sign_bit, extend_imm_type_i, extend_imm_type_s, extend_imm_type_b, extend_imm_type_u,
  extend_imm_type_j,
}

-- The word of a number of `k` bits under the sign `sign`, which counts for `- 2 ^ k`.
abbrev pub signed_word : ℕ → ℕ → ℕ → ℕ
signed_word k sign value = sign * (2 ^ 32 - 2 ^ k) + value

two_values :
    (k m value d : ℕ)
    → value / 2 ^ k ≡ d
    → d < 2
    → bit_or 1 m ≡ m
    → (if d % 2 != 0 then bit_or d m * 2 ^ k + value % 2 ^ k else value)
      ≡ d * (m * 2 ^ k) + value % 2 ^ k
two_values k m value zero e h odd =
    let q : value / 2 ^ k * 2 ^ k ≡ 0 * 2 ^ k = ap (λ (t : ℕ). t * 2 ^ k) e in
    omega (arith, q, div-add-mod' value (2 ^ k))
two_values k m value (suc zero) e h odd = rw odd (omega arith)
two_values k m value (suc (suc d)) e h odd = absurd (omega (arith, h))

extend_sign_bit_lem :
    (k m value : ℕ)
    → m * 2 ^ k + 2 ^ k ≡ 2 ^ 32
    → bit_or 1 m ≡ m
    → value / 2 ^ k < 2
    → extend_sign_bit value k ≡ value / 2 ^ k * (m * 2 ^ k) + value % 2 ^ k
unfolding extend_sign_bit
extend_sign_bit_lem k m value e odd h =
    let t : test_bits value (2 ^ k) ≡ (value / 2 ^ k % 2 != 0) =
      rw (bit_and_comm value (2 ^ k)) (test_bits-bit k value) in
    let p : not32 (2 ^ k - 1) ≡ m * 2 ^ k = omega (arith, e, one-le-pow k 2) in
    rw (t, p, bit_or_shifted k value m) (two_values k m value (value / 2 ^ k) refl h odd)

-- Two fields side by side.
placed : (k a b : ℕ) → a * 2 ^ k < 2 ^ 32 → b < 2 ^ k → bit_or (shl a k) b ≡ a * 2 ^ k + b
placed k a b h p = let e : shl a k ≡ a * 2 ^ k = omega (arith, h) in rw e (bit_or_fields k a b p)

-- The immediate of type I is the number that bits 31 to 20 of the instruction spell.
pub extend_imm_type_i_lem :
    (encode : ℕ)
    → encode < 2 ^ 32
    → extend_imm_type_i encode ≡ signed_word 11 (encode / 2 ^ 31) (encode / 2 ^ 20 % 2 ^ 11)
unfolding extend_imm_type_i
extend_imm_type_i_lem encode h =
    omega (arith, extend_sign_bit_lem 11 0x1fffff (i_imm110 encode) refl refl (omega arith))

-- The immediate of type S of a 32-bit instruction has bits 30 to 25 above bits 11 to 7, and bit
-- 31 is its sign, which counts for - 2 ^ 11.
pub extend_imm_type_s_lem :
    (encode : ℕ)
    → encode < 2 ^ 32
    → extend_imm_type_s encode
      ≡ signed_word 11 (encode / 2 ^ 31) (encode / 2 ^ 25 % 2 ^ 6 * 2 ^ 5 + encode / 2 ^ 7 % 2 ^ 5)
unfolding extend_imm_type_s
extend_imm_type_s_lem encode h =
    let e = placed 5 (s_imm115 encode) (s_imm40 encode) (omega arith) (omega arith) in
    rw e (
      omega (
        arith,
        h,
        extend_sign_bit_lem 11 0x1fffff (s_imm115 encode * 2 ^ 5 + s_imm40 encode) refl refl
            (omega arith),
      ))

-- The immediate of type B of a 32-bit instruction is an even offset: its bits 11, 10 to 5 and 4
-- to 1 are bits 7, 30 to 25 and 11 to 8 of the instruction, and bit 31 is its sign, which counts
-- for - 2 ^ 12.
pub extend_imm_type_b_lem :
    (encode : ℕ)
    → encode < 2 ^ 32
    → extend_imm_type_b encode
      ≡ signed_word 12 (encode / 2 ^ 31) (
          encode / 2 ^ 7 % 2 * 2 ^ 11
          + encode / 2 ^ 25 % 2 ^ 6 * 2 ^ 5
          + encode / 2 ^ 8 % 2 ^ 4 * 2)
unfolding extend_imm_type_b
extend_imm_type_b_lem encode h =
    let e1 = placed 1 (b_imm12 encode) (b_imm11 encode) (omega arith) (omega arith) in
    let v1 = b_imm12 encode * 2 ^ 1 + b_imm11 encode in
    let e2 = placed 6 v1 (b_imm105 encode) (omega arith) (omega arith) in
    let v2 = v1 * 2 ^ 6 + b_imm105 encode in
    let e3 = placed 4 v2 (b_imm41 encode) (omega arith) (omega arith) in
    let v3 = v2 * 2 ^ 4 + b_imm41 encode in
    let e4 : shl v3 1 ≡ v3 * 2 = omega arith in
    rw (e1, e2, e3, e4)
      (omega (arith, h, extend_sign_bit_lem 12 0xfffff (v3 * 2) refl refl (omega arith)))

-- The immediate of type U: bits 31 to 12 of the instruction in their places.
pub extend_imm_type_u_lem :
    (encode : ℕ) → encode < 2 ^ 32 → extend_imm_type_u encode + encode % 2 ^ 12 ≡ encode
unfolding extend_imm_type_u
extend_imm_type_u_lem encode h = omega arith

-- The immediate of type J of a 32-bit instruction is an even offset: its bits 19 to 12, 11 and
-- 10 to 1 are bits 19 to 12, 20 and 30 to 21 of the instruction, and bit 31 is its sign, which
-- counts for - 2 ^ 20.
pub extend_imm_type_j_lem :
    (encode : ℕ)
    → encode < 2 ^ 32
    → extend_imm_type_j encode
      ≡ signed_word 20 (encode / 2 ^ 31) (
          encode / 2 ^ 12 % 2 ^ 8 * 2 ^ 12
          + encode / 2 ^ 20 % 2 * 2 ^ 11
          + encode / 2 ^ 21 % 2 ^ 10 * 2)
unfolding extend_imm_type_j
extend_imm_type_j_lem encode h =
    let e1 = placed 8 (j_imm20 encode) (j_imm1912 encode) (omega arith) (omega arith) in
    let v1 = j_imm20 encode * 2 ^ 8 + j_imm1912 encode in
    let e2 = placed 1 v1 (j_imm11 encode) (omega arith) (omega arith) in
    let v2 = v1 * 2 ^ 1 + j_imm11 encode in
    let e3 = placed 10 v2 (j_imm101 encode) (omega arith) (omega arith) in
    let v3 = v2 * 2 ^ 10 + j_imm101 encode in
    let e4 : shl v3 1 ≡ v3 * 2 = omega arith in
    rw (e1, e2, e3, e4)
      (omega (arith, h, extend_sign_bit_lem 20 0xfff (v3 * 2) refl refl (omega arith)))
