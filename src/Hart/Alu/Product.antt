-- ===== src/Hart/Alu/Product.antt =====
-- The two halves of a product.
use revive.Common.{ℕ, ◌+◌, ◌-◌, ◌*◌, ◌^◌, ◌≤◌, ◌<◌, ◌≡◌, false, xor, arith}
use native.Mathlib.Nat.{mul-le-mul}
use revive.Hart.Alu.{op_mul, op_muh}

product-lt : (a b : ℕ) → a < 2 ^ 32 → b < 2 ^ 32 → a * b < 2 ^ 64
product-lt a b p q =
    let le : a * b ≤ (2 ^ 32 - 1) * (2 ^ 32 - 1) =
      mul-le-mul {n₂ = 2 ^ 32 - 1} {m₂ = 2 ^ 32 - 1} (omega arith) (omega arith) in
    omega (arith, le)

-- For 32-bit words, the high word of the unsigned product and the low word of MUL are the two
-- halves of the product.
pub op_muh-op_mul :
    (a b : ℕ) → a < 2 ^ 32 → b < 2 ^ 32 → op_muh a false b false * 2 ^ 32 + op_mul a b ≡ a * b
unfolding op_muh op_mul mathlib.Core.Bool.xor
op_muh-op_mul a b p q = omega (arith, product-lt a b p q)
