-- ===== src/Firmware/Divide.antt =====
-- clz32, clz64, div_u32 and div_u64 (sbi/printf.c): division by shifts and subtractions, for a
-- processor that may have no divider. Long has what they compute.
pub mod Long
use revive.Common.{
  ℕ, zero, suc, ◌+◌, ◌-◌, ◌*◌, ◌/◌, ◌%◌, ◌^◌, bit_or, ◌!=◌, ltb, leb, if◌then◌else◌,
}

-- The loop of clz32 and clz64, for words of `width` bits, with the rounds that are left.
unfoldable pub clz_loop : ℕ → ℕ → ℕ → ℕ → ℕ
clz_loop width zero val lead_zeros = lead_zeros
clz_loop width (suc rounds) val lead_zeros =
    let rest = clz_loop width rounds (val * 2 % 2 ^ width) (lead_zeros + 1) in
    if val / 2 ^ (width - 1) != 0 then lead_zeros else rest

unfoldable pub clz32 : ℕ → ℕ
unfolding clz_loop
clz32 val = clz_loop 32 32 val 0

unfoldable pub clz64 : ℕ → ℕ
unfolding clz_loop
clz64 val = clz_loop 64 64 val 0

-- `0x1u << i`. What a shift of 32 bits by 32 or more gives is `beyond`; C leaves it undefined.
unfoldable pub shift_one : (ℕ → ℕ) → ℕ → ℕ
shift_one beyond i = if ltb i 32 then 2 ^ i else beyond i

-- The body of the loop at bit `i`, on the quotient and the remainder.
unfoldable pub div_step : ℕ → (ℕ → ℕ) → ℕ → ℕ → ℕ × ℕ → ℕ × ℕ
unfolding shift_one
div_step width beyond b i (q, r) =
    let t = b * 2 ^ i % 2 ^ width in
    if leb t r then (bit_or q (shift_one beyond i), r - t) else (q, r)

-- The loop, with the rounds that are left: bit `i` is tested by round `i + 1` from the end.
unfoldable pub div_loop : ℕ → (ℕ → ℕ) → ℕ → ℕ → ℕ × ℕ → ℕ × ℕ
unfolding div_step
div_loop width beyond b zero s = s
div_loop width beyond b (suc i) s = div_loop width beyond b i (div_step width beyond b i s)

unfoldable pub div_u32 : (ℕ → ℕ) → ℕ → ℕ → ℕ × ℕ
unfolding div_loop clz32
div_u32 beyond a b = div_loop 32 beyond b (suc (clz32 b)) (0, a)

unfoldable pub div_u64 : (ℕ → ℕ) → ℕ → ℕ → ℕ × ℕ
unfolding div_loop clz64
div_u64 beyond a b = div_loop 64 beyond b (suc (clz64 b)) (0, a)
