-- ===== src/Firmware/Digits.antt =====
-- u32_to_hex, u32_to_dec, u64_to_hex and u64_to_dec (sbi/printf.c). Each gives the characters that
-- it puts into its buffer, in order.
pub mod Value
pub mod Hex
use revive.Common.{
  ℕ, zero, suc, ◌+◌, ◌-◌, ◌*◌, ◌/◌, ◌%◌, ◌^◌, List, [], ◌∷◌, leb, if◌then◌else◌, u8,
}
use revive.Firmware.Divide.{div_u32, div_u64}

unfoldable pub hex_char : ℕ → ℕ
hex_char digit = if leb 10 digit then digit - 10 + b'a' else digit + b'0'

-- The body of the loops at index `i`, for words of `width` bits.
unfoldable pub hex_digit : ℕ → ℕ → ℕ → ℕ
hex_digit width num i = num * 2 ^ (i * 4) % 2 ^ width / 2 ^ (width - 4)

-- The loops, with the rounds that are left.
unfoldable pub hex_loop : ℕ → ℕ → ℕ → ℕ → List ℕ
unfolding hex_char hex_digit
hex_loop width num zero i = []
hex_loop width num (suc rounds) i =
    hex_char (hex_digit width num i) ∷ hex_loop width num rounds (i + 1)

unfoldable pub u32_to_hex : ℕ → List ℕ
u32_to_hex num = hex_loop 32 num 8 0

unfoldable pub u64_to_hex : ℕ → List ℕ
u64_to_hex num = hex_loop 64 num 16 0

-- The loops over the powers of ten, which divide by `div`.
unfoldable pub dec_loop : (ℕ → ℕ → ℕ × ℕ) → List ℕ → ℕ → List ℕ
dec_loop div [] num = []
dec_loop div (divider ∷ dividers) num =
    let (q, r) = div num divider in u8 (b'0' + q) ∷ dec_loop div dividers r

abbrev pub dividers_u32 : List ℕ
dividers_u32 =
    1000000000 ∷ 100000000 ∷ 10000000 ∷ 1000000 ∷ 100000 ∷ 10000 ∷ 1000 ∷ 100 ∷ 10 ∷ 1 ∷ []

unfoldable pub u32_to_dec : (ℕ → ℕ) → ℕ → List ℕ
u32_to_dec beyond num = dec_loop (div_u32 beyond) dividers_u32 num

abbrev pub dividers_u64 : List ℕ
dividers_u64 =
    10000000000000000000 ∷ 1000000000000000000 ∷ 100000000000000000 ∷ 10000000000000000
    ∷ 1000000000000000 ∷ 100000000000000 ∷ 10000000000000 ∷ 1000000000000 ∷ 100000000000
    ∷ 10000000000 ∷ dividers_u32

unfoldable pub u64_to_dec : (ℕ → ℕ) → ℕ → List ℕ
u64_to_dec beyond num = dec_loop (div_u64 beyond) dividers_u64 num
