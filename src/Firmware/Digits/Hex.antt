-- ===== src/Firmware/Digits/Hex.antt =====
-- The digits of a word in hexadecimal.
use native.Mathlib.Nat.{
  pow-suc, one-le-pow, div-eq_of_lt, add-zero, add-suc, mul_assoc, mul-div-mul_right,
  add-mul-div_right, mod-lt, div-add-mod', div-lt_iff_lt-mul,
}
use revive.Common.{
  ℕ, zero, suc, ◌+◌, ◌-◌, ◌*◌, ◌/◌, ◌%◌, ◌^◌, ◌<◌, ◌≡◌, refl, sym, ap, ◌∙◌, arith, length,
}
use revive.Firmware.Digits.{hex_char, hex_digit, hex_loop, u32_to_hex, u64_to_hex}
use revive.Firmware.Digits.Value.{digit_value, value, IsDigit, AllDigits, Spells}

hex_char-IsDigit : (d : ℕ) → d < 16 → IsDigit 16 (hex_char d) × (digit_value (hex_char d) ≡ d)
unfolding hex_char
hex_char-IsDigit d h = ground arith

pow_add : (a b : ℕ) → 2 ^ (a + b) ≡ 2 ^ a * 2 ^ b
pow_add a zero = rw (add-zero a) (omega arith)
pow_add a (suc b) =
    rw (add-suc a b, pow-suc 2 (a + b), pow_add a b, pow-suc 2 b) (mul_assoc (2 ^ a) (2 ^ b) 2)

-- A factor of both comes out of a remainder.
mod_factor : (n m p : ℕ) → 0 < p → n * p % (m * p) ≡ n % m * p
mod_factor n m p h =
    let quotient : n * p / (m * p) ≡ n / m = mul-div-mul_right n m h in
    omega (
      arith,
      div-add-mod' (n * p) (m * p),
      ap (λ (q : ℕ). q * (m * p)) quotient,
      ap (λ (x : ℕ). x * p) (div-add-mod' n m),
      regroup (n / m) m (n % m) p,
    )
  where
    regroup : (q m r p : ℕ) → (q * m + r) * p ≡ q * (m * p) + r * p
    regroup q m r p = grind arith

-- `t` is the weight of the digit, and `p` what the shift multiplies by.
digit_at : (num t p : ℕ) → 0 < p → num * p % (t * 16 * p) / (t * p) ≡ num % (t * 16) / t
digit_at num t p h = rw (mod_factor num (t * 16) p h) (mul-div-mul_right (num % (t * 16)) t h)

digit_joins : (num t : ℕ) → 0 < t → num / (t * 16) * 16 + num % (t * 16) / t ≡ num / t
digit_joins num t h =
    let split : num ≡ num % (t * 16) + num / (t * 16) * 16 * t =
      omega (arith, div-add-mod' num (t * 16), mul_swap (num / (t * 16)) t) in
    let joined : num / t ≡ num % (t * 16) / t + num / (t * 16) * 16 =
      ap (λ (x : ℕ). x / t) split ∙ add-mul-div_right (num % (t * 16)) (num / (t * 16) * 16) h in
    omega (arith, joined)
  where
    mul_swap : (q t : ℕ) → q * (t * 16) ≡ q * 16 * t
    mul_swap q t = grind arith

-- The digit at index `i`, with `rounds` after it.
hex_digit_lem :
    (width num rounds i : ℕ)
    → rounds * 4 + 4 + i * 4 ≡ width
    → hex_digit width num i ≡ num % (2 ^ (rounds * 4) * 16) / 2 ^ (rounds * 4)
unfolding hex_digit
hex_digit_lem width num rounds i e =
    let t = 2 ^ (rounds * 4) in
    let p = 2 ^ (i * 4) in
    let whole : 2 ^ width ≡ t * 16 * p =
      rw (sym e, pow_add (rounds * 4 + 4) (i * 4), pow_add (rounds * 4) 4) refl in
    let below : 2 ^ (width - 4) ≡ t * p =
      let exponent : width - 4 ≡ rounds * 4 + i * 4 = omega (arith, e) in
      rw (exponent, pow_add (rounds * 4) (i * 4)) refl in
    rw (whole, below) (digit_at num t p (one-le-pow (i * 4) 2 (omega arith)))

hex_loop-value :
    (width num rounds i acc : ℕ)
    → rounds * 4 + i * 4 ≡ width
    → acc ≡ num / 2 ^ (rounds * 4)
    → (value 16 acc (hex_loop width num rounds i) ≡ num)
      × AllDigits 16 (hex_loop width num rounds i)
      × (length (hex_loop width num rounds i) ≡ rounds)
unfolding hex_loop
hex_loop-value width num zero i acc e f = (omega (arith, f), tt, refl)
hex_loop-value width num (suc rounds) i acc e f =
    let t = 2 ^ (rounds * 4) in
    let pos : 0 < t = one-le-pow (rounds * 4) 2 (omega arith) in
    let digit = hex_digit_lem width num rounds i (omega (arith, e)) in
    let small : hex_digit width num i < 16 =
      rw digit
        ((div-lt_iff_lt-mul pos).1 (omega (arith, mod-lt num {m = t * 16} (omega (arith, pos))))) in
    let (is_digit, shown) = hex_char-IsDigit (hex_digit width num i) small in
    let weight : 2 ^ (suc rounds * 4) ≡ t * 16 =
      let exponent : suc rounds * 4 ≡ rounds * 4 + 4 = omega arith in
      rw (exponent, pow_add (rounds * 4) 4) refl in
    let joined : acc * 16 + digit_value (hex_char (hex_digit width num i)) ≡ num / t =
      rw (shown, digit, f, weight) (digit_joins num t pos) in
    let (spelled, all_digits, count) =
      hex_loop-value width num rounds (i + 1)
        (acc * 16 + digit_value (hex_char (hex_digit width num i))) (omega (arith, e)) joined in
    (spelled, (is_digit, all_digits), omega (arith, count))

-- A word's eight characters are hexadecimal digits that spell it.
pub u32_to_hex-value : (num : ℕ) → num < 2 ^ 32 → Spells 16 8 num (u32_to_hex num)
unfolding u32_to_hex
u32_to_hex-value num h = hex_loop-value 32 num 8 0 0 refl (sym (div-eq_of_lt h))

-- The sixteen of a double word are too.
pub u64_to_hex-value : (num : ℕ) → num < 2 ^ 64 → Spells 16 16 num (u64_to_hex num)
unfolding u64_to_hex
u64_to_hex-value num h = hex_loop-value 64 num 16 0 0 refl (sym (div-eq_of_lt h))
