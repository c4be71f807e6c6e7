-- ===== src/Firmware/Print.antt =====
-- print_char, print_string, print_u32, print_u64 and print_ulong (sbi/printf.c). Each gives the
-- characters that it hands to uart_putchar, and what it returns.
pub mod Numeral
use revive.Common.{
  ℕ, zero, suc, ◌+◌, ◌-◌, ◌%◌, ◌^◌, Bool, true, false, List, [], ◌∷◌, ◌++◌, ◌||◌, ◌==◌, ◌!=◌, ltb,
  if◌then◌else◌, test_bits, length,
}
use revive.Firmware.Divide.{shift_one}
use revive.Firmware.Digits.{u32_to_hex, u32_to_dec, u64_to_hex, u64_to_dec}

-- What was printed, and the count that is returned.
abbrev pub Printed : Type 0
Printed = List ℕ × ℕ

unfoldable pub print_char : ℕ → Printed
print_char ch = (ch ∷ [], 1)

-- A string is its characters before the zero.
unfoldable pub print_string : List ℕ → Printed
print_string str = (str, length str)

-- The loop that prints a buffer from its first digit that is not zero.
unfoldable pub significant : Bool → List ℕ → List ℕ
significant started [] = []
significant started (c ∷ buf) =
    let started' = started || c != b'0' in
    let rest = significant started' buf in if started' then c ∷ rest else rest

unfoldable pub print_digits : ℕ → List ℕ → Printed
print_digits num buf =
    let text = significant false buf in if num == 0 then (b'0' ∷ [], 0) else (text, length text)

-- The loop over the bits, from the highest; `mask` is what `0x1 << i` tests.
unfoldable pub print_bits : (ℕ → ℕ) → ℕ → ℕ → List ℕ
print_bits mask zero num = []
print_bits mask (suc i) num =
    (if test_bits num (mask i) then b'1' else b'0') ∷ print_bits mask i num

-- `"__unknown_format_"`
abbrev pub unknown_format : List ℕ
unknown_format =
    b'_' ∷ b'_' ∷ b'u' ∷ b'n' ∷ b'k' ∷ b'n' ∷ b'o' ∷ b'w' ∷ b'n' ∷ b'_' ∷ b'f' ∷ b'o' ∷ b'r' ∷ b'm'
    ∷ b'a' ∷ b't' ∷ b'_' ∷ []

-- What the two printing functions differ in.
pub record Width : Type 0 where
  pub bits : ℕ
  pub mask : ℕ → ℕ
  pub to_hex : ℕ → List ℕ
  pub to_dec : ℕ → List ℕ

-- Text in front of what is printed, which the returned count leaves out.
abbrev pub behind : List ℕ → Printed → Printed
behind text (rest, printed) = (text ++ rest, printed)

unfoldable pub print_number : Width → ℕ → ℕ → Printed
print_number w fmt num =
    let hex = print_digits num (w.to_hex num) in
    let negated = (2 ^ w.bits - num) % 2 ^ w.bits in
    if fmt == b'b'
    then (print_bits w.mask w.bits num, 0)
    else if fmt == b'p' || fmt == b'x'
    then behind (b'0' ∷ b'x' ∷ []) hex
    else if fmt == b'h'
    then hex
    else if fmt == b'd'
    then (if test_bits num (2 ^ (w.bits - 1))
        then behind (b'-' ∷ []) (print_digits negated (w.to_dec negated))
        else print_digits num (w.to_dec num))
    else if fmt == b'u'
    then print_digits num (w.to_dec num)
    else (unknown_format ++ fmt ∷ b'_' ∷ b'_' ∷ [], 20)

-- `beyond` is what a shift of 32 bits by 32 or more gives.
abbrev pub width_u32 : (ℕ → ℕ) → Width
width_u32 beyond = record {
  bits = 32;
  mask = shift_one beyond;
  to_hex = u32_to_hex;
  to_dec = u32_to_dec beyond;
}

-- An int that is converted to 64 bits keeps its sign.
abbrev pub int_to_u64 : ℕ → ℕ
int_to_u64 w = if ltb w (2 ^ 31) then w else w + (2 ^ 64 - 2 ^ 32)

abbrev pub width_u64 : (ℕ → ℕ) → Width
width_u64 beyond = record {
  bits = 64;
  mask = λ i. int_to_u64 (shift_one beyond i % 2 ^ 32);
  to_hex = u64_to_hex;
  to_dec = u64_to_dec beyond;
}

unfoldable pub print_u32 : (ℕ → ℕ) → ℕ → ℕ → Printed
print_u32 beyond = print_number (width_u32 beyond)

unfoldable pub print_u64 : (ℕ → ℕ) → ℕ → ℕ → Printed
print_u64 beyond = print_number (width_u64 beyond)

-- An unsigned long has 32 bits.
unfoldable pub print_ulong : (ℕ → ℕ) → ℕ → ℕ → Printed
print_ulong beyond fmt num = print_u32 beyond fmt (num % 2 ^ 32)
