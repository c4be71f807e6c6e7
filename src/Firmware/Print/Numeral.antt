-- ===== src/Firmware/Print/Numeral.antt =====
-- What the printed text of a number reads as.
use revive.Common.{
  ℕ, suc, ◌-◌, ◌*◌, ◌/◌, ◌%◌, ◌^◌, ◌≤◌, ◌<◌, ◌≡◌, ◌≢◌, ◌⊎◌, inl, inr, refl, ap, ◌∙◌, List, [], ◌∷◌,
  true, false, not, arith, ltb, ◌==◌, ◌!=◌, if◌then◌else◌, Bool-cases, test_bits,
}
use mathlib.Core.Path.{subst}
use native.Mathlib.Nat.{pow-suc, mod-eq_of_lt, div-eq_of_lt, div-eq_of_lt-le}
use revive.Common.Bits.{bit_and_comm}
use revive.Common.Bits.Masks.{test_bits-bit}
use revive.Common.Int.{ℤ, pos, negsuc}
use revive.Firmware.Digits.Value.{value, AllDigits, Spells, u32_to_dec-value, u64_to_dec-value}
use revive.Firmware.Digits.Hex.{u32_to_hex-value, u64_to_hex-value}
use revive.Firmware.Print.{
  significant, print_digits, print_number, print_u32, print_u64, width_u32, width_u64, Width,
}

-- One digit, or several that do not begin with a zero.
abbrev pub HasNoLeadingZero : List ℕ → Type 0
HasNoLeadingZero [] = ⊥
HasNoLeadingZero (c ∷ []) = Unit {0}
HasNoLeadingZero (c ∷ d ∷ cs) = c ≢ b'0'

-- The text is the numeral of the number.
abbrev pub IsNumeral : ℕ → ℕ → List ℕ → Type 0
IsNumeral base num text = (value base 0 text ≡ num) × AllDigits base text × HasNoLeadingZero text

significant-started : (cs : List ℕ) → significant true cs ≡ cs
unfolding significant
significant-started [] = refl
significant-started (c ∷ cs) = ap (λ (l : List ℕ). c ∷ l) (significant-started cs)

first_kept : (c : ℕ) (cs : List ℕ) → c ≢ b'0' → HasNoLeadingZero (c ∷ cs)
first_kept c [] h = tt
first_kept c (d ∷ cs) h = h

-- Without its leading zeros a text spells the same, and is empty or begins with another digit.
significant-value :
    (base : ℕ) (cs : List ℕ)
    → AllDigits base cs
    → (value base 0 (significant false cs) ≡ value base 0 cs)
      × AllDigits base (significant false cs)
      × ((significant false cs ≡ []) ⊎ HasNoLeadingZero (significant false cs))
unfolding significant
significant-value base [] d = (refl, tt, inl refl)
significant-value base (c ∷ cs) (d, ds) = elim (Bool-cases (c != b'0')) [
  | inl starts ↦
      rw (starts, significant-started cs)
        (refl, (d, ds), inr (first_kept c cs (λ e. ground (arith, starts, e))))
  | inr zero_digit ↦
      let is_zero : c ≡ b'0' = ground (arith, zero_digit) in
      let (spelled, all_digits, form) = significant-value base cs ds in
      rw zero_digit
        (spelled ∙ ap (λ (n : ℕ). value base n cs) (rw is_zero (omega arith)), all_digits, form)
]

empty_value : (base : ℕ) (cs : List ℕ) → cs ≡ [] → value base 0 cs ≡ 0
empty_value base cs e = ap (value base 0) e

nonzero : (num : ℕ) → num == 0 ≡ false → num ≢ 0
nonzero num h e = ground (arith, h, e)

-- What a buffer that spells the number is printed as.
print_digits-IsNumeral :
    (base count num : ℕ) (buf : List ℕ)
    → 0 < base
    → Spells base count num buf
    → IsNumeral base num (print_digits num buf).0
unfolding print_digits
print_digits-IsNumeral base count num buf p (spelled, all_digits, _) =
    elim (Bool-cases (num == 0)) [
      | inl none_left ↦ rw none_left (ground (arith, none_left), ((omega arith, p), tt), tt)
      | inr some_left ↦
          let (kept, digits, form) = significant-value base buf all_digits in
          rw some_left (
            kept ∙ spelled,
            digits,
            elim form [
              | inl empty ↦ absurd (
                  omega (
                    arith,
                    empty_value base (significant false buf) empty,
                    kept,
                    spelled,
                    nonzero num some_left,
                  ))
              | inr f ↦ f
            ],
          )
    ]

-- A conversion of the width spells the words that fit it.
record IsWidth (w : Width) : Type 0 where
  hex : (num : ℕ) → num < 2 ^ w.bits → (count : ℕ) × Spells 16 count num (w.to_hex num)
  dec : (num : ℕ) → num < 2 ^ w.bits → (count : ℕ) × Spells 10 count num (w.to_dec num)
  half : 2 ^ w.bits ≡ 2 ^ (w.bits - 1) * 2
  top_bit :
      (num : ℕ)
      → num < 2 ^ w.bits
      → test_bits num (2 ^ (w.bits - 1)) ≡ not (ltb num (2 ^ (w.bits - 1)))

-- The text of a signed number: a minus sign before the numeral of what is below zero.
abbrev pub IsSigned : ℤ → List ℕ → Type 0
IsSigned (pos n) text = IsNumeral 10 n text
IsSigned (negsuc n) text = (t : List ℕ) × (text ≡ b'-' ∷ t) × IsNumeral 10 (suc n) t

-- `(int)w` and `(long long)w`
abbrev pub signed : ℕ → ℕ → ℤ
signed bits w = if ltb w (2 ^ (bits - 1)) then pos w else negsuc (2 ^ bits - 1 - w)

print_number-unsigned :
    (w : Width) (num : ℕ)
    → IsWidth w
    → num < 2 ^ w.bits
    → IsNumeral 10 num (print_number w b'u' num).0
unfolding print_number
print_number-unsigned w num v h =
    let (count, s) = v.dec num h in
    print_digits-IsNumeral 10 count num (w.to_dec num) (omega arith) s

print_number-hex :
    (w : Width) (num : ℕ)
    → IsWidth w
    → num < 2 ^ w.bits
    → IsNumeral 16 num (print_number w b'h' num).0
      × ((print_number w b'x' num).0 ≡ b'0' ∷ b'x' ∷ (print_number w b'h' num).0)
unfolding print_number
print_number-hex w num v h =
    let (count, s) = v.hex num h in
    (print_digits-IsNumeral 16 count num (w.to_hex num) (omega arith) s, refl)

print_number-signed :
    (w : Width) (num : ℕ)
    → IsWidth w
    → num < 2 ^ w.bits
    → IsSigned (signed w.bits num) (print_number w b'd' num).0
unfolding print_number
print_number-signed w num v h = elim (Bool-cases (ltb num (2 ^ (w.bits - 1)))) [
  | inl plus ↦
      let (count, s) = v.dec num h in
      rw (v.top_bit num h, plus)
        (print_digits-IsNumeral 10 count num (w.to_dec num) (omega arith) s)
  | inr minus ↦
      let negated = (2 ^ w.bits - num) % 2 ^ w.bits in
      let high : 2 ^ (w.bits - 1) ≤ num = ground (arith, minus) in
      let same : negated ≡ suc (2 ^ w.bits - 1 - num) =
        mod-eq_of_lt (omega (arith, h, high, v.half)) ∙ omega (arith, h) in
      let (count, s) = v.dec negated (omega (arith, same, h, high, v.half)) in
      rw (v.top_bit num h, minus)
        (
          (print_digits negated (w.to_dec negated)).0,
          refl,
          subst (λ n. IsNumeral 10 n (print_digits negated (w.to_dec negated)).0) same
              (print_digits-IsNumeral 10 count negated (w.to_dec negated) (omega arith) s),
        )
]

-- Above the other bits the highest one is an order.
top_bit-ltb : (k num : ℕ) → num < 2 ^ suc k → test_bits num (2 ^ k) ≡ not (ltb num (2 ^ k))
top_bit-ltb k num h =
    let swapped : test_bits num (2 ^ k) ≡ (num / 2 ^ k % 2 != 0) =
      rw (bit_and_comm num (2 ^ k)) (test_bits-bit k num) in
    swapped ∙ elim (Bool-cases (ltb num (2 ^ k))) [
      | inl low ↦ rw (low, div-eq_of_lt {n = num} {m = 2 ^ k} (ground (arith, low))) refl
      | inr high ↦
          let one_times : num / 2 ^ k ≡ 1 =
            div-eq_of_lt-le (2 ^ k) (ground (arith, high)) (omega (arith, h, pow-suc 2 k)) in
          rw (high, one_times) refl
    ]

module _ (beyond : ℕ → ℕ) where
  width_u32-IsWidth : IsWidth (width_u32 beyond)
  width_u32-IsWidth = record {
    hex = λ num h. (8, u32_to_hex-value num h);
    dec = λ num h. (10, u32_to_dec-value beyond num h);
    half = refl;
    top_bit = top_bit-ltb 31;
  }

  width_u64-IsWidth : IsWidth (width_u64 beyond)
  width_u64-IsWidth = record {
    hex = λ num h. (16, u64_to_hex-value num h);
    dec = λ num h. (20, u64_to_dec-value beyond num h);
    half = refl;
    top_bit = top_bit-ltb 63;
  }

-- How both functions show a number: by %d its signed numeral, by %u its numeral, by %h its
-- hexadecimal numeral, and by %x that behind 0x.
abbrev pub Shows : ℕ → (ℕ → List ℕ × ℕ) → ℕ → Type 0
Shows bits print num =
    IsSigned (signed bits num) (print b'd').0
    × IsNumeral 10 num (print b'u').0
    × IsNumeral 16 num (print b'h').0
    × ((print b'x').0 ≡ b'0' ∷ b'x' ∷ (print b'h').0)

print_number-Shows :
    (w : Width) (num : ℕ)
    → IsWidth w
    → num < 2 ^ w.bits
    → Shows w.bits (λ fmt. print_number w fmt num) num
print_number-Shows w num v h =
    let (hex, prefixed) = print_number-hex w num v h in
    (print_number-signed w num v h, print_number-unsigned w num v h, hex, prefixed)

-- A word of 32 bits is printed in the same four formats: a minus sign where %d stands for a
-- number below 0, 0x before the numeral of %x, and numerals that have only digits of their base,
-- spell the magnitude or the word, and begin with no zero but that of a single digit.
pub print_u32-Shows :
    (beyond : ℕ → ℕ) (num : ℕ) → num < 2 ^ 32 → Shows 32 (λ fmt. print_u32 beyond fmt num) num
unfolding print_u32
print_u32-Shows beyond num h =
    print_number-Shows (width_u32 beyond) num (width_u32-IsWidth beyond) h

-- A double word reads back from its print: by %d a minus sign, if it stands for a number below
-- 0, and then the decimal numeral of its magnitude; by %u its decimal numeral; by %h its
-- hexadecimal one, and by %x that behind 0x. A numeral has only digits of its base, figures and
-- from ten on small letters, spells the number, and begins with no zero but that of a single
-- digit.
pub print_u64-Shows :
    (beyond : ℕ → ℕ) (num : ℕ) → num < 2 ^ 64 → Shows 64 (λ fmt. print_u64 beyond fmt num) num
unfolding print_u64
print_u64-Shows beyond num h =
    print_number-Shows (width_u64 beyond) num (width_u64-IsWidth beyond) h
