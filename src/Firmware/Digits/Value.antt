-- ===== src/Firmware/Digits/Value.antt =====
-- The digits of a word in decimal.
use native.Mathlib.Nat.{pow-suc, one-le-pow, mod-lt, mod-le, div-add-mod', div-lt_iff_lt-mul}
use revive.Common.{
  ℕ, suc, ◌+◌, ◌-◌, ◌*◌, ◌/◌, ◌%◌, ◌^◌, ◌≤◌, ◌<◌, ◌≡◌, ◌⊎◌, refl, ap, ◌∙◌, List, [], ◌∷◌, arith,
  leb, if◌then◌else◌, length,
}
use revive.Firmware.Divide.{div_u32, div_u64}
use revive.Firmware.Divide.Long.{div_u32_lem, div_u64_lem}
use revive.Firmware.Digits.{dec_loop, dividers_u32, dividers_u64, u32_to_dec, u64_to_dec}

-- A digit's value: those from ten on are the small letters.
abbrev pub digit_value : ℕ → ℕ
digit_value c = if leb b'a' c then c - 87 else c - b'0'

-- The number that digits spell behind `n`.
abbrev pub value : ℕ → ℕ → List ℕ → ℕ
value base n [] = n
value base n (c ∷ cs) = value base (n * base + digit_value c) cs

-- A figure or a small letter whose value is below the base.
abbrev pub IsDigit : ℕ → ℕ → Type 0
IsDigit base c = (((b'0' ≤ c) × (c ≤ b'9')) ⊎ ((b'a' ≤ c) × (c ≤ b'z'))) × (digit_value c < base)

abbrev pub AllDigits : ℕ → List ℕ → Type 0
AllDigits base [] = Unit {0}
AllDigits base (c ∷ cs) = IsDigit base c × AllDigits base cs

-- That many digits below the base, which spell the number.
abbrev pub Spells : ℕ → ℕ → ℕ → List ℕ → Type 0
Spells base count num text = (value base 0 text ≡ num) × AllDigits base text × (length text ≡ count)

-- The dividers fall from a power of ten to 1.
abbrev Powers : List ℕ → Type 0
Powers [] = Unit {0}
Powers (d ∷ ds) = (d ≡ 10 ^ length ds) × Powers ds

-- A division that is right where the quotient is a decimal digit.
abbrev Divides : (ℕ → ℕ → ℕ × ℕ) → ℕ → Type 0
Divides div limit =
    (a b : ℕ) → a < limit → 0 < b → b < limit → a / b < 10 → div a b ≡ (a / b, a % b)

shift_digit :
    (acc p num t : ℕ)
    → t ≡ p
    → (k : ℕ) → p ≡ 10 ^ k
    → (acc * 10 + num / t) * p + num % t ≡ acc * 10 ^ suc k + num
shift_digit acc p num t e k f = omega (
  arith,
  div-add-mod' num t,
  ap (λ (x : ℕ). num / t * x) e,
  ap (λ (x : ℕ). acc * 10 * x) f,
  ap (λ (x : ℕ). acc * x) (pow-suc 10 k),
  regroup acc (num / t) p,
  regroup_ten acc (10 ^ k),
)
  where
    regroup : (a q p : ℕ) → (a * 10 + q) * p ≡ a * 10 * p + q * p
    regroup a q p = grind arith

    regroup_ten : (a p : ℕ) → a * (p * 10) ≡ a * 10 * p
    regroup_ten a p = grind arith

-- The digits spell the number.
dec_loop-value :
    (div : ℕ → ℕ → ℕ × ℕ) (limit : ℕ) (ds : List ℕ) (num acc : ℕ)
    → Divides div limit
    → Powers ds
    → 10 ^ length ds < limit * 10
    → num < 10 ^ length ds
    → num < limit
    → (value 10 acc (dec_loop div ds num) ≡ acc * 10 ^ length ds + num)
      × AllDigits 10 (dec_loop div ds num)
      × (length (dec_loop div ds num) ≡ length ds)
unfolding dec_loop
dec_loop-value div limit [] num acc d p f h l = (omega (arith, h), tt, refl)
dec_loop-value div limit (t ∷ ds) num acc d (e, p) f h l =
    let small : num < 10 ^ length ds * 10 = omega (arith, h, pow-suc 10 (length ds)) in
    let pos : 0 < 10 ^ length ds = omega (arith, one-le-pow (length ds) 10 (omega arith)) in
    let one_digit : num / t < 10 = rw e ((div-lt_iff_lt-mul pos).1 (omega (arith, small))) in
    let told : div num t ≡ (num / t, num % t) =
      d num t l (rw e pos) (rw e (omega (arith, f, pow-suc 10 (length ds)))) one_digit in
    let left : num % t < 10 ^ length ds = rw e (mod-lt num pos) in
    let rest =
      dec_loop-value div limit ds (num % t) (acc * 10 + num / t) d p
        (omega (arith, f, pow-suc 10 (length ds))) left (omega (arith, l, mod-le num t)) in
    let shown : digit_value ((b'0' + num / t) % 2 ^ 8) ≡ num / t = ground (arith, one_digit) in
    rw told (
      rw shown (rest.0 ∙ shift_digit acc (10 ^ length ds) num t e (length ds) refl),
      ((ground (arith, one_digit), rw shown one_digit), rest.1),
      omega (arith, rest.2),
    )

dec_loop-Spells :
    (div : ℕ → ℕ → ℕ × ℕ) (limit : ℕ) (ds : List ℕ) (num : ℕ)
    → Divides div limit
    → Powers ds
    → 10 ^ length ds < limit * 10
    → num < 10 ^ length ds
    → num < limit
    → Spells 10 (length ds) num (dec_loop div ds num)
dec_loop-Spells div limit ds num d p f h l =
    let (spelled, all_digits, count) = dec_loop-value div limit ds num 0 d p f h l in
    (spelled ∙ omega arith, all_digits, count)

below_u32 : (beyond : ℕ → ℕ) → Divides (div_u32 beyond) (2 ^ 32)
below_u32 beyond a b ha p hb q = div_u32_lem beyond a b ha hb p

below_u64 : (beyond : ℕ → ℕ) → Divides (div_u64 beyond) (2 ^ 64)
below_u64 beyond a b ha p hb q = div_u64_lem beyond a b ha hb p (omega (arith, q))

-- A word's ten characters are decimal digits that spell it.
pub u32_to_dec-value :
    (beyond : ℕ → ℕ) (num : ℕ) → num < 2 ^ 32 → Spells 10 10 num (u32_to_dec beyond num)
unfolding u32_to_dec
u32_to_dec-value beyond num h =
    dec_loop-Spells (div_u32 beyond) (2 ^ 32) dividers_u32 num (below_u32 beyond) (omega arith)
      (omega arith) (omega (arith, h)) h

-- The twenty of a double word are too.
pub u64_to_dec-value :
    (beyond : ℕ → ℕ) (num : ℕ) → num < 2 ^ 64 → Spells 10 20 num (u64_to_dec beyond num)
unfolding u64_to_dec
u64_to_dec-value beyond num h =
    dec_loop-Spells (div_u64 beyond) (2 ^ 64) dividers_u64 num (below_u64 beyond) (omega arith)
      (omega arith) (omega (arith, h)) h
