-- ===== src/Firmware/Divide/Long.antt =====
-- What the division computes.
use native.Mathlib.Nat.{
  pow-suc, one-le-pow, mod-eq_of_lt, div-eq_of_lt-le, div-lt_iff_lt-mul, pow-le-pow_right,
  mod-eq-sub-div-mul,
}
use native.Mathlib.Numerals.{add-one}
use revive.Common.{
  ℕ, zero, suc, ◌+◌, ◌-◌, ◌*◌, ◌/◌, ◌%◌, ◌^◌, ◌≤◌, ◌<◌, bit_or, ◌≡◌, refl, ap, ◌∙◌, inl, inr, true,
  false, arith, ltb, leb, ◌!=◌, Bool-cases,
}
use revive.Common.Bits.{bit_or_fields}
use revive.Firmware.Divide.{clz_loop, clz32, clz64, shift_one, div_step, div_loop, div_u32, div_u64}

-- The word `b` is `n` doublings below the highest bit: one more wraps.
abbrev Normal : ℕ → ℕ → ℕ → Type 0
Normal width b n = (b * 2 ^ n < 2 ^ width) × (2 ^ width ≤ b * 2 ^ suc n)

doubled : (b n : ℕ) → b * 2 ^ suc n ≡ b * 2 ^ n * 2
doubled b n = omega (arith, ap (λ (t : ℕ). b * t) (pow-suc 2 n))

-- The test of the loop reads the highest bit of a word of `w + 1` bits.
swap_two : (a t : ℕ) → a * 2 * t ≡ a * t * 2
swap_two a t = grind arith

high_bit : (w val : ℕ) → val / 2 ^ (suc w - 1) != 0 ≡ true → 2 ^ w ≤ val
high_bit w val e =
    let below : val < 1 * 2 ^ w → ⊥ = λ h.
      let zero_top : val / 2 ^ w < 1 = (div-lt_iff_lt-mul (one-le-pow w 2 (omega arith))).1 h in
      let same : suc w - 1 ≡ w = omega arith in ground (arith, (rw same at e), zero_top) in
    omega (arith, below)

low_bit : (w val : ℕ) → val / 2 ^ (suc w - 1) != 0 ≡ false → val < 2 ^ w
low_bit w val e =
    let same : suc w - 1 ≡ w = omega arith in
    let zero_top : val / 2 ^ w < 1 = ground (arith, (rw same at e)) in
    omega (arith, (div-lt_iff_lt-mul {k = 2 ^ w} (one-le-pow w 2 (omega arith))).0 zero_top)

-- `w` is the width less 1. The value keeps below its highest bit while the loop goes on.
clz_loop-Normal :
    (w rounds b val n : ℕ)
    → val ≡ b * 2 ^ n
    → val < 2 ^ suc w
    → 2 ^ suc w ≤ val * 2 ^ rounds
    → Normal (suc w) b (clz_loop (suc w) rounds val n)
unfolding clz_loop
clz_loop-Normal w zero b val n e h f = absurd (omega (arith, h, f))
clz_loop-Normal w (suc rounds) b val n e h f = elim (Bool-cases (val / 2 ^ (suc w - 1) != 0)) [
  | inl top ↦
      rw top (omega (arith, h, e), omega (arith, high_bit w val top, e, doubled b n, pow-suc 2 w))
  | inr low ↦
      let fits : val * 2 < 2 ^ suc w = omega (arith, low_bit w val low, pow-suc 2 w) in
      rw (low, mod-eq_of_lt fits, add-one n)
        (clz_loop-Normal w rounds b (val * 2) (suc n) (omega (arith, e, doubled b n)) fits
          (omega (arith, f, doubled val rounds, swap_two val (2 ^ rounds))))
]

-- With rounds for all bits of the width, the loop ends at the highest bit of a word above 0.
rounds_enough : (b t : ℕ) → 0 < b → t ≤ b * t
rounds_enough b t p = grind arith

clz32-Normal : (b : ℕ) → 0 < b → b < 2 ^ 32 → Normal 32 b (clz32 b)
unfolding clz32
clz32-Normal b p h = clz_loop-Normal 31 32 b b 0 (omega arith) h (rounds_enough b (2 ^ 32) p)

clz64-Normal : (b : ℕ) → 0 < b → b < 2 ^ 64 → Normal 64 b (clz64 b)
unfolding clz64
clz64-Normal b p h = clz_loop-Normal 63 64 b b 0 (omega arith) h (rounds_enough b (2 ^ 64) p)

-- The shift gives bit `j` wherever the division may set it.
abbrev Shifts : (ℕ → ℕ) → ℕ → ℕ → Type 0
Shifts beyond a b = (j : ℕ) → b * 2 ^ j ≤ a → shift_one beyond j ≡ 2 ^ j

-- What the loop keeps with `n` rounds left: the quotient is in the bits from `n` on, and the
-- remainder is what is left to divide.
record IsPartial (width a b n q r : ℕ) : Type 0 where
  shifted : (high : ℕ) × (q ≡ high * 2 ^ n)
  exact : a ≡ q * b + r
  below : r < b * 2 ^ n
  fits : b * 2 ^ n < 2 ^ width * 2

bit_set : (i high q : ℕ) → q ≡ high * 2 ^ suc i → bit_or q (2 ^ i) ≡ (high * 2 + 1) * 2 ^ i
bit_set i high q e =
    rw (e, bit_or_fields (suc i) high (2 ^ i) (omega (arith, pow-suc 2 i, one-le-pow i 2)))
      (omega (arith, doubled high i, swap_two high (2 ^ i)))

regroup : (high t b : ℕ) → (high * 2 + 1) * t * b ≡ high * t * 2 * b + b * t
regroup high t b = grind arith

div_step-IsPartial :
    (width : ℕ) (beyond : ℕ → ℕ) (a b i q r : ℕ)
    → Shifts beyond a b
    → IsPartial width a b (suc i) q r
    → (q' : ℕ) × (r' : ℕ) × (div_step width beyond b i (q, r) ≡ (q', r'))
      × IsPartial width a b i q' r'
unfolding div_step
div_step-IsPartial width beyond a b i q r sh v =
    let fits : b * 2 ^ i < 2 ^ width = omega (arith, v.fits, doubled b i) in
    let high = v.shifted.0 in
    let e = v.shifted.1 in
    elim (Bool-cases (leb (b * 2 ^ i) r)) [
      | inl takes ↦
          let le : b * 2 ^ i ≤ r = ground (arith, takes) in
          let bit = bit_set i high q e in
          (
            (high * 2 + 1) * 2 ^ i,
            r - b * 2 ^ i,
            rw (mod-eq_of_lt fits, takes, sh i (omega (arith, le, v.exact)), bit),
            record {
              shifted = (high * 2 + 1, refl);
              exact = omega (
                arith,
                v.exact,
                le,
                ap (λ (t : ℕ). t * b) (e ∙ doubled high i),
                regroup high (2 ^ i) b,
              );
              below = omega (arith, v.below, doubled b i, le);
              fits = omega (arith, fits);
            },
          )
      | inr skips ↦ (
        q,
        r,
        rw (mod-eq_of_lt fits, skips),
        record {
          shifted = (high * 2, omega (arith, e, doubled high i, swap_two high (2 ^ i)));
          exact = v.exact;
          below = ground (arith, skips);
          fits = omega (arith, fits);
        },
      )
    ]

div_loop-IsPartial :
    (width : ℕ) (beyond : ℕ → ℕ) (a b n q r : ℕ)
    → 0 < b
    → Shifts beyond a b
    → IsPartial width a b n q r
    → div_loop width beyond b n (q, r) ≡ (a / b, a % b)
unfolding div_loop
div_loop-IsPartial width beyond a b zero q r p sh v =
    let quotient : a / b ≡ q =
      div-eq_of_lt-le b (omega (arith, v.exact)) (omega (arith, v.exact, v.below)) in
    let remainder : a % b ≡ r =
      omega (arith, mod-eq-sub-div-mul a b, ap (λ (t : ℕ). t * b) quotient, v.exact) in
    rw (quotient, remainder)
div_loop-IsPartial width beyond a b (suc i) q r p sh v =
    let (q', r', e, w) = div_step-IsPartial width beyond a b i q r sh v in
    rw e (div_loop-IsPartial width beyond a b i q' r' p sh w)

start-IsPartial :
    (width a b n : ℕ) → a < 2 ^ width → Normal width b n → IsPartial width a b (suc n) 0 a
start-IsPartial width a b n h v = record {
  shifted = (0, omega arith);
  exact = omega arith;
  below = omega (arith, h, v);
  fits = omega (arith, v, doubled b n);
}

-- A quotient of 32 bits sets only bits that the shift of a 32-bit one reaches.
quotient-Shifts : (beyond : ℕ → ℕ) (a b : ℕ) → a < b * 2 ^ 32 → Shifts beyond a b
unfolding shift_one
quotient-Shifts beyond a b h j le = elim (Bool-cases (ltb j 32)) [
  | inl low ↦ rw low
  | inr far ↦
      let beyond_32 : 2 ^ 32 ≤ 2 ^ j =
        pow-le-pow_right (omega arith) {i = 32} {j = j} (ground (arith, far)) in
      absurd (grind (arith, h, le, mul_mono b (2 ^ 32) (2 ^ j) beyond_32))
]
  where
    mul_mono : (b t u : ℕ) → t ≤ u → b * t ≤ b * u
    mul_mono b t u e = grind arith

-- Division of a word of 32 bits by another above 0, by shifts and subtractions, gives the
-- quotient and the remainder.
pub div_u32_lem :
    (beyond : ℕ → ℕ) (a b : ℕ)
    → a < 2 ^ 32
    → b < 2 ^ 32
    → 0 < b
    → div_u32 beyond a b ≡ (a / b, a % b)
unfolding div_u32
div_u32_lem beyond a b ha hb p =
    let fits : a < b * 2 ^ 32 = omega (arith, rounds_enough b (2 ^ 32) p) in
    div_loop-IsPartial 32 beyond a b (suc (clz32 b)) 0 a p (quotient-Shifts beyond a b fits)
      (start-IsPartial 32 a b (clz32 b) ha (clz32-Normal b p hb))

-- Division of a double word by another above 0, by shifts and subtractions, gives the quotient
-- and the remainder, if the quotient fits 32 bits, whatever a shift of 32 bits by 32 or more
-- gives.
pub div_u64_lem :
    (beyond : ℕ → ℕ) (a b : ℕ)
    → a < 2 ^ 64
    → b < 2 ^ 64
    → 0 < b
    → a / b < 2 ^ 32
    → div_u64 beyond a b ≡ (a / b, a % b)
unfolding div_u64
div_u64_lem beyond a b ha hb p small =
    let fits : a < b * 2 ^ 32 = omega (arith, (div-lt_iff_lt-mul p).0 small) in
    div_loop-IsPartial 64 beyond a b (suc (clz64 b)) 0 a p (quotient-Shifts beyond a b fits)
      (start-IsPartial 64 a b (clz64 b) ha (clz64-Normal b p hb))
