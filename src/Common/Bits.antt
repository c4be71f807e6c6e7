-- ===== src/Common/Bits.antt =====
-- Laws of `&`, `|` and `^` at variables, from the recursion on binary digits that they stand for.
pub mod Masks
pub mod Halves
use Prim.Native.Nat.{
  ℕ, zero, suc, ◌+◌, ◌-◌, ◌*◌, ◌/◌, ◌%◌, ◌^◌, ◌≤◌, ◌<◌, min, max, bit_and, bit_or, bit_xor, digits,
  bitwise, differ, bit_and-bitwise, bit_or-bitwise, bit_xor-bitwise,
}
use mathlib.Core.Path.{◌≡◌, refl, ap}
use native.Mathlib.Nat.{
  pow-suc, pow-succ', one-le-pow, div-div-eq-div-mul, div-eq_of_lt, mod-eq_of_lt,
}
use native.Mathlib.Omega.{arith}

-- The digits do not depend on the fuel, once there is enough of it.
module _ (rest : ℕ → ℕ) (op : ℕ → ℕ → ℕ) where
  fuel_irrelevant :
      (fuel k a b : ℕ) → a ≤ fuel → a ≤ k → digits rest op fuel a b ≡ digits rest op k a b
  fuel_irrelevant zero zero a b p q = refl
  fuel_irrelevant (suc n) zero zero b p q = refl
  fuel_irrelevant (suc n) zero (suc a) b p q = absurd (omega arith)
  fuel_irrelevant zero (suc k) zero b p q = refl
  fuel_irrelevant zero (suc k) (suc a) b p q = absurd (omega arith)
  fuel_irrelevant (suc n) (suc k) zero b p q = refl
  fuel_irrelevant (suc n) (suc k) (suc a) b p q =
      rw (fuel_irrelevant n k (suc a / 2) (b / 2) (omega arith) (omega arith))

  lowest_digit :
      (a b : ℕ)
      → bitwise rest op (suc a) b ≡ op (suc a % 2) (b % 2) + 2 * bitwise rest op (suc a / 2) (b / 2)
  lowest_digit a b =
      omega (arith, fuel_irrelevant a (suc a / 2) (suc a / 2) (b / 2) (omega arith) (omega arith))

pub bit_and_step : (a b : ℕ) → bit_and a b ≡ min (a % 2) (b % 2) + 2 * bit_and (a / 2) (b / 2)
bit_and_step zero b = simp bit_and-bitwise (omega arith)
bit_and_step (suc a) b = simp bit_and-bitwise (lowest_digit (λ y. 0) min a b)

pub bit_or_step : (a b : ℕ) → bit_or a b ≡ max (a % 2) (b % 2) + 2 * bit_or (a / 2) (b / 2)
bit_or_step zero b = simp bit_or-bitwise (omega arith)
bit_or_step (suc a) b = simp bit_or-bitwise (lowest_digit (λ y. y) max a b)

pub bit_xor_step : (a b : ℕ) → bit_xor a b ≡ differ (a % 2) (b % 2) + 2 * bit_xor (a / 2) (b / 2)
bit_xor_step zero b = simp bit_xor-bitwise (omega arith)
bit_xor_step (suc a) b = simp bit_xor-bitwise (lowest_digit (λ y. y) differ a b)

bit_and-zero_fuel : (n a : ℕ) → a ≤ n → bit_and a 0 ≡ 0
bit_and-zero_fuel zero zero h = refl
bit_and-zero_fuel zero (suc a) h = absurd (omega arith)
bit_and-zero_fuel (suc n) a h =
    omega (arith, bit_and_step a 0, bit_and-zero_fuel n (a / 2) (omega arith))

bit_or-zero_fuel : (n a : ℕ) → a ≤ n → bit_or a 0 ≡ a
bit_or-zero_fuel zero zero h = refl
bit_or-zero_fuel zero (suc a) h = absurd (omega arith)
bit_or-zero_fuel (suc n) a h =
    omega (arith, bit_or_step a 0, bit_or-zero_fuel n (a / 2) (omega arith))

pub bit_and-zero : (a : ℕ) → bit_and a 0 ≡ 0
bit_and-zero a = bit_and-zero_fuel a a (omega arith)

pub bit_or-zero : (a : ℕ) → bit_or a 0 ≡ a
bit_or-zero a = bit_or-zero_fuel a a (omega arith)

pub zero-bit_and : (b : ℕ) → bit_and 0 b ≡ 0
zero-bit_and b = bit_and-bitwise 0 b

twice_shifted : (m k : ℕ) → m * 2 ^ suc k ≡ 2 * (m * 2 ^ k)
twice_shifted m k = omega (arith, ap (λ (t : ℕ). m * t) (pow-suc 2 k))

pub div_twice : (a k : ℕ) → a / 2 / 2 ^ k ≡ a / 2 ^ suc k
div_twice a k = rw (div-div-eq-div-mul a 2 (2 ^ k), pow-succ' 2 k)

mod_twice : (a k : ℕ) → a % 2 ^ suc k ≡ a / 2 % 2 ^ k * 2 + a % 2
mod_twice a k =
    rw (pow-succ' 2 k) (omega (arith, ap (λ (t : ℕ). 2 ^ k * t) (div-div-eq-div-mul a 2 (2 ^ k))))

-- A mask whose low `k` bits are clear.
pub bit_and_shifted : (k a m : ℕ) → bit_and a (m * 2 ^ k) ≡ bit_and (a / 2 ^ k) m * 2 ^ k
bit_and_shifted zero a m = grind arith
bit_and_shifted (suc k) a m = ground (
  arith,
  bit_and_step a (m * 2 ^ suc k),
  twice_shifted m k,
  twice_shifted (bit_and (a / 2 ^ suc k) m) k,
  div_twice a k,
  bit_and_shifted k (a / 2) m,
)

-- A mask of the `k` lowest bits is the remainder by `2 ^ k`.
pub bit_and_low : (k a : ℕ) → bit_and a (2 ^ k - 1) ≡ a % 2 ^ k
bit_and_low zero a = rw bit_and-zero (omega arith)
bit_and_low (suc k) a = ground (
  arith,
  bit_and_step a (2 ^ suc k - 1),
  bit_and_low k (a / 2),
  mod_twice a k,
  pow-suc 2 k,
  one-le-pow k 2,
)

-- A sum of a shifted part and a part that fits below it is their `|`.
pub bit_or_shifted : (k a m : ℕ) → bit_or a (m * 2 ^ k) ≡ bit_or (a / 2 ^ k) m * 2 ^ k + a % 2 ^ k
bit_or_shifted zero a m = grind arith
bit_or_shifted (suc k) a m = ground (
  arith,
  bit_or_step a (m * 2 ^ suc k),
  twice_shifted m k,
  twice_shifted (bit_or (a / 2 ^ suc k) m) k,
  div_twice a k,
  mod_twice a k,
  bit_or_shifted k (a / 2) m,
)

pub zero-bit_or : (b : ℕ) → bit_or 0 b ≡ b
zero-bit_or b = bit_or-bitwise 0 b

-- Both operands bound `&` from above.
bit_and-le_fuel : (n a b : ℕ) → a ≤ n → (bit_and a b ≤ a) × (bit_and a b ≤ b)
bit_and-le_fuel zero zero b h = omega (arith, zero-bit_and b)
bit_and-le_fuel zero (suc a) b h = absurd (omega arith)
bit_and-le_fuel (suc n) a b h =
    omega (arith, bit_and_step a b, bit_and-le_fuel n (a / 2) (b / 2) (omega arith))

pub bit_and-le_left : (a b : ℕ) → bit_and a b ≤ a
bit_and-le_left a b = (bit_and-le_fuel a a b (omega arith)).0

pub bit_and-le_right : (a b : ℕ) → bit_and a b ≤ b
bit_and-le_right a b = (bit_and-le_fuel a a b (omega arith)).1

-- `|` and `^` of two words of `k` bits have `k` bits.
pub bit_or-lt : (k a b : ℕ) → a < 2 ^ k → b < 2 ^ k → bit_or a b < 2 ^ k
bit_or-lt zero zero zero p q = omega (arith, bit_or-zero 0)
bit_or-lt zero (suc a) b p q = absurd (omega arith)
bit_or-lt zero zero (suc b) p q = absurd (omega arith)
bit_or-lt (suc k) a b p q = omega (
  arith,
  bit_or_step a b,
  pow-succ' 2 k,
  bit_or-lt k (a / 2) (b / 2) (omega (arith, pow-succ' 2 k)) (omega (arith, pow-succ' 2 k)),
)

differ_of_digits : (x y : ℕ) → x ≤ 1 → y ≤ 1 → differ x y ≤ 1
differ_of_digits zero y p q = q
differ_of_digits (suc x) zero p q = p
differ_of_digits (suc zero) (suc zero) p q = omega arith
differ_of_digits (suc zero) (suc (suc y)) p q = absurd (omega arith)
differ_of_digits (suc (suc x)) (suc y) p q = absurd (omega arith)

pub bit_xor-lt : (k a b : ℕ) → a < 2 ^ k → b < 2 ^ k → bit_xor a b < 2 ^ k
bit_xor-lt zero zero zero p q = omega (arith, bit_xor-bitwise 0 0)
bit_xor-lt zero (suc a) b p q = absurd (omega arith)
bit_xor-lt zero zero (suc b) p q = absurd (omega arith)
bit_xor-lt (suc k) a b p q = omega (
  arith,
  bit_xor_step a b,
  differ_of_digits (a % 2) (b % 2) (omega arith) (omega arith),
  pow-succ' 2 k,
  bit_xor-lt k (a / 2) (b / 2) (omega (arith, pow-succ' 2 k)) (omega (arith, pow-succ' 2 k)),
)

bit_or_comm_fuel : (n a b : ℕ) → a ≤ n → bit_or a b ≡ bit_or b a
bit_or_comm_fuel zero zero b h = omega (arith, zero-bit_or b, bit_or-zero b)
bit_or_comm_fuel zero (suc a) b h = absurd (omega arith)
bit_or_comm_fuel (suc n) a b h =
    omega
      (arith, bit_or_step a b, bit_or_step b a, bit_or_comm_fuel n (a / 2) (b / 2) (omega arith))

pub bit_or_comm : (a b : ℕ) → bit_or a b ≡ bit_or b a
bit_or_comm a b = bit_or_comm_fuel a a b (omega arith)

bit_and_comm_fuel : (n a b : ℕ) → a ≤ n → bit_and a b ≡ bit_and b a
bit_and_comm_fuel zero zero b h = omega (arith, zero-bit_and b, bit_and-zero b)
bit_and_comm_fuel zero (suc a) b h = absurd (omega arith)
bit_and_comm_fuel (suc n) a b h =
    omega
      (arith, bit_and_step a b, bit_and_step b a, bit_and_comm_fuel n (a / 2) (b / 2) (omega arith))

pub bit_and_comm : (a b : ℕ) → bit_and a b ≡ bit_and b a
bit_and_comm a b = bit_and_comm_fuel a a b (omega arith)

-- The `|` of two fields that do not overlap is their sum.
pub bit_or_fields : (k q r : ℕ) → r < 2 ^ k → bit_or (q * 2 ^ k) r ≡ q * 2 ^ k + r
bit_or_fields k q r h =
    rw (
      bit_or_comm (q * 2 ^ k) r,
      bit_or_shifted k r q,
      div-eq_of_lt h,
      mod-eq_of_lt h,
      zero-bit_or q,
    )
