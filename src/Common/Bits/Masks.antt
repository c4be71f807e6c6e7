-- ===== src/Common/Bits/Masks.antt =====
-- The masks of the simulator: one bit, the low bits, all but the low bits.
use native.Mathlib.Nat.{one-le-pow, pow-suc}
use native.Mathlib.Omega.{arith}
use mathlib.Core.Path.{◌≡◌, sym}
use Prim.Native.Nat.{ℕ, zero, suc, min, max, bit_or, ◌+◌, ◌-◌, ◌*◌, ◌/◌, ◌%◌, ◌^◌, ◌<◌, bit_and}
use revive.Common.Tests.{◌!=◌}
use revive.Common.Words.{not32, test_bits}
use revive.Common.Bits.{
  bit_and_low, bit_and_shifted, bit_and_comm, bit_and_step, bit_or_step, div_twice,
}

-- One bit.
pub bit_and-bit : (k m : ℕ) → bit_and m (2 ^ k) ≡ m / 2 ^ k % 2 * 2 ^ k
bit_and-bit k m = ground (arith, bit_and_shifted k m 1, bit_and_low 1 (m / 2 ^ k))

pub bit-bit_and : (k m : ℕ) → bit_and (2 ^ k) m ≡ m / 2 ^ k % 2 * 2 ^ k
bit-bit_and k m = ground (arith, bit_and_comm (2 ^ k) m, bit_and-bit k m)

-- The test of one bit.
pub test_bits-bit : (k m : ℕ) → test_bits (2 ^ k) m ≡ (m / 2 ^ k % 2 != 0)
test_bits-bit k m = ground (arith, bit-bit_and k m, one-le-pow k 2)

-- All but the two low bits, all but the lowest.
pub bit_and-not32_3 : (m : ℕ) → m < 2 ^ 32 → bit_and m (not32 3) + m % 4 ≡ m
bit_and-not32_3 m h = omega (arith, bit_and_shifted 2 m (2 ^ 30 - 1), bit_and_low 30 (m / 4))

pub bit_and-not32_1 : (m : ℕ) → m < 2 ^ 32 → bit_and m (not32 1) + m % 2 ≡ m
bit_and-not32_1 m h = omega (arith, bit_and_shifted 1 m (2 ^ 31 - 1), bit_and_low 31 (m / 2))

half_of : (q r : ℕ) → r < 2 → (q * 2 + r) / 2 ≡ q
half_of q r h = omega arith

-- The digits of `&` and `|`.
pub bit_and-digit : (k a b : ℕ) → bit_and a b / 2 ^ k % 2 ≡ min (a / 2 ^ k % 2) (b / 2 ^ k % 2)
bit_and-digit zero a b = omega (arith, bit_and_step a b)
bit_and-digit (suc k) a b = ground (
  arith,
  div_twice a k,
  div_twice b k,
  div_twice (bit_and a b) k,
  bit_and_step a b,
  half_of (bit_and (a / 2) (b / 2)) (min (a % 2) (b % 2)) (omega arith),
  bit_and-digit k (a / 2) (b / 2),
)

pub bit_or-digit : (k a b : ℕ) → bit_or a b / 2 ^ k % 2 ≡ max (a / 2 ^ k % 2) (b / 2 ^ k % 2)
bit_or-digit zero a b = omega (arith, bit_or_step a b)
bit_or-digit (suc k) a b = ground (
  arith,
  div_twice a k,
  div_twice b k,
  div_twice (bit_or a b) k,
  bit_or_step a b,
  half_of (bit_or (a / 2) (b / 2)) (max (a % 2) (b % 2)) (omega arith),
  bit_or-digit k (a / 2) (b / 2),
)

-- The digits of a complement are the others.
complement-digit : (n k x : ℕ) → k < n → x < 2 ^ n → (2 ^ n - 1 - x) / 2 ^ k % 2 + x / 2 ^ k % 2 ≡ 1
complement-digit zero k x h l = absurd (omega (arith, h))
complement-digit (suc n) zero x h l = omega (arith, pow-suc 2 n, l)
complement-digit (suc n) (suc k) x h l =
    let halved : (2 ^ suc n - 1 - x) / 2 ≡ 2 ^ n - 1 - x / 2 = omega (arith, pow-suc 2 n, l) in
    let below : x / 2 < 2 ^ n = omega (arith, pow-suc 2 n, l) in
    let rest = complement-digit n k (x / 2) (omega (arith, h)) below in
    rw (sym (div_twice (2 ^ suc n - 1 - x) k), sym (div_twice x k), halved) rest

pub not32-digit : (k x : ℕ) → k < 32 → x < 2 ^ 32 → not32 x / 2 ^ k % 2 + x / 2 ^ k % 2 ≡ 1
not32-digit = complement-digit 32
