-- ===== src/Space/Range.antt =====
-- `AddressRange`: which addresses a range holds, and when two ranges overlap.
use revive.Common.{
  ℕ, ◌+◌, ◌-◌, ◌%◌, ◌^◌, ◌≤◌, ◌<◌, ◌≡◌, refl, ◌↔◌, Bool, true, false, ◌&&◌, ◌||◌, arith, ltb, leb,
  ◌!=◌, u64, test_bits,
}
use revive.Common.Bits.{bit_and_low, bit_and-zero}

-- `start` and `size` of a range; `device` is what the subclass keeps.
pub record AddressRange (D : Type 0) : Type 0 where
  pub start : ℕ
  pub size : ℕ
  pub device : D

-- `addr - getStart()`, of 64 bits
abbrev pub offset_in : ℕ → ℕ → ℕ
offset_in start addr = u64 (addr + 2 ^ 64 - u64 start)

pub offset_in_lem : (start d : ℕ) → d < 2 ^ 64 → offset_in start (start + d) ≡ d
offset_in_lem start d h = omega arith

-- `offset & (size - 1)`, the `int` being widened to 64 bits
unfoldable pub unaligned : ℕ → ℕ → Bool
unaligned offset size = test_bits offset (u64 (size + 2 ^ 64 - 1))

pub unaligned_byte : (offset : ℕ) → unaligned offset 1 ≡ false
unfolding unaligned
unaligned_byte offset = rw (bit_and-zero offset) refl

pub unaligned_half : (offset : ℕ) → unaligned offset 2 ≡ (offset % 2 != 0)
unfolding unaligned
unaligned_half offset = rw (bit_and_low 1 offset)

pub unaligned_word : (offset : ℕ) → unaligned offset 4 ≡ (offset % 4 != 0)
unfolding unaligned
unaligned_word offset = rw (bit_and_low 2 offset)

pub unaligned_double : (offset : ℕ) → unaligned offset 8 ≡ (offset % 8 != 0)
unfolding unaligned
unaligned_double offset = rw (bit_and_low 3 offset)

module _ {D : Type 0} where
  unfoldable pub in_range : AddressRange D → ℕ → ℕ → Bool
  in_range r start size =
      leb r.start start
      && leb size r.size
      && leb start (u64 (u64 (r.start + r.size) + 2 ^ 64 - size))

  unfoldable pub overlap_range : AddressRange D → AddressRange D → Bool
  overlap_range r other =
      let end' = u64 (other.start + other.size) in
      let this_end = u64 (r.start + r.size) in
      (leb r.start other.start && ltb other.start this_end)
      || (ltb r.start end' && leb end' this_end)
      || (ltb other.start r.start && ltb this_end end')

  -- A range that ends below 2 ^ 64.
  pub record IsBounded (r : AddressRange D) : Type 0 where
    pub end_lt : r.start + r.size < 2 ^ 64

  -- The bytes from `start` on are all of the range.
  pub record Holds (r : AddressRange D) (start size : ℕ) : Type 0 where
    pub from_start : r.start ≤ start
    pub to_end : start + size ≤ r.start + r.size

  pub in_range-Holds :
      (r : AddressRange D) (start size : ℕ)
      → IsBounded r
      → start < 2 ^ 64
      → (in_range r start size ≡ true) ↔ Holds r start size
  unfolding in_range
  in_range-Holds r start size b h = (
    (λ e. record { from_start = ground (arith, b); to_end = ground (arith, b) }),
    (λ p. ground (arith, b, p)),
  )

  -- Two ranges with some bytes that end below 2 ^ 64 overlap, by the test of the code, exactly
  -- if each starts before the other ends.
  pub overlap_range_iff :
      (r other : AddressRange D)
      → IsBounded r
      → IsBounded other
      → 0 < r.size
      → 0 < other.size
      → (overlap_range r other ≡ true)
        ↔ ((r.start < other.start + other.size) × (other.start < r.start + r.size))
  unfolding overlap_range
  overlap_range_iff r other b c p q = ((λ e. ground (arith, b, c)), (λ e. ground (arith, b, c)))
