-- ===== src/Hart/Trap/Priority.antt =====
-- Which pending interrupt findFirstIntCode (sim/trace.cc) finds.
use revive.Common.{
  ℕ, ◌/◌, ◌%◌, ◌^◌, ◌<◌, ◌≡◌, ◌↔◌, arith, ◌==◌, ◌!=◌, if◌then◌else◌, done, panicked,
}
use revive.Common.Bits.Masks.{test_bits-bit}
use revive.Hart.Trap.{first_int_code, find_first_int_code}

-- The position of a code in the order of priority; 9 is for the codes that have none.
abbrev pub rank : ℕ → ℕ
rank code =
    if code == 11
    then 0
    else if code == 3
    then 1
    else if code == 7
    then 2
    else if code == 9
    then 3
    else if code == 1
    then 4
    else if code == 5
    then 5
    else if code == 8
    then 6
    else if code == 0
    then 7
    else if code == 4
    then 8
    else 9

-- Bit `code` of a mask.
unfoldable pub pending : ℕ → ℕ → ℕ
pending code mask = mask / 2 ^ code % 2

-- The loop tests the nine bits one after the other.
first_int_code-digits :
    (mask : ℕ)
    → find_first_int_code mask ≡ (
        if pending 11 mask != 0
        then done 11
        else if pending 3 mask != 0
        then done 3
        else if pending 7 mask != 0
        then done 7
        else if pending 9 mask != 0
        then done 9
        else if pending 1 mask != 0
        then done 1
        else if pending 5 mask != 0
        then done 5
        else if pending 8 mask != 0
        then done 8
        else if pending 0 mask != 0
        then done 0
        else if pending 4 mask != 0
        then done 4
        else panicked)
unfolding find_first_int_code first_int_code pending
first_int_code-digits mask = rw (
  test_bits-bit 11 mask,
  test_bits-bit 3 mask,
  test_bits-bit 7 mask,
  test_bits-bit 9 mask,
  test_bits-bit 1 mask,
  test_bits-bit 5 mask,
  test_bits-bit 8 mask,
  test_bits-bit 0 mask,
  test_bits-bit 4 mask,
)

-- `code` is pending in `mask`, and nothing of higher priority is.
pub record IsFirst (code mask : ℕ) : Type 0 where
  pub is_pending : pending code mask ≡ 1
  pub above : (j : ℕ) → rank j < rank code → pending j mask ≡ 0
  pub code_lt : code < 12

pub pending-digit : (j mask : ℕ) → pending j mask < 2
unfolding pending
pending-digit j mask = omega arith

-- If the loop finds a code, that interrupt is pending in the mask and nothing of higher priority
-- is.
pub find_first_int_code-IsFirst :
    (mask code : ℕ) → find_first_int_code mask ≡ done code → IsFirst code mask
find_first_int_code-IsFirst mask code e =
    let h = rw (first_int_code-digits mask) at e in
    record {
      is_pending = ground (arith, pending-digit code mask);
      above = λ j r. ground (arith, h, pending-digit j mask);
      code_lt = ground (arith, h);
    }

-- The nine interrupts of the table are absent from `mask`.
abbrev pub NoneListed : ℕ → Type 0
NoneListed mask = (j : ℕ) → rank j < 9 → pending j mask ≡ 0

-- The loop falls through to the panic exactly when none of the nine bits is set.
pub find_first_int_code-panics :
    (mask : ℕ) → (find_first_int_code mask ≡ panicked) ↔ NoneListed mask
find_first_int_code-panics mask = (
  (λ e j r.
      let h = rw (first_int_code-digits mask) at e in ground (arith, h, pending-digit j mask)),
  (λ h.
      rw (first_int_code-digits mask)
        (ground (arith, h 11, h 3, h 7, h 9, h 1, h 5, h 8, h 0, h 4))),
)
