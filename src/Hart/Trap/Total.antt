-- ===== src/Hart/Trap/Total.antt =====
-- When `interrupt` returns, and that it keeps a hart well formed.
use revive.Common.{
  ℕ, ◌^◌, ◌<◌, bit_and, bit_or, ◌≡◌, refl, ◌≢◌, true, arith, Outcome, done, panicked, if_holds,
  OnDone, on_done, on_panicked, OnDone-test,
}
use revive.Common.Bits.{bit_and-le_left, bit_or-lt}
use revive.Common.Bits.Masks.{bit_and-digit}
use revive.Hart.State.{TraceMachineState}
use revive.Hart.Valid.{IsValid}
use revive.Hart.Trap.{
  find_first_int_code, with_code, int_mask, int_mask_m, int_mask_s, int_mask_u, interrupt,
  machine_takes, supervisor_takes, user_takes,
}
use revive.Hart.Trap.Valid.{enter_user-IsValid, enter_supervisor-IsValid, enter_machine-IsValid}
use revive.Hart.Trap.Priority.{
  pending, NoneListed, find_first_int_code-IsFirst, find_first_int_code-panics,
}

-- Only the nine interrupts of the table are in `mask`.
pub record IsListed (mask : ℕ) : Type 0 where
  pub width : mask < 2 ^ 12
  pub no_2 : pending 2 mask ≡ 0
  pub no_6 : pending 6 mask ≡ 0
  pub no_10 : pending 10 mask ≡ 0

bit_and-IsListed : (a b : ℕ) → IsListed a → IsListed (bit_and a b)
unfolding pending
bit_and-IsListed a b h = record {
  width = omega (arith, h.width, bit_and-le_left a b);
  no_2 = omega (arith, h.no_2, bit_and-digit 2 a b);
  no_6 = omega (arith, h.no_6, bit_and-digit 6 a b);
  no_10 = omega (arith, h.no_10, bit_and-digit 10 a b);
}

-- A mask that has none of its twelve digits is 0.
zero_of_digits : (mask : ℕ) → IsListed mask → NoneListed mask → mask ≡ 0
unfolding pending
zero_of_digits mask h n = omega (
  arith,
  h.width,
  h.no_2,
  h.no_6,
  h.no_10,
  n 0 (omega arith),
  n 1 (omega arith),
  n 3 (omega arith),
  n 4 (omega arith),
  n 5 (omega arith),
  n 7 (omega arith),
  n 8 (omega arith),
  n 9 (omega arith),
  n 11 (omega arith),
)

found :
    (mask : ℕ) (enter : ℕ → TraceMachineState)
    → IsListed mask
    → mask ≢ 0
    → (t : TraceMachineState) × (with_code (find_first_int_code mask) enter ≡ done t)
found mask enter h n =
    go (find_first_int_code mask)
      (λ e. n (zero_of_digits mask h ((find_first_int_code-panics mask).0 e)))
  where
    go : (o : Outcome ℕ) → (o ≢ panicked) → (t : TraceMachineState) × (with_code o enter ≡ done t)
    go panicked k = absurd (k refl)
    go (done c) k = (enter c, refl)

int_mask-IsListed : (s : TraceMachineState) → IsListed s.inte → IsListed (int_mask s)
unfolding int_mask
int_mask-IsListed s h = bit_and-IsListed s.inte (bit_or s.intp s.inthw) h

abbrev Returns : Outcome TraceMachineState → Type 0
Returns o = (t : TraceMachineState) × (o ≡ done t)

-- While only the nine interrupts of the table are enabled, `interrupt` returns.
pub interrupt_total :
    (s : TraceMachineState) → IsListed s.inte → (t : TraceMachineState) × (interrupt s ≡ done t)
unfolding interrupt
interrupt_total s h =
    let l = int_mask-IsListed s h in
    if_holds Returns (machine_takes s) _ _
      (λ g.
        found (int_mask_m s) _ (unfold int_mask_m in bit_and-IsListed _ _ l)
          (unfold machine_takes in ground arith))
      λ _.
        if_holds Returns (supervisor_takes s) _ _
          (λ g.
            found (int_mask_s s) _
              (unfold int_mask_s in bit_and-IsListed _ _ (bit_and-IsListed _ _ l))
              (unfold supervisor_takes in ground arith))
          λ _.
            if_holds Returns (user_takes s) _ _
              (λ g.
                found (int_mask_u s) _
                  (unfold int_mask_u in bit_and-IsListed _ _ (bit_and-IsListed _ _ l))
                  (unfold user_takes in ground arith))
              (λ _. (s, refl))

-- Below the machine's level, if interrupts are pending for the machine and none of them is among
-- the nine of the table, `interrupt` panics.
pub interrupt_unlisted_panics :
    (s : TraceMachineState)
    → int_mask_m s ≢ 0
    → NoneListed (int_mask_m s)
    → s.priv < 3
    → interrupt s ≡ panicked
unfolding interrupt machine_takes
interrupt_unlisted_panics s n h p = ground (arith, (find_first_int_code-panics (int_mask_m s)).1 h)

module _ (s : TraceMachineState) (v : IsValid s) where
  code-IsValid :
      (mask : ℕ) (enter : ℕ → TraceMachineState)
      → ((code : ℕ) → code < 12 → IsValid (enter code))
      → OnDone IsValid (with_code (find_first_int_code mask) enter)
  code-IsValid mask enter h =
      go (find_first_int_code mask) (λ c e. h c (find_first_int_code-IsFirst mask c e).code_lt)
    where
      go :
          (o : Outcome ℕ)
          → ((c : ℕ) → o ≡ done c → IsValid (enter c))
          → OnDone IsValid (with_code o enter)
      go panicked k = on_panicked
      go (done c) k = on_done (k c refl)

  cause-lt : (code : ℕ) → code < 12 → bit_or 0x80000000 code < 2 ^ 32
  cause-lt code h = bit_or-lt 32 0x80000000 code (omega arith) (omega arith)

  pub interrupt-IsValid : OnDone IsValid (interrupt s)
  unfolding interrupt
  interrupt-IsValid =
      OnDone-test (machine_takes s) _ _
        (λ _. code-IsValid (int_mask_m s) _ (λ code c.
          enter_machine-IsValid s (bit_or 0x80000000 code) 0 true code v (cause-lt code c)
            (omega arith)))
        λ _.
          OnDone-test (supervisor_takes s) _ _
            (λ _. code-IsValid (int_mask_s s) _ (λ code c.
              enter_supervisor-IsValid s (bit_or 0x80000000 code) 0 true code v (cause-lt code c)
                (omega arith)))
            λ _.
              OnDone-test (user_takes s) _ _
                (λ _. code-IsValid (int_mask_u s) _ (λ code c.
                  enter_user-IsValid s (bit_or 0x80000000 code) 0 true code v (cause-lt code c)
                    (omega arith)))
                (λ _. on_done v)
