-- ===== src/Hart/Trap/Takeable.antt =====
-- What an interrupt must be to be taken at a level, and the masks and guards of `interrupt`
-- (sim/trace.cc).
use Prim.Native.Nat.{min, max}
use native.Mathlib.Nat.{zero-div}
use revive.Common.{
  ℕ, ◌+◌, ◌*◌, ◌/◌, ◌%◌, ◌^◌, ◌≤◌, ◌<◌, bit_and, bit_or, ◌≡◌, ◌≢◌, ◌↔◌, refl, ap, ◌⊎◌, inl, inr,
  true, arith, not32, ◌==◌, if◌then◌else◌, u32,
}
use revive.Common.Bits.{bit_and_low}
use revive.Common.Bits.Masks.{bit_and-digit, bit_or-digit, not32-digit, bit_and-not32_3}
use revive.Hart.Status.{sie, mie}
use revive.Hart.State.{TraceMachineState}
use revive.Hart.Valid.{IsValid}
use revive.Hart.Trap.{
  int_mask, int_mask_m, int_mask_s, int_mask_u, machine_takes, supervisor_takes, user_takes,
  calculate_trap_handler_base,
}
use revive.Hart.Trap.Priority.{pending, pending-digit}

-- The address of an interrupt's handler by a trap vector: its base, the address without the two
-- lowest bits, which are the mode; or, in any mode but 0, the word of that code behind the base.
abbrev pub handler : ℕ → ℕ → ℕ
handler tvec code = if tvec % 4 == 0 then tvec / 4 * 4 else u32 (tvec / 4 * 4 + code * 4)

-- The level that the delegation registers of the machine and the supervisor give an interrupt to.
abbrev pub DelegatedTo : TraceMachineState → ℕ → ℕ → Type 0
DelegatedTo s code level =
    ((level ≡ 3) × (pending code (s.csr 0x303) ≡ 0))
    ⊎ (((level ≡ 1) × (pending code (s.csr 0x303) ≡ 1) × (pending code (s.csr 0x103) ≡ 0))
        ⊎ ((level ≡ 0) × (pending code (s.csr 0x303) ≡ 1) × (pending code (s.csr 0x103) ≡ 1)))

-- The interrupt is enabled and raised, by software or by its line, and is delegated to the level,
-- which is above the current one, or is it and has its enable bit set. At the user level the code
-- asks for the supervisor's enable bit.
pub record Takeable (s : TraceMachineState) (code level : ℕ) : Type 0 where
  pub is_enabled : pending code s.inte ≡ 1
  pub is_raised : (pending code s.intp ≡ 1) ⊎ (pending code s.inthw ≡ 1)
  pub delegated : DelegatedTo s code level
  pub allowed :
      (s.priv < level)
      ⊎ ((s.priv ≡ level)
          × (((level ≡ 3) × (mie s.status ≡ 1)) ⊎ ((level ≤ 1) × (sie s.status ≡ 1))))

pub handler-base :
    (tvec code : ℕ) → tvec < 2 ^ 32 → calculate_trap_handler_base tvec true code ≡ handler tvec code
unfolding calculate_trap_handler_base
handler-base tvec code h = ground (arith, bit_and_low 2 tvec, bit_and-not32_3 tvec h)

pending-bit_and : (j a b : ℕ) → pending j (bit_and a b) ≡ min (pending j a) (pending j b)
unfolding pending
pending-bit_and j a b = bit_and-digit j a b

pending-bit_or : (j a b : ℕ) → pending j (bit_or a b) ≡ max (pending j a) (pending j b)
unfolding pending
pending-bit_or j a b = bit_or-digit j a b

pending-not32 : (j x : ℕ) → j < 32 → x < 2 ^ 32 → pending j (not32 x) + pending j x ≡ 1
unfolding pending
pending-not32 j x h l = not32-digit j x h l

pending-zero : (j mask : ℕ) → pending j mask ≡ 1 → mask ≢ 0
unfolding pending
pending-zero j mask h e =
    let none_of_zero : 0 / 2 ^ j ≡ 0 = zero-div (2 ^ j) in
    omega (arith, h, none_of_zero, ap (pending j) e)

module _ (s : TraceMachineState) (v : IsValid s) (code : ℕ) (h : code < 32) where
  -- Enabled, and raised by software or by its line.
  int_mask_iff :
      (pending code (int_mask s) ≡ 1)
      ↔ ((pending code s.inte ≡ 1) × ((pending code s.intp ≡ 1) ⊎ (pending code s.inthw ≡ 1)))
  unfolding int_mask
  int_mask_iff =
      let both = pending-bit_and code s.inte (bit_or s.intp s.inthw) in
      let either = pending-bit_or code s.intp s.inthw in
      let small_e = pending-digit code s.inte in
      let small_p = pending-digit code s.intp in
      let small_h = pending-digit code s.inthw in
      ((λ e. ground (arith, both, either)), (λ (e, r). ground (arith, both, either)))

  int_mask_m_iff :
      (pending code (int_mask_m s) ≡ 1)
      ↔ ((pending code (int_mask s) ≡ 1) × (pending code (s.csr 0x303) ≡ 0))
  unfolding int_mask_m
  int_mask_m_iff =
      let both = pending-bit_and code (int_mask s) (not32 (s.csr 0x303)) in
      let other = pending-not32 code (s.csr 0x303) h (v.csr_lt 0x303) in
      let small = pending-digit code (int_mask s) in
      ((λ e. omega (arith, both, other)), (λ (e, d). omega (arith, both, other)))

  int_mask_s_iff : (pending code (int_mask_s s) ≡ 1) ↔ (
      (pending code (int_mask s) ≡ 1)
      × ((pending code (s.csr 0x303) ≡ 1) × (pending code (s.csr 0x103) ≡ 0)))
  unfolding int_mask_s
  int_mask_s_iff =
      let both = pending-bit_and code (bit_and (int_mask s) (s.csr 0x303)) (not32 (s.csr 0x103)) in
      let inner = pending-bit_and code (int_mask s) (s.csr 0x303) in
      let other = pending-not32 code (s.csr 0x103) h (v.csr_lt 0x103) in
      let small = pending-digit code (int_mask s) in
      let small_d = pending-digit code (s.csr 0x303) in
      ((λ e. omega (arith, both, inner, other)), (λ (e, (d, f)). omega (arith, both, inner, other)))

  int_mask_u_iff : (pending code (int_mask_u s) ≡ 1) ↔ (
      (pending code (int_mask s) ≡ 1)
      × ((pending code (s.csr 0x303) ≡ 1) × (pending code (s.csr 0x103) ≡ 1)))
  unfolding int_mask_u
  int_mask_u_iff =
      let both = pending-bit_and code (bit_and (int_mask s) (s.csr 0x303)) (s.csr 0x103) in
      let inner = pending-bit_and code (int_mask s) (s.csr 0x303) in
      let small = pending-digit code (int_mask s) in
      let small_d = pending-digit code (s.csr 0x303) in
      let small_e = pending-digit code (s.csr 0x103) in
      ((λ e. omega (arith, both, inner)), (λ (e, (d, f)). omega (arith, both, inner)))

  pub machine-Takeable :
      ((machine_takes s ≡ true) × (pending code (int_mask_m s) ≡ 1)) ↔ Takeable s code 3
  unfolding machine_takes
  machine-Takeable = (
    (λ (g, p).
        let (raised, to) = int_mask_m_iff.0 p in
        let (on, up) = int_mask_iff.0 raised in
        let level = v.priv_le in
        record {
          is_enabled = on;
          is_raised = up;
          delegated = inl (refl, to);
          allowed = ground arith;
        }),
    (λ t.
        let p : pending code (int_mask_m s) ≡ 1 =
          int_mask_m_iff.1
            (int_mask_iff.1 (t.is_enabled, t.is_raised), ground (arith, t.delegated)) in
        let some_bit = pending-zero code (int_mask_m s) p in
        (ground (arith, some_bit, t.allowed), p)),
  )

  pub supervisor-Takeable :
      ((supervisor_takes s ≡ true) × (pending code (int_mask_s s) ≡ 1)) ↔ Takeable s code 1
  unfolding supervisor_takes
  supervisor-Takeable = (
    (λ (g, p).
        let (raised, to) = int_mask_s_iff.0 p in
        let (on, up) = int_mask_iff.0 raised in
        record {
          is_enabled = on;
          is_raised = up;
          delegated = inr (inl (refl, to.0, to.1));
          allowed = ground arith;
        }),
    (λ t.
        let p : pending code (int_mask_s s) ≡ 1 =
          int_mask_s_iff.1
            (int_mask_iff.1 (t.is_enabled, t.is_raised), ground (arith, t.delegated)) in
        let some_bit = pending-zero code (int_mask_s s) p in
        (ground (arith, some_bit, t.allowed), p)),
  )

  pub user-Takeable :
      ((user_takes s ≡ true) × (pending code (int_mask_u s) ≡ 1)) ↔ Takeable s code 0
  unfolding user_takes
  user-Takeable = (
    (λ (g, p).
        let (raised, to) = int_mask_u_iff.0 p in
        let (on, up) = int_mask_iff.0 raised in
        record {
          is_enabled = on;
          is_raised = up;
          delegated = inr (inr (refl, to.0, to.1));
          allowed = ground arith;
        }),
    (λ t.
        let p : pending code (int_mask_u s) ≡ 1 =
          int_mask_u_iff.1
            (int_mask_iff.1 (t.is_enabled, t.is_raised), ground (arith, t.delegated)) in
        let some_bit = pending-zero code (int_mask_u s) p in
        (ground (arith, some_bit, t.allowed), p)),
  )
