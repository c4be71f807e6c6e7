-- ===== src/Hart/Trap/Return.antt =====
-- A trap and the return from it.
use revive.Common.{
  ℕ, ◌%◌, ◌^◌, ◌≤◌, ◌<◌, bit_and, ◌≡◌, refl, Bool, true, false, arith, ◌!=◌, if◌then◌else◌,
  if_holds,
}
use revive.Common.Bits.Masks.{bit_and-not32_3, bit_and-not32_1}
use revive.Hart.Status.Laws.{
  user_entry, supervisor_entry, machine_entry, user_entry_fields, supervisor_entry_fields,
  machine_entry_fields, set_uie_fields, set_sie_fields, set_mie_fields,
}
use revive.Hart.Status.{upie, spie, mpie, isa_c}
use revive.Hart.State.{TraceMachineState}
use revive.Hart.Csr.{pc_mask}
use revive.Hart.Valid.{IsValid}
use revive.Hart.Trap.{
  enter_user, enter_supervisor, enter_machine, except_enter, return_user, return_supervisor,
  return_machine, trap_return, delegates_to_user, delegates_to_supervisor,
}
use revive.Hart.Trap.Entry.{enabled}

-- The program counter is one that an instruction can have: even, and a multiple of 4 without
-- the compressed instructions.
abbrev pub HasAlignedPc : TraceMachineState → Type 0
HasAlignedPc s = s.pc % (if isa_c s.isa != 0 then 2 else 4) ≡ 0

aligned_mask :
    (s : TraceMachineState) → s.pc < 2 ^ 32 → HasAlignedPc s → bit_and s.pc (pc_mask s.isa) ≡ s.pc
aligned_mask s h a = ground (arith, bit_and-not32_3 s.pc h, bit_and-not32_1 s.pc h)

-- `r` goes on where `s` was, at its level, with its registers and its interrupt enable.
pub record Resumes (level : ℕ) (s r : TraceMachineState) : Type 0 where
  pub pc : r.pc ≡ s.pc
  pub priv : r.priv ≡ s.priv
  pub gpr : r.gpr ≡ s.gpr
  pub enable : enabled level r ≡ enabled level s

module _ (s : TraceMachineState) (cause tval : ℕ) (is_int : Bool) (code : ℕ) (v : IsValid s)
    (a : HasAlignedPc s) where
  user_round_trip : s.priv ≡ 0 → Resumes 0 s (trap_return (enter_user s cause tval is_int code) 0)
  unfolding trap_return return_user enter_user
  user_round_trip h =
      let entry = user_entry_fields s.status v.status_lt in
      let y = user_entry s.status in
      let back = set_uie_fields (upie y) y entry.2 in
      record {
        pc = aligned_mask s v.pc_lt a;
        priv = omega arith;
        gpr = refl;
        enable = omega (arith, entry, back);
      }

  supervisor_round_trip :
      s.priv ≤ 1 → Resumes 1 s (trap_return (enter_supervisor s cause tval is_int code) 1)
  unfolding trap_return return_supervisor enter_supervisor
  supervisor_round_trip h =
      let entry = supervisor_entry_fields s.priv s.status v.status_lt in
      let y = supervisor_entry s.priv s.status in
      let back = set_sie_fields (spie y) y entry.3 in
      record {
        pc = aligned_mask s v.pc_lt a;
        priv = omega (arith, entry, back);
        gpr = refl;
        enable = omega (arith, entry, back);
      }

  machine_round_trip : Resumes 3 s (trap_return (enter_machine s cause tval is_int code) 3)
  unfolding trap_return return_machine enter_machine
  machine_round_trip =
      let entry = machine_entry_fields s.priv s.status v.status_lt in
      let y = machine_entry s.priv s.status in
      let back = set_mie_fields (mpie y) y entry.3 in
      record {
        pc = aligned_mask s v.pc_lt a;
        priv = omega (arith, entry, back, v.priv_le);
        gpr = refl;
        enable = omega (arith, entry, back);
      }

user_level : (s : TraceMachineState) (code : ℕ) → delegates_to_user s code ≡ true → s.priv ≡ 0
unfolding delegates_to_user
user_level s code h = ground arith

supervisor_level :
    (s : TraceMachineState) (code : ℕ) → delegates_to_supervisor s code ≡ true → s.priv ≤ 1
unfolding delegates_to_supervisor
supervisor_level s code h = ground arith

-- From a well-formed hart with an aligned program counter, returning from the level that an
-- exception entered goes back to the interrupted program: the address is the one before, and so
-- are the level, the registers and the interrupt enable.
pub trap_return-except_enter :
    (s : TraceMachineState) (code tval : ℕ)
    → IsValid s
    → HasAlignedPc s
    → let t = except_enter s code tval in Resumes t.priv s (trap_return t t.priv)
unfolding except_enter enter_user enter_supervisor enter_machine
trap_return-except_enter s code tval v a =
    let P : TraceMachineState → Type 0 = λ t. Resumes t.priv s (trap_return t t.priv) in
    if_holds P (delegates_to_user s code) _ _
      (λ h. user_round_trip s code tval false 0 v a (user_level s code h))
      λ _.
        if_holds P (delegates_to_supervisor s code) _ _
          (λ h. supervisor_round_trip s code tval false 0 v a (supervisor_level s code h))
          λ _. machine_round_trip s code tval false 0 v a
