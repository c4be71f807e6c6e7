-- ===== src/Hart/Trap/Entry.antt =====
-- What trap entry and return do to the registers of the levels.
use revive.Common.{ℕ, ◌+◌, ◌*◌, ◌/◌, ◌%◌, ◌^◌, ◌≤◌, ◌≡◌, refl, Bool, false, arith}
use revive.Hart.Status.Laws.{user_entry_fields, supervisor_entry_fields, machine_entry_fields}
use revive.Hart.State.{TraceMachineState}
use revive.Hart.Valid.{IsValid}
use revive.Hart.Trap.{
  enter_user, enter_supervisor, enter_machine, except_enter, delegates_to_user,
  delegates_to_supervisor,
}

-- Bit `level` of the status register: the interrupt enable of that level.
abbrev pub enabled : ℕ → TraceMachineState → ℕ
enabled level s = s.status / 2 ^ level % 2

-- Bit `level + 4`: the enable as it was before the trap.
abbrev pub enabled_before : ℕ → TraceMachineState → ℕ
enabled_before level s = s.status / 2 ^ (level + 4) % 2

-- The trap from `s` with `cause` and `tval` was entered at the level of `t`, whose registers
-- stand at 0x041 + 0x100 * level and after.
pub record Entered (s : TraceMachineState) (cause tval : ℕ) (t : TraceMachineState) : Type 0 where
  pub not_lower : s.priv ≤ t.priv
  pub epc : t.csr (0x041 + 0x100 * t.priv) ≡ s.pc
  pub cause_at : t.csr (0x042 + 0x100 * t.priv) ≡ cause
  pub tval_at : t.csr (0x043 + 0x100 * t.priv) ≡ tval
  pub disabled : enabled t.priv t ≡ 0
  pub enable_kept : enabled_before t.priv t ≡ enabled t.priv s
  pub isa_kept : t.isa ≡ s.isa
  pub gpr_kept : t.gpr ≡ s.gpr

module _ (s : TraceMachineState) (cause tval : ℕ) (is_int : Bool) (code : ℕ) (v : IsValid s) where
  pub enter_user-Entered : s.priv ≡ 0 → Entered s cause tval (enter_user s cause tval is_int code)
  unfolding enter_user
  enter_user-Entered h =
      let fields = user_entry_fields s.status v.status_lt in
      record {
        not_lower = omega arith;
        epc = refl;
        cause_at = refl;
        tval_at = refl;
        disabled = fields.0;
        enable_kept = fields.1;
        isa_kept = refl;
        gpr_kept = refl;
      }

  pub enter_supervisor-Entered :
      s.priv ≤ 1 → Entered s cause tval (enter_supervisor s cause tval is_int code)
  unfolding enter_supervisor
  enter_supervisor-Entered h =
      let fields = supervisor_entry_fields s.priv s.status v.status_lt in
      record {
        not_lower = h;
        epc = refl;
        cause_at = refl;
        tval_at = refl;
        disabled = fields.0;
        enable_kept = fields.1;
        isa_kept = refl;
        gpr_kept = refl;
      }

  pub enter_machine-Entered : Entered s cause tval (enter_machine s cause tval is_int code)
  unfolding enter_machine
  enter_machine-Entered =
      let fields = machine_entry_fields s.priv s.status v.status_lt in
      record {
        not_lower = v.priv_le;
        epc = refl;
        cause_at = refl;
        tval_at = refl;
        disabled = fields.0;
        enable_kept = fields.1;
        isa_kept = refl;
        gpr_kept = refl;
      }

-- From a well-formed hart, an exception is entered at a level that is not below the one it came
-- from; it saves the address, the cause and the value in that level's registers, saves and
-- clears its interrupt enable, and leaves the general registers alone.
pub except_enter-Entered :
    (s : TraceMachineState) (code tval : ℕ)
    → IsValid s
    → Entered s code tval (except_enter s code tval)
unfolding except_enter delegates_to_user delegates_to_supervisor
except_enter-Entered s code tval v = ground (
  arith,
  enter_user-Entered s code tval false 0 v,
  enter_supervisor-Entered s code tval false 0 v,
  enter_machine-Entered s code tval false 0 v,
)
