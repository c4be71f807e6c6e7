-- ===== src/Hart/Trap/Valid.antt =====
-- Trap entry and return keep a hart well formed.
use revive.Common.{ℕ, ◌+◌, ◌^◌, ◌<◌, bit_and, Bool, true, false, arith, ◌==◌, if◌then◌else◌, not32}
use revive.Common.Bits.{bit_and-le_left}
use revive.Hart.Status.Laws.{
  user_entry_fields, supervisor_entry_fields, machine_entry_fields, set_uie_fields, set_sie_fields,
  set_mie_fields,
}
use revive.Hart.Status.{upie, spie, mpie}
use revive.Hart.State.{TraceMachineState, update, priv_user, priv_supervisor}
use revive.Hart.Csr.{pc_mask}
use revive.Hart.Valid.{IsValid, update-lt}
use revive.Hart.Trap.{
  calculate_trap_handler_base, enter_user, enter_supervisor, enter_machine, except_enter,
  return_user, return_supervisor, return_machine, trap_return,
}

base-lt :
    (tvec : ℕ) (is_int : Bool) (code : ℕ)
    → tvec < 2 ^ 32
    → calculate_trap_handler_base tvec is_int code < 2 ^ 32
unfolding calculate_trap_handler_base
base-lt tvec is_int code h = ground (arith, bit_and-le_left tvec (not32 0x3))

saved-lt :
    (a : ℕ → ℕ) (i pc cause tval : ℕ)
    → ((j : ℕ) → a j < 2 ^ 32)
    → pc < 2 ^ 32
    → cause < 2 ^ 32
    → tval < 2 ^ 32
    → (j : ℕ) → update (update (update a i pc) (i + 1) cause) (i + 2) tval j < 2 ^ 32
saved-lt a i pc cause tval h p c t =
    update-lt (update (update a i pc) (i + 1) cause) (i + 2) tval (2 ^ 32)
      (update-lt (update a i pc) (i + 1) cause (2 ^ 32) (update-lt a i pc (2 ^ 32) h p) c) t

module _ (s : TraceMachineState) (cause tval : ℕ) (is_int : Bool) (code : ℕ) (v : IsValid s)
    (c : cause < 2 ^ 32) (t : tval < 2 ^ 32) where
  pub enter_user-IsValid : IsValid (enter_user s cause tval is_int code)
  unfolding enter_user
  enter_user-IsValid = record {
    pc_lt = base-lt (s.csr 0x005) is_int code (v.csr_lt 0x005);
    gpr_lt = v.gpr_lt;
    gpr_zero = v.gpr_zero;
    isa_lt = v.isa_lt;
    priv_le = omega arith;
    status_lt = (user_entry_fields s.status v.status_lt).2;
    inte_lt = v.inte_lt;
    intp_lt = v.intp_lt;
    inthw_lt = v.inthw_lt;
    trans_lt = v.trans_lt;
    perf_lt = v.perf_lt;
    csr_lt = saved-lt s.csr 0x041 s.pc cause tval v.csr_lt v.pc_lt c t;
  }

  pub enter_supervisor-IsValid : IsValid (enter_supervisor s cause tval is_int code)
  unfolding enter_supervisor
  enter_supervisor-IsValid = record {
    pc_lt = base-lt (s.csr 0x105) is_int code (v.csr_lt 0x105);
    gpr_lt = v.gpr_lt;
    gpr_zero = v.gpr_zero;
    isa_lt = v.isa_lt;
    priv_le = omega arith;
    status_lt = (supervisor_entry_fields s.priv s.status v.status_lt).3;
    inte_lt = v.inte_lt;
    intp_lt = v.intp_lt;
    inthw_lt = v.inthw_lt;
    trans_lt = v.trans_lt;
    perf_lt = v.perf_lt;
    csr_lt = saved-lt s.csr 0x141 s.pc cause tval v.csr_lt v.pc_lt c t;
  }

  pub enter_machine-IsValid : IsValid (enter_machine s cause tval is_int code)
  unfolding enter_machine
  enter_machine-IsValid = record {
    pc_lt = base-lt (s.csr 0x305) is_int code (v.csr_lt 0x305);
    gpr_lt = v.gpr_lt;
    gpr_zero = v.gpr_zero;
    isa_lt = v.isa_lt;
    priv_le = omega arith;
    status_lt = (machine_entry_fields s.priv s.status v.status_lt).3;
    inte_lt = v.inte_lt;
    intp_lt = v.intp_lt;
    inthw_lt = v.inthw_lt;
    trans_lt = v.trans_lt;
    perf_lt = v.perf_lt;
    csr_lt = saved-lt s.csr 0x341 s.pc cause tval v.csr_lt v.pc_lt c t;
  }

pub if-IsValid :
    (b : Bool) (x y : TraceMachineState) → IsValid x → IsValid y → IsValid (if b then x else y)
if-IsValid true x y p q = p
if-IsValid false x y p q = q

pub except_enter-IsValid :
    (s : TraceMachineState) (code tval : ℕ)
    → IsValid s
    → code < 2 ^ 32
    → tval < 2 ^ 32
    → IsValid (except_enter s code tval)
unfolding except_enter
except_enter-IsValid s code tval v c t =
    search (if-IsValid, enter_user-IsValid, enter_supervisor-IsValid, enter_machine-IsValid)

module _ (s : TraceMachineState) (v : IsValid s) where
  return_user-IsValid : IsValid (return_user s)
  unfolding return_user
  return_user-IsValid = record {
    pc_lt = v.csr_lt 0x041;
    gpr_lt = v.gpr_lt;
    gpr_zero = v.gpr_zero;
    isa_lt = v.isa_lt;
    priv_le = omega arith;
    status_lt = (set_uie_fields (upie s.status) s.status v.status_lt).2;
    inte_lt = v.inte_lt;
    intp_lt = v.intp_lt;
    inthw_lt = v.inthw_lt;
    trans_lt = v.trans_lt;
    perf_lt = v.perf_lt;
    csr_lt = v.csr_lt;
  }

  return_supervisor-IsValid : IsValid (return_supervisor s)
  unfolding return_supervisor
  return_supervisor-IsValid = record {
    pc_lt = v.csr_lt 0x141;
    gpr_lt = v.gpr_lt;
    gpr_zero = v.gpr_zero;
    isa_lt = v.isa_lt;
    priv_le = omega arith;
    status_lt = (set_sie_fields (spie s.status) s.status v.status_lt).3;
    inte_lt = v.inte_lt;
    intp_lt = v.intp_lt;
    inthw_lt = v.inthw_lt;
    trans_lt = v.trans_lt;
    perf_lt = v.perf_lt;
    csr_lt = v.csr_lt;
  }

  return_machine-IsValid : IsValid (return_machine s)
  unfolding return_machine
  return_machine-IsValid = record {
    pc_lt = v.csr_lt 0x341;
    gpr_lt = v.gpr_lt;
    gpr_zero = v.gpr_zero;
    isa_lt = v.isa_lt;
    priv_le = omega arith;
    status_lt = (set_mie_fields (mpie s.status) s.status v.status_lt).3;
    inte_lt = v.inte_lt;
    intp_lt = v.intp_lt;
    inthw_lt = v.inthw_lt;
    trans_lt = v.trans_lt;
    perf_lt = v.perf_lt;
    csr_lt = v.csr_lt;
  }

pub pc-IsValid :
    (s : TraceMachineState) (pc : ℕ) → IsValid s → pc < 2 ^ 32 → IsValid (record s { pc = pc })
pc-IsValid s pc v h = record {
  pc_lt = h;
  gpr_lt = v.gpr_lt;
  gpr_zero = v.gpr_zero;
  isa_lt = v.isa_lt;
  priv_le = v.priv_le;
  status_lt = v.status_lt;
  inte_lt = v.inte_lt;
  intp_lt = v.intp_lt;
  inthw_lt = v.inthw_lt;
  trans_lt = v.trans_lt;
  perf_lt = v.perf_lt;
  csr_lt = v.csr_lt;
}

masked-IsValid :
    (s : TraceMachineState) → IsValid s → IsValid (record s { pc = bit_and s.pc (pc_mask s.isa) })
masked-IsValid s v =
    pc-IsValid s (bit_and s.pc (pc_mask s.isa)) v
      (omega (arith, v.pc_lt, bit_and-le_left s.pc (pc_mask s.isa)))

pub trap_return-IsValid :
    (s : TraceMachineState) (from_priv : ℕ) → IsValid s → IsValid (trap_return s from_priv)
unfolding trap_return
trap_return-IsValid s from_priv v =
    let t =
      if from_priv == priv_user
      then return_user s
      else if from_priv == priv_supervisor
      then return_supervisor s
      else return_machine s in
    masked-IsValid t (
      if-IsValid (from_priv == priv_user) (return_user s) _ (return_user-IsValid s v) (
        if-IsValid (from_priv == priv_supervisor) (return_supervisor s) (return_machine s)
          (return_supervisor-IsValid s v) (return_machine-IsValid s v)))
