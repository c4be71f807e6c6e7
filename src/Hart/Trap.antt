-- ===== src/Hart/Trap.antt =====
-- Entry into and return from a trap: `calculateTrapHandlerBase`, `exceptEnter`, `trapReturn`,
-- `findFirstIntCode` and `interrupt`.
pub mod Entry
pub mod Valid
pub mod Return
pub mod Priority
pub mod Takeable
pub mod Pending
pub mod Total
use revive.Common.{
  ℕ, ◌+◌, ◌*◌, ◌^◌, Bool, true, false, ◌&&◌, ◌||◌, List, [], ◌∷◌, Outcome, done, panicked, bit_and,
  bit_or, not32, u32, ltb, leb, test_bits, ◌==◌, ◌!=◌, if◌then◌else◌,
}
use revive.Hart.Status.{
  uie, sie, mie, upie, spie, mpie, spp, mpp, set_uie, set_sie, set_mie, set_upie, set_spie,
  set_mpie, set_spp, set_mpp,
}
use revive.Hart.State.{TraceMachineState, update, priv_user, priv_supervisor, priv_machine}
use revive.Hart.Csr.{pc_mask}

unfoldable pub calculate_trap_handler_base : ℕ → Bool → ℕ → ℕ
calculate_trap_handler_base tvec is_int int_code =
    let mode = bit_and tvec 0x3 in
    let base = bit_and tvec (not32 0x3) in
    if mode == 0 || (if is_int then false else true) then base else u32 (base + int_code * 4)

-- The three register blocks that `exceptEnter` and `interrupt` write, one for each level. The
-- handler's address is read from the trap vector, which the writes above it leave alone.
unfoldable pub enter_user : TraceMachineState → ℕ → ℕ → Bool → ℕ → TraceMachineState
enter_user s cause tval is_int int_code = record s {
  csr = update (update (update s.csr 0x041 s.pc) 0x042 cause) 0x043 tval;
  status = set_uie 0 (set_upie (uie s.status) s.status);
  pc = calculate_trap_handler_base (s.csr 0x005) is_int int_code;
  priv = priv_user;
}

unfoldable pub enter_supervisor : TraceMachineState → ℕ → ℕ → Bool → ℕ → TraceMachineState
enter_supervisor s cause tval is_int int_code =
    let status = set_spp s.priv s.status in
    record s {
      csr = update (update (update s.csr 0x141 s.pc) 0x142 cause) 0x143 tval;
      status = set_sie 0 (set_spie (sie status) status);
      pc = calculate_trap_handler_base (s.csr 0x105) is_int int_code;
      priv = priv_supervisor;
    }

unfoldable pub enter_machine : TraceMachineState → ℕ → ℕ → Bool → ℕ → TraceMachineState
enter_machine s cause tval is_int int_code =
    let status = set_mpp s.priv s.status in
    record s {
      csr = update (update (update s.csr 0x341 s.pc) 0x342 cause) 0x343 tval;
      status = set_mie 0 (set_mpie (mie status) status);
      pc = calculate_trap_handler_base (s.csr 0x305) is_int int_code;
      priv = priv_machine;
    }

-- The two delegation tests of `exceptEnter`, `delegate_m` and `delegate_s` being CSRs 0x302, 0x102.
unfoldable pub delegates_to_user : TraceMachineState → ℕ → Bool
delegates_to_user s code =
    let delegate_mask = u32 (2 ^ code) in
    test_bits (bit_and delegate_mask (s.csr 0x302)) (s.csr 0x102) && s.priv == priv_user

unfoldable pub delegates_to_supervisor : TraceMachineState → ℕ → Bool
delegates_to_supervisor s code =
    let delegate_mask = u32 (2 ^ code) in
    test_bits delegate_mask (s.csr 0x302) && leb s.priv priv_supervisor

unfoldable pub except_enter : TraceMachineState → ℕ → ℕ → TraceMachineState
except_enter s code tval =
    if delegates_to_user s code
    then enter_user s code tval false 0
    else if delegates_to_supervisor s code
    then enter_supervisor s code tval false 0
    else enter_machine s code tval false 0

-- The registers of the level that returns; the last line of the method masks the address.
unfoldable pub return_user : TraceMachineState → TraceMachineState
return_user s = record s {
  status = set_uie (upie s.status) s.status;
  pc = s.csr 0x041;
  priv = priv_user;
}

unfoldable pub return_supervisor : TraceMachineState → TraceMachineState
return_supervisor s =
    let status = set_sie (spie s.status) s.status in
    record s { status = status; pc = s.csr 0x141; priv = spp status }

unfoldable pub return_machine : TraceMachineState → TraceMachineState
return_machine s =
    let status = set_mie (mpie s.status) s.status in
    record s { status = status; pc = s.csr 0x341; priv = mpp status }

unfoldable pub trap_return : TraceMachineState → ℕ → TraceMachineState
trap_return s from_priv =
    let t =
      if from_priv == priv_user
      then return_user s
      else if from_priv == priv_supervisor
      then return_supervisor s
      else return_machine s in
    record t { pc = bit_and t.pc (pc_mask t.isa) }

-- `int_prio` beside `int_prio_code`
abbrev pub int_prio : List (ℕ × ℕ)
int_prio =
    (0x800, 11)
    ∷ (0x8, 3)
    ∷ (0x80, 7)
    ∷ (0x200, 9)
    ∷ (0x2, 1)
    ∷ (0x20, 5)
    ∷ (0x100, 8)
    ∷ (0x1, 0)
    ∷ (0x10, 4)
    ∷ []

-- the loop of `findFirstIntCode`
unfoldable pub first_int_code : List (ℕ × ℕ) → ℕ → Outcome ℕ
first_int_code [] mask = panicked
first_int_code ((code, prio_code) ∷ rest) mask =
    if test_bits code mask then done prio_code else first_int_code rest mask

unfoldable pub find_first_int_code : ℕ → Outcome ℕ
find_first_int_code mask = first_int_code int_prio mask

abbrev pub with_code : Outcome ℕ → (ℕ → TraceMachineState) → Outcome TraceMachineState
with_code (done code) k = done (k code)
with_code panicked k = panicked

-- `int_mask` and its split by the two delegation registers
unfoldable pub int_mask : TraceMachineState → ℕ
int_mask s = bit_and s.inte (bit_or s.intp s.inthw)

unfoldable pub int_mask_m : TraceMachineState → ℕ
int_mask_m s = bit_and (int_mask s) (not32 (s.csr 0x303))

unfoldable pub int_mask_s : TraceMachineState → ℕ
int_mask_s s = bit_and (bit_and (int_mask s) (s.csr 0x303)) (not32 (s.csr 0x103))

unfoldable pub int_mask_u : TraceMachineState → ℕ
int_mask_u s = bit_and (bit_and (int_mask s) (s.csr 0x303)) (s.csr 0x103)

-- The three guards of `interrupt`. The last one asks for the supervisor's enable bit.
unfoldable pub machine_takes : TraceMachineState → Bool
machine_takes s = int_mask_m s != 0 && (ltb s.priv priv_machine || mie s.status != 0)

unfoldable pub supervisor_takes : TraceMachineState → Bool
supervisor_takes s =
    int_mask_s s != 0
    && (ltb s.priv priv_supervisor || (s.priv == priv_supervisor && sie s.status != 0))

unfoldable pub user_takes : TraceMachineState → Bool
user_takes s = int_mask_u s != 0 && s.priv == priv_user && sie s.status != 0

unfoldable pub interrupt : TraceMachineState → Outcome TraceMachineState
interrupt s =
    if machine_takes s
    then with_code (find_first_int_code (int_mask_m s))
        (λ code. enter_machine s (bit_or 0x80000000 code) 0 true code)
    else if supervisor_takes s
    then with_code (find_first_int_code (int_mask_s s))
        (λ code. enter_supervisor s (bit_or 0x80000000 code) 0 true code)
    else if user_takes s
    then with_code (find_first_int_code (int_mask_u s))
        (λ code. enter_user s (bit_or 0x80000000 code) 0 true code)
    else done s
