-- ===== src/Firmware/Ecall.antt =====
-- The environment calls (sbi/ecall.c) and their numbers (sbi/sbi.h).
pub mod Serves
pub mod Answers
use revive.Common.{
  ℕ, zero, suc, ◌+◌, ◌-◌, ◌*◌, ◌/◌, ◌%◌, ◌^◌, Bool, true, false, ◌||◌, List, [], ◌∷◌, ◌++◌, ◌==◌,
  ◌!=◌, leb, bit_or, if◌then◌else◌, u32, bit_and,
}
use revive.Hart.State.{update}
use revive.Hart.Exec.{Host, M, pure, ◌>>=◌, ◌>>◌}
use revive.Firmware.Format.{number}
use revive.Firmware.Platform.{Compiler, uart_putchar, uart_getchar, printf}
use revive.Firmware.Trap.{TrapContext, TrapHandler, Handlers, reg_mexcept_handler}
use revive.Firmware.Timer.{set_timer_event}

-- An int is the word that stands for it.
abbrev pub sbi_success : ℕ
sbi_success = 0

abbrev pub sbi_err_not_supported : ℕ
sbi_err_not_supported = 2 ^ 32 - 2

abbrev pub sbi_ext_base : ℕ
sbi_ext_base = 0x10

abbrev pub sbi_ext_timer : ℕ
sbi_ext_timer = 0x54494d45

abbrev pub sbi_ext_ipi : ℕ
sbi_ext_ipi = 0x735049

abbrev pub sbi_ext_rfence : ℕ
sbi_ext_rfence = 0x52464e43

abbrev pub sbi_ext_hsm : ℕ
sbi_ext_hsm = 0x48534d

abbrev pub sbi_ext_legacy_set_timer : ℕ
sbi_ext_legacy_set_timer = 0x0

abbrev pub sbi_ext_legacy_putchar : ℕ
sbi_ext_legacy_putchar = 0x1

abbrev pub sbi_ext_legacy_getchar : ℕ
sbi_ext_legacy_getchar = 0x2

-- `"[SBI] Unimpl ext: %x, func: %x\n"`
abbrev pub unimplemented : List ℕ
unimplemented =
    b'[' ∷ b'S' ∷ b'B' ∷ b'I' ∷ b']' ∷ b' ' ∷ b'U' ∷ b'n' ∷ b'i' ∷ b'm' ∷ b'p' ∷ b'l' ∷ b' ' ∷ b'e'
    ∷ b'x' ∷ b't' ∷ b':' ∷ b' ' ∷ b'%' ∷ b'x' ∷ b',' ∷ b' ' ∷ b'f' ∷ b'u' ∷ b'n' ∷ b'c' ∷ b':'
    ∷ b' ' ∷ b'%' ∷ b'x' ∷ b'\n' ∷ []

-- The error and the value that a call gives.
abbrev pub Answer : Type 0
Answer = ℕ × ℕ

module _ {S : Type 0} where
  -- get_spec_ver, get_impl_id, get_impl_ver, get_probe_ext, get_mvendorid, get_marchid and
  -- get_mimpid: each gives 0.
  unfoldable pub get_base : M S Answer
  get_base = pure (sbi_success, 0)

  -- send_ipi, clear_ipi, the seven remote fences, hart_start, hart_shutdown and hart_status.
  unfoldable pub not_supported : M S Answer
  not_supported = pure (sbi_err_not_supported, 0)

-- The answer is stored, and the program goes on behind the call.
unfoldable pub answer_call : TrapContext → Answer → TrapContext
answer_call ctxt (err, value) = record ctxt {
  gpr = update (update ctxt.gpr 10 err) 11 value;
  pc = u32 (ctxt.pc + 4);
}

module _ {S : Type 0} (host : Host S) where
  unfoldable pub console_putchar : TrapContext → M S Answer
  console_putchar ctxt = do
    if ctxt.gpr 10 != 0 then uart_putchar host (ctxt.gpr 10) else pure tt
    pure (sbi_success, 0)

  -- The character is the error, and - 1 if there is none.
  unfoldable pub console_getchar : M S Answer
  console_getchar = do
    ch ← uart_getchar host
    pure ((if ch != 0 then bit_and ch 0xff else 2 ^ 32 - 1), 0)

module _ {S : Type 0} (host : Host S) (compiler : Compiler) where
  unfoldable pub set_timer : TrapContext → M S Answer
  set_timer ctxt = do
    set_timer_event host compiler (bit_or (ctxt.gpr 11 * 2 ^ 32) (ctxt.gpr 10))
    pure (sbi_success, 0)

  -- The switch on the extension and on the function.
  unfoldable pub serve_call : ℕ → ℕ → TrapContext → M S Answer
  serve_call ext_id func_id ctxt =
      if ext_id == sbi_ext_base
      then (if leb func_id 6 then get_base else not_supported)
      else if ext_id == sbi_ext_timer
      then set_timer ctxt
      else if ext_id == sbi_ext_ipi || ext_id == sbi_ext_rfence || ext_id == sbi_ext_hsm
      then not_supported
      else if ext_id == sbi_ext_legacy_set_timer
      then set_timer ctxt
      else if ext_id == sbi_ext_legacy_putchar
      then console_putchar host ctxt
      else if ext_id == sbi_ext_legacy_getchar
      then console_getchar host
      else not_supported

  unfoldable pub ecall_handler : TrapHandler S
  ecall_handler ctxt = do
    let ext_id = ctxt.gpr 17
    let func_id = ctxt.gpr 16
    answer ← serve_call ext_id func_id ctxt
    if answer.0 == sbi_err_not_supported
        then printf host compiler unimplemented (number ext_id ∷ number func_id ∷ [])
        else pure tt
    pure (answer_call ctxt answer)

  unfoldable pub init_ecall : Handlers S → M S (Handlers S)
  unfolding ecall_handler
  init_ecall t = do
    t' ← reg_mexcept_handler host compiler 9 ecall_handler t
    reg_mexcept_handler host compiler 11 ecall_handler t'
