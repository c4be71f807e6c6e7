-- ===== src/Firmware/Trap.antt =====
-- init_mtrap, the tables of handlers and dispatch_mtrap (sbi/trap.c), and `struct mtrap_context`
-- (sbi/sbi.h). A handler is a parameter; ecall.c and timer.c have the two that are registered.
pub mod Dispatch
use revive.Common.{
  ℕ, zero, suc, ◌+◌, ◌-◌, ◌*◌, ◌/◌, ◌%◌, ◌^◌, Bool, true, false, Option, none, some, List, [], ◌∷◌,
  ◌++◌, ◌==◌, ltb, leb, if◌then◌else◌, u32,
}
use revive.Hart.Exec.{Host, M, pure, fail, ◌>>=◌, ◌>>◌}
use revive.Firmware.Format.{number}
use revive.Firmware.Platform.{
  mstatus, medeleg, mideleg, mie, mtvec, mscratch, csr_write, csr_set, csr_clear, Compiler, panic,
}

-- The registers that the entry saved.
pub record TrapContext : Type 0 where
  pub gpr : ℕ → ℕ
  pub status : ℕ
  pub pc : ℕ
  pub cause : ℕ
  pub tval : ℕ

-- A handler changes the context that it is given.
abbrev pub TrapHandler : Type 0 → Type 0
TrapHandler S = TrapContext → M S TrapContext

-- The two tables, of 64 handlers each, where null is none.
pub record Handlers (S : Type 0) : Type 0 where
  pub mint_handlers : ℕ → Option (TrapHandler S)
  pub mexcept_handlers : ℕ → Option (TrapHandler S)

abbrev pub num_handlers : ℕ
num_handlers = 64

-- `table[code] = handler`
abbrev pub put {ℓ} : {A : Type ℓ} → (ℕ → Option A) → ℕ → A → ℕ → Option A
put table code handler i = if code == i then some handler else table i

module _ {S : Type 0} where
  -- `entry` and `context` are the addresses of _mtrap_entry and mtrap_context.
  unfoldable pub init_mtrap : ℕ → ℕ → M S (Unit {0})
  init_mtrap entry context = do
    csr_write mie 0
    csr_clear mstatus 0xf
    csr_write mtvec entry
    csr_write medeleg 0
    csr_write mideleg 0
    csr_write mscratch context

  unfoldable pub enable_mint : M S (Unit {0})
  enable_mint = csr_set mstatus 0x8

  unfoldable pub disable_mint : M S (Unit {0})
  disable_mint = csr_clear mstatus 0x8

  -- The handler of a cause: the highest bit tells an interrupt from an exception.
  unfoldable pub find_handler : Handlers S → ℕ → Option (TrapHandler S)
  find_handler t mcause =
      let code = u32 (mcause * 2) / 2 in
      let is_int = mcause / 2 ^ 31 in
      if is_int == 0
      then (if ltb code num_handlers then t.mexcept_handlers code else none)
      else (if ltb code num_handlers then t.mint_handlers code else none)

-- `"code %d must be < 64!\n"`
abbrev pub bad_code : List ℕ
bad_code =
    b'c' ∷ b'o' ∷ b'd' ∷ b'e' ∷ b' ' ∷ b'%' ∷ b'd' ∷ b' ' ∷ b'm' ∷ b'u' ∷ b's' ∷ b't' ∷ b' ' ∷ b'b'
    ∷ b'e' ∷ b' ' ∷ b'<' ∷ b' ' ∷ b'6' ∷ b'4' ∷ b'!' ∷ b'\n' ∷ []

-- `"[SBI] Unable to handle trap, cause: %x\n"`
abbrev pub unable : List ℕ
unable =
    b'[' ∷ b'S' ∷ b'B' ∷ b'I' ∷ b']' ∷ b' ' ∷ b'U' ∷ b'n' ∷ b'a' ∷ b'b' ∷ b'l' ∷ b'e' ∷ b' ' ∷ b't'
    ∷ b'o' ∷ b' ' ∷ b'h' ∷ b'a' ∷ b'n' ∷ b'd' ∷ b'l' ∷ b'e' ∷ b' ' ∷ b't' ∷ b'r' ∷ b'a' ∷ b'p'
    ∷ b',' ∷ b' ' ∷ b'c' ∷ b'a' ∷ b'u' ∷ b's' ∷ b'e' ∷ b':' ∷ b' ' ∷ b'%' ∷ b'x' ∷ b'\n' ∷ []

module _ {S : Type 0} (host : Host S) (compiler : Compiler) where
  unfoldable pub reg_mint_handler : ℕ → TrapHandler S → Handlers S → M S (Handlers S)
  reg_mint_handler code handler t =
      if leb num_handlers code
      then panic host compiler bad_code (number code ∷ [])
      else pure (record t { mint_handlers = put t.mint_handlers code handler })

  unfoldable pub reg_mexcept_handler : ℕ → TrapHandler S → Handlers S → M S (Handlers S)
  reg_mexcept_handler code handler t =
      if leb num_handlers code
      then panic host compiler bad_code (number code ∷ [])
      else pure (record t { mexcept_handlers = put t.mexcept_handlers code handler })

  unfoldable pub dispatch_mtrap : Handlers S → TrapHandler S
  dispatch_mtrap t ctxt = elim (find_handler t ctxt.cause) [
    | none ↦ panic host compiler unable (number ctxt.cause ∷ [])
    | some handler ↦ handler ctxt
  ]
