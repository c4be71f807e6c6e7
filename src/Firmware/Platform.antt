-- ===== src/Firmware/Platform.antt =====
-- What the firmware does to the machine: the macros of sbi/csr.h, the accesses of sbi/io.h and
-- sbi/uart.c, sim_term (sbi/sbi.c), and printf and panic over them. They are actions of the hart,
-- which runs at the machine's level and does not translate addresses there.
use revive.Common.{
  ℕ, ◌+◌, ◌-◌, ◌/◌, ◌^◌, Bool, none, some, List, [], ◌∷◌, if◌then◌else◌, u8, u32, bit_and, bit_or,
  not32, Outcome, done, panicked,
}
use revive.Hart.State.{TraceMachineState}
use revive.Hart.Csr.{read_csr, write_csr}
use revive.Hart.Exec.{Host, M, pure, fail, ◌>>=◌, ◌>>◌, attempt, load, store}
use revive.Machine.Bus.{sim_uart0_start, sim_ctrl_base}
use revive.Firmware.Format.{Arg, vprintf, Result, returned, undefined, unfinished}

abbrev pub mstatus : ℕ
mstatus = 0x300

abbrev pub medeleg : ℕ
medeleg = 0x302

abbrev pub mideleg : ℕ
mideleg = 0x303

abbrev pub mie : ℕ
mie = 0x304

abbrev pub mtvec : ℕ
mtvec = 0x305

abbrev pub mcounteren : ℕ
mcounteren = 0x306

abbrev pub mscratch : ℕ
mscratch = 0x340

abbrev pub mepc : ℕ
mepc = 0x341

abbrev pub mip : ℕ
mip = 0x344

-- A register's new value from its old one; the simulator panics where the access is refused.
unfoldable pub csr_change : ℕ → (ℕ → ℕ) → TraceMachineState → Outcome TraceMachineState
csr_change csr op s = elim (read_csr s csr) [
  | none ↦ panicked
  | some old ↦ elim (write_csr s csr (op old)) [ none ↦ panicked | some t ↦ done t ]
]

-- What the compiler decides: the bit that `0x1u << i` gives for 32 or more, and which half of a
-- 64-bit store goes first.
pub record Compiler : Type 0 where
  pub beyond : ℕ → ℕ
  pub low_first : Bool

module _ {S : Type 0} where
  unfoldable pub csr_write : ℕ → ℕ → M S (Unit {0})
  csr_write csr val =
      attempt (λ s. elim (write_csr s csr val) [ none ↦ panicked | some t ↦ done t ])

  unfoldable pub csr_set : ℕ → ℕ → M S (Unit {0})
  csr_set csr mask = attempt (csr_change csr (λ old. bit_or old mask))

  unfoldable pub csr_clear : ℕ → ℕ → M S (Unit {0})
  csr_clear csr mask = attempt (csr_change csr (λ old. bit_and old (not32 mask)))

module _ {S : Type 0} (host : Host S) where
  unfoldable pub io_write32 : ℕ → ℕ → M S (Unit {0})
  io_write32 addr val = store host addr 4 (u32 val)

  unfoldable pub io_write64 : Compiler → ℕ → ℕ → M S (Unit {0})
  io_write64 compiler addr val =
      if compiler.low_first
      then (io_write32 addr val >> io_write32 (addr + 4) (val / 2 ^ 32))
      else (io_write32 (addr + 4) (val / 2 ^ 32) >> io_write32 addr val)

  unfoldable pub uart_putchar : ℕ → M S (Unit {0})
  uart_putchar ch = store host sim_uart0_start 1 (u8 ch)

  -- A char has no sign.
  unfoldable pub uart_getchar : M S ℕ
  uart_getchar = do ch ← load host sim_uart0_start 1; pure (u8 ch)

  -- `SIM_CTRL_TERM`
  unfoldable pub sim_term : ℕ → M S (Unit {0})
  sim_term code = io_write32 (sim_ctrl_base + 0x1000 + 0xc) code

  unfoldable pub put_all : List ℕ → M S (Unit {0})
  put_all [] = pure tt
  put_all (c ∷ text) = uart_putchar c >> put_all text

  -- The text that is printed, after which an undefined call may do anything.
  unfoldable pub print_result : Result → M S (Unit {0})
  print_result (returned text len) = put_all text
  print_result (undefined text) = put_all text >> fail
  print_result unfinished = fail

  unfoldable pub printf : Compiler → List ℕ → List Arg → M S (Unit {0})
  printf compiler fmt args = print_result (vprintf compiler.beyond fmt args)

  -- The store ends the run before another instruction, and nothing follows it. The text that
  -- names the file and the condition is left out.
  unfoldable pub panic : {A : Type 0} → Compiler → List ℕ → List Arg → M S A
  panic compiler fmt args = do printf compiler fmt args; sim_term (2 ^ 32 - 1); fail
