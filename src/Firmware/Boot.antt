-- ===== src/Firmware/Boot.antt =====
-- sbi_entry and init_bss (sbi/sbi.c) and boot_supervisor (sbi/boot.c): the firmware from its entry
-- to the first instruction of the supervisor.
pub mod Tables
pub mod Supervisor
pub mod Bus
pub mod Entry
use revive.Common.{ℕ, zero, suc, ◌+◌, ◌-◌, ◌/◌, ◌^◌, none, List, [], ◌∷◌}
use revive.Hart.State.{TraceMachineState, write_gpr, priv_machine}
use revive.Hart.Trap.{trap_return}
use revive.Hart.Exec.{Host, M, pure, modify, ◌>>=◌, ◌>>◌}
use revive.Firmware.Platform.{mepc, mstatus, csr_write, io_write32, Compiler, printf}
use revive.Firmware.Trap.{Handlers, init_mtrap}
use revive.Firmware.Timer.{init_mdeleg, init_counters, init_timer}
use revive.Firmware.Ecall.{init_ecall}

-- What the linker and the compiler place: the zeroed data, the entry of the traps and their
-- context, the supervisor's image and the tree of the devices.
pub record Image : Type 0 where
  pub bss_start : ℕ
  pub bss_end : ℕ
  pub trap_entry : ℕ
  pub trap_context : ℕ
  pub vmlinux : ℕ
  pub dtb : ℕ

-- The tables before any handler is registered.
abbrev pub no_handlers : {S : Type 0} → Handlers S
no_handlers = record { mint_handlers = λ _. none; mexcept_handlers = λ _. none }

-- `"[SBI] Initialized\n"`
abbrev pub initialized : List ℕ
initialized =
    b'[' ∷ b'S' ∷ b'B' ∷ b'I' ∷ b']' ∷ b' ' ∷ b'I' ∷ b'n' ∷ b'i' ∷ b't' ∷ b'i' ∷ b'a' ∷ b'l' ∷ b'i'
    ∷ b'z' ∷ b'e' ∷ b'd' ∷ b'\n' ∷ []

-- The return to the supervisor's level, with the arguments in a0 to a3.
unfoldable pub start_supervisor : ℕ → TraceMachineState → TraceMachineState
start_supervisor dtb s =
    trap_return (write_gpr (write_gpr (write_gpr (write_gpr s 10 0) 11 dtb) 12 0) 13 0) priv_machine

unfoldable pub boot_supervisor : {S : Type 0} → Image → M S (Unit {0})
boot_supervisor image = do
  csr_write mepc image.vmlinux
  csr_write mstatus (2 ^ 11 + 2 ^ 7)
  modify (start_supervisor image.dtb)

module _ {S : Type 0} (host : Host S) where
  -- The loop of init_bss over the words that are left.
  unfoldable pub clear_words : ℕ → ℕ → M S (Unit {0})
  clear_words zero cur = pure tt
  clear_words (suc words) cur = io_write32 host cur 0 >> clear_words words (cur + 4)

  unfoldable pub init_bss : Image → M S (Unit {0})
  init_bss image = clear_words ((image.bss_end - image.bss_start + 3) / 4) image.bss_start

  -- The tables of handlers that the traps then use. The code behind the return is not reached.
  unfoldable pub sbi_entry : Compiler → Image → M S (Handlers S)
  sbi_entry compiler image = do
    init_bss image
    init_mtrap image.trap_entry image.trap_context
    init_mdeleg
    init_counters
    t ← init_ecall host compiler no_handlers
    t' ← init_timer host compiler t
    printf host compiler initialized []
    boot_supervisor image
    pure t'
