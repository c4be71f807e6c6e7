-- ===== src/Firmware/Timer.antt =====
-- The timer of the firmware (sbi/timer.c), and the rest of the set-up that sbi_entry does
-- (sbi/sbi.c): the delegation and the counters.
pub mod Event
pub mod Comparator
use revive.Common.{ℕ, ◌+◌, ◌^◌}
use revive.Hart.Exec.{Host, M, pure, ◌>>=◌, ◌>>◌}
use revive.Machine.Bus.{sim_clint_start}
use revive.Firmware.Platform.{
  mie, mip, medeleg, mideleg, mcounteren, csr_write, csr_set, csr_clear, io_write64, Compiler,
}
use revive.Firmware.Trap.{TrapContext, TrapHandler, Handlers, reg_mint_handler}

abbrev pub clint_mtimecmp_addr : ℕ
clint_mtimecmp_addr = sim_clint_start + 0x4000

abbrev pub clint_mtime_addr : ℕ
clint_mtime_addr = sim_clint_start + 0xbff8

module _ {S : Type 0} where
  unfoldable pub timer_handler : TrapHandler S
  timer_handler ctxt = do csr_clear mie (2 ^ 7); csr_set mip (2 ^ 5); pure ctxt

  unfoldable pub init_mdeleg : M S (Unit {0})
  init_mdeleg = do
    csr_write medeleg (2 ^ 0 + 2 ^ 3 + 2 ^ 8 + 2 ^ 12 + 2 ^ 13 + 2 ^ 15)
    csr_write mideleg (2 ^ 9 + 2 ^ 5 + 2 ^ 1)

  unfoldable pub init_counters : M S (Unit {0})
  init_counters = csr_write mcounteren 0xffffffff

module _ {S : Type 0} (host : Host S) (compiler : Compiler) where
  -- The registers after the comparator is written.
  unfoldable pub set_timer_event : ℕ → M S (Unit {0})
  set_timer_event mtimecmp = do
    io_write64 host compiler clint_mtimecmp_addr mtimecmp
    csr_clear mip (2 ^ 7)
    csr_clear mip (2 ^ 5)
    csr_set mie (2 ^ 7)

  unfoldable pub init_timer : Handlers S → M S (Handlers S)
  unfolding timer_handler
  init_timer t = do
    csr_clear mie (2 ^ 7)
    io_write64 host compiler clint_mtime_addr 0
    reg_mint_handler host compiler 7 timer_handler t
