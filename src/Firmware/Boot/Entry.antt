-- ===== src/Firmware/Boot/Entry.antt =====
-- The firmware from its entry to the supervisor.
use mathlib.Core.Path.{subst}
use revive.Common.{
  ℕ, zero, suc, ◌+◌, ◌-◌, ◌*◌, ◌/◌, ◌%◌, ◌^◌, ◌<◌, ◌≡◌, sym, List, [], ◌∷◌, arith, u32, done,
}
use revive.Hart.Exec.{Host, World, pure, ◌>>◌}
use revive.Firmware.Format.{vprintf, returned}
use revive.Firmware.Format.Pieces.{Piece, literal, shown_all, counted_all, ArePieces}
use revive.Firmware.Format.Render.{vprintf-pieces}
use revive.Firmware.Platform.{
  medeleg, mideleg, mie, mtvec, mcounteren, mscratch, io_write32, Compiler, printf, print_result,
}
use revive.Firmware.Returns.{
  Returns, IsReady, Anything, Accepts, IsResponsive, Returns-pure, Returns-then, Returns-store,
  Returns-put_all, Ends, Ends-bind, Ends-then,
}
use revive.Firmware.Timer.Event.{>>=-done}
use revive.Firmware.Trap.{Handlers, init_mtrap}
use revive.Firmware.Timer.{init_mdeleg, init_counters}
use revive.Firmware.Boot.{Image, initialized, boot_supervisor, clear_words, init_bss, sbi_entry}
use revive.Firmware.Boot.Tables.{
  booted, Dispatches, booted-Dispatches, Returns-init_ecall, Returns-init_timer,
}
use revive.Firmware.Boot.Supervisor.{
  Writes-mie, Writes-medeleg, Writes-mideleg, Writes-mtvec, Writes-mcounteren, Writes-mscratch,
  Returns-csr_write, Returns-csr_clear-mstatus, IsSupervisor, boot_supervisor-IsSupervisor,
}

-- The words of the zeroed data are in memory that accepts them.
abbrev pub ClearsBss : {S : Type 0} → (S → Type 0) → Host S → Image → Type 0
ClearsBss Ready host image =
    (k : ℕ)
    → image.bss_start + 4 * k < image.bss_end
    → Accepts Ready host (image.bss_start + 4 * k) 4

-- The pieces of the message.
abbrev message : List ℕ → List Piece
message [] = []
message (c ∷ cs) = literal c ∷ message cs

module _ {S : Type 0} (Ready : S → Type 0) (host : Host S) (compiler : Compiler)
    (image : Image) where
  -- The loop, from word `k` on.
  Returns-clear_words :
      (words k : ℕ)
      → ClearsBss Ready host image
      → (0 < words → image.bss_start + 4 * k + 4 * words < image.bss_end + 4)
      → Returns Ready (clear_words host words (image.bss_start + 4 * k)) Anything
  unfolding clear_words io_write32
  Returns-clear_words zero k c e = Returns-pure Ready Anything tt tt
  Returns-clear_words (suc words) k c e =
      let inside : image.bss_start + 4 * k + 4 * suc words < image.bss_end + 4 = e (omega arith) in
      let next : image.bss_start + 4 * (k + 1) ≡ image.bss_start + 4 * k + 4 = omega arith in
      Returns-then Ready Anything _ _
        (Returns-store Ready host (image.bss_start + 4 * k) 4 (u32 0) (c k (omega (arith, inside))))
        (rw next at (Returns-clear_words words (k + 1) c (λ _. omega (arith, inside))))

  Returns-init_bss : ClearsBss Ready host image → Returns Ready (init_bss host image) Anything
  unfolding init_bss
  Returns-init_bss c =
      let first : image.bss_start + 4 * 0 ≡ image.bss_start = omega arith in
      rw first at (
        Returns-clear_words ((image.bss_end - image.bss_start + 3) / 4) 0 c (λ h. omega (arith, h)))

  Returns-init_mtrap : (entry context : ℕ) → Returns Ready (init_mtrap entry context) Anything
  unfolding init_mtrap
  Returns-init_mtrap entry context =
      Returns-then Ready Anything _ _ (Returns-csr_write Ready mie 0 (Writes-mie 0)) (
        Returns-then Ready Anything _ _ (Returns-csr_clear-mstatus Ready 0xf) (
          Returns-then Ready Anything _ _ (Returns-csr_write Ready mtvec entry (Writes-mtvec entry))
            (Returns-then Ready Anything _ _ (Returns-csr_write Ready medeleg 0 (Writes-medeleg 0))
              (Returns-then Ready Anything _ _
                (Returns-csr_write Ready mideleg 0 (Writes-mideleg 0))
                (Returns-csr_write Ready mscratch context (Writes-mscratch context))))))

  Returns-init_mdeleg : Returns Ready init_mdeleg Anything
  unfolding init_mdeleg
  Returns-init_mdeleg =
      Returns-then Ready Anything _ _ (Returns-csr_write Ready medeleg _ (Writes-medeleg _))
        (Returns-csr_write Ready mideleg _ (Writes-mideleg _))

  Returns-init_counters : Returns Ready init_counters Anything
  unfolding init_counters
  Returns-init_counters =
      Returns-csr_write Ready mcounteren 0xffffffff (Writes-mcounteren 0xffffffff)

  Returns-initialized :
      IsResponsive Ready host → Returns Ready (printf host compiler initialized []) Anything
  unfolding printf print_result
  Returns-initialized r =
      let ps = message initialized in
      let plain : ArePieces ps = search tt in
      let printed : vprintf compiler.beyond initialized []
          ≡ returned (shown_all compiler.beyond ps) (counted_all ps) =
        vprintf-pieces compiler.beyond ps plain in
      rw printed (Returns-put_all Ready host r (shown_all compiler.beyond ps))

  -- The supervisor runs, with the tables of the firmware behind it.
  abbrev Started : Handlers S → World S → Type 0
  Started t w = IsSupervisor image w.hart × Dispatches host compiler t

  Ends-boot :
      (t : Handlers S)
      → image.vmlinux < 2 ^ 32
      → image.vmlinux % 4 ≡ 0
      → t ≡ booted host compiler
      → Ends Ready (boot_supervisor image >> pure t) Started
  unfolding pure
  Ends-boot t h a e w ready =
      let (s, ran, supervisor) = boot_supervisor-IsSupervisor image w ready.0 h a in
      (
        t,
        record w { hart = s },
        >>=-done (boot_supervisor image) (λ _. pure t) w tt (record w { hart = s }) ran,
        (supervisor, subst (Dispatches host compiler) (sym e) (booted-Dispatches host compiler)),
      )

  Ends-sbi_entry :
      IsResponsive Ready host
      → ClearsBss Ready host image
      → image.vmlinux < 2 ^ 32
      → image.vmlinux % 4 ≡ 0
      → Ends Ready (sbi_entry host compiler image) Started
  unfolding sbi_entry
  Ends-sbi_entry r c h a = Ends-then Ready Started _ _ (Returns-init_bss c) (
      Ends-then Ready Started _ _ (Returns-init_mtrap image.trap_entry image.trap_context) (
        Ends-then Ready Started _ _ Returns-init_mdeleg (
          Ends-then Ready Started _ _ Returns-init_counters (
            Ends-bind Ready _ Started _ _ (Returns-init_ecall Ready host compiler) (λ t e.
              Ends-bind Ready _ Started _ _ (Returns-init_timer Ready host compiler r t e) (λ t' e'.
                Ends-then Ready Started _ _ (Returns-initialized r) (Ends-boot t' h a e')))))))

-- From its entry at the machine's level, on a machine whose devices and zeroed data answer, the
-- firmware starts the supervisor at its aligned image below 2 ^ 32, with 0 in a0 and the tree of
-- the devices in a1, and leaves tables in which the environment calls of the supervisor and of
-- the machine and the machine's timer have their handlers and every other cause below 2 ^ 32
-- panics.
pub sbi_entry-IsSupervisor :
    {S : Type 0} (Ready : S → Type 0) (host : Host S) (compiler : Compiler) (image : Image)
    → IsResponsive Ready host
    → ClearsBss Ready host image
    → image.vmlinux < 2 ^ 32
    → image.vmlinux % 4 ≡ 0
    → (w : World S) → IsReady Ready w
    → (t : Handlers S) × (w' : World S) × (sbi_entry host compiler image w ≡ done (t, w'))
      × IsSupervisor image w'.hart
      × Dispatches host compiler t
sbi_entry-IsSupervisor Ready host compiler image r c h a w ready =
    let (t, w', e, s) = Ends-sbi_entry Ready host compiler image r c h a w ready in
    (t, w', e, s.0, s.1)
