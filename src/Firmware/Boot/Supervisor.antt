-- ===== src/Firmware/Boot/Supervisor.antt =====
-- The switch to the supervisor, and the writes of the set-up.
use revive.Common.{
  ℕ, ◌+◌, ◌%◌, ◌^◌, ◌<◌, ◌≡◌, refl, ◌∙◌, false, some, inl, inr, Bool-cases, arith, ltb, bit_and,
  not32, ◌!=◌, done, set_field,
}
use revive.Common.Bits.Masks.{bit_and-not32_3, bit_and-not32_1}
use revive.Hart.Status.{isa_c}
use revive.Hart.State.{TraceMachineState, write_gpr, update}
use revive.Hart.Csr.{write_csr, write_csr_file, read_csr, is_machine_csr_write, pc_mask}
use revive.Hart.Trap.{trap_return, return_machine}
use revive.Hart.Exec.{World, attempt, modify, ◌>>◌}
use revive.Firmware.Platform.{
  mstatus, medeleg, mideleg, mie, mtvec, mcounteren, mscratch, mepc, csr_write, csr_clear,
  csr_change,
}
use revive.Firmware.Timer.Event.{>>=-done}
use revive.Firmware.Returns.{Returns, Anything}
use revive.Firmware.Boot.{Image, start_supervisor, boot_supervisor}

-- A register that the machine's level may write.
abbrev pub Writes : ℕ → ℕ → Type 0
Writes csr v =
    (s : TraceMachineState)
    → s.priv ≡ 3
    → (t : TraceMachineState) × (write_csr s csr v ≡ some t) × (t.priv ≡ 3)

level : (s : TraceMachineState) → s.priv ≡ 3 → ltb s.priv 3 ≡ false
level s m = ground (arith, m)

module _ (v : ℕ) where
  write_mstatus :
      (s : TraceMachineState) → s.priv ≡ 3 → write_csr s mstatus v ≡ some (record s { status = v })
  unfolding write_csr
  write_mstatus s m = rw (write_csr, level s m) refl

  write_mepc :
      (s : TraceMachineState)
      → s.priv ≡ 3
      → write_csr s mepc v ≡ some (record s { csr = update s.csr 0x341 v })
  unfolding write_csr write_csr_file is_machine_csr_write
  write_mepc s m = rw (write_csr, level s m) refl

  pub Writes-mstatus : Writes mstatus v
  Writes-mstatus s m = (record s { status = v }, write_mstatus s m, m)

  pub Writes-mie : Writes mie v
  unfolding write_csr
  Writes-mie s m = (record s { inte = v }, rw (write_csr, level s m) refl, m)

  pub Writes-medeleg : Writes medeleg v
  unfolding write_csr write_csr_file is_machine_csr_write
  Writes-medeleg s m =
      (record s { csr = update s.csr medeleg v }, rw (write_csr, level s m) refl, m)

  pub Writes-mideleg : Writes mideleg v
  unfolding write_csr write_csr_file is_machine_csr_write
  Writes-mideleg s m =
      (record s { csr = update s.csr mideleg v }, rw (write_csr, level s m) refl, m)

  pub Writes-mtvec : Writes mtvec v
  unfolding write_csr write_csr_file is_machine_csr_write
  Writes-mtvec s m = (record s { csr = update s.csr mtvec v }, rw (write_csr, level s m) refl, m)

  pub Writes-mcounteren : Writes mcounteren v
  unfolding write_csr write_csr_file is_machine_csr_write
  Writes-mcounteren s m =
      (record s { csr = update s.csr mcounteren v }, rw (write_csr, level s m) refl, m)

  pub Writes-mscratch : Writes mscratch v
  unfolding write_csr write_csr_file is_machine_csr_write
  Writes-mscratch s m =
      (record s { csr = update s.csr mscratch v }, rw (write_csr, level s m) refl, m)

pub Returns-csr_write :
    {S : Type 0} (Ready : S → Type 0) (csr v : ℕ)
    → Writes csr v
    → Returns Ready (csr_write csr v) Anything
unfolding csr_write attempt
Returns-csr_write Ready csr v h w m =
    let (t, e, lvl) = h w.hart m.0 in
    (tt, record w { hart = t }, rw (attempt, e) refl, (lvl, m.1), tt)

pub Returns-csr_clear-mstatus :
    {S : Type 0} (Ready : S → Type 0) (mask : ℕ) → Returns Ready (csr_clear mstatus mask) Anything
unfolding csr_clear attempt csr_change read_csr
Returns-csr_clear-mstatus Ready mask w m =
    let status = bit_and w.hart.status (not32 mask) in
    (
      tt,
      record w { hart = record (w.hart) { status = status } },
      rw (attempt, csr_change, read_csr, level w.hart m.0, write_mstatus status w.hart m.0) refl,
      m,
      tt,
    )

-- An address of a word is kept by the mask of an exception program counter.
aligned : (isa pc : ℕ) → pc < 2 ^ 32 → pc % 4 ≡ 0 → bit_and pc (pc_mask isa) ≡ pc
aligned isa pc h a = elim (Bool-cases (isa_c isa != 0)) [
  | inl short ↦ rw short (omega (arith, bit_and-not32_1 pc h, a))
  | inr full ↦ rw full (omega (arith, bit_and-not32_3 pc h, a))
]

-- The supervisor's first state: its level, its image's address, and the hart's number and the tree
-- of the devices in a0 and a1.
pub record IsSupervisor (image : Image) (s : TraceMachineState) : Type 0 where
  pub priv : s.priv ≡ 1
  pub pc : s.pc ≡ image.vmlinux
  pub hart_id : s.gpr 10 ≡ 0
  pub devices : s.gpr 11 ≡ image.dtb

-- At the machine's level, the firmware starts the supervisor at its image, if that is aligned.
pub boot_supervisor-IsSupervisor :
    {S : Type 0} (image : Image) (w : World S)
    → w.hart.priv ≡ 3
    → image.vmlinux < 2 ^ 32
    → image.vmlinux % 4 ≡ 0
    → (s : TraceMachineState) × (boot_supervisor image w ≡ done (tt, record w { hart = s }))
      × IsSupervisor image s
unfolding boot_supervisor csr_write attempt modify start_supervisor trap_return return_machine
    write_gpr set_field
boot_supervisor-IsSupervisor image w m h a =
    let s1 = record (w.hart) { csr = update w.hart.csr 0x341 image.vmlinux } in
    let s2 = record s1 { status = 2 ^ 11 + 2 ^ 7 } in
    let s3 = start_supervisor image.dtb s2 in
    let e1 : csr_write mepc image.vmlinux w ≡ done (tt, record w { hart = s1 }) =
      rw (attempt, write_mepc image.vmlinux w.hart m) refl in
    let e2 : csr_write mstatus (2 ^ 11 + 2 ^ 7) (record w { hart = s1 })
        ≡ done (tt, record w { hart = s2 }) =
      rw (attempt, write_mstatus (2 ^ 11 + 2 ^ 7) s1 m) refl in
    (
      s3,
      >>=-done (csr_write mepc image.vmlinux)
            (λ _. csr_write mstatus (2 ^ 11 + 2 ^ 7) >> modify (start_supervisor image.dtb)) w tt
            (record w { hart = s1 }) e1
          ∙ >>=-done (csr_write mstatus (2 ^ 11 + 2 ^ 7)) (λ _. modify (start_supervisor image.dtb))
              (record w { hart = s1 }) tt (record w { hart = s2 }) e2,
      record {
        priv = refl;
        pc = aligned w.hart.isa image.vmlinux h a;
        hart_id = refl;
        devices = refl;
      },
    )
