-- ===== src/Firmware/Timer/Comparator.antt =====
-- The comparator's store on the bus of the machine's devices.
use revive.Common.{
  ℕ, zero, suc, ◌+◌, ◌*◌, ◌/◌, ◌%◌, ◌^◌, ◌<◌, ◌≡◌, inl, inr, refl, ap, ◌∙◌, true, some, arith,
  Bool-cases, u32, done, get_elem?, set, get_elem?-set_self,
}
use revive.Common.Bits.Halves.{low_half-set, high_half-set}
use revive.Space.Range.{in_range}
use revive.Space.Dispatch.{find}
use revive.Space.Call
use revive.Device.Clint.{CoreTimer, set_mtimecmp}
use revive.Device.Clint.Registers.{mtimecmp_offset, write_half}
use revive.Device.Clint.Line.{calls_to}
use revive.Hart.Exec.{World, store, signals}
use revive.Machine.Bus.{SimulatedMachine, clint_range, ranges, write_device, bus, sim_clint_start}
use revive.Firmware.Platform.{io_write32, io_write64, Compiler}
use revive.Firmware.Timer.{clint_mtimecmp_addr, set_timer_event}
use revive.Firmware.Timer.Event.{>>=-done, digit, set_timer_event_arms}

-- The machine with its first comparator changed.
abbrev pub with_slot : World SimulatedMachine → CoreTimer → World SimulatedMachine
with_slot w t = record w {
  space = record (w.space) {
    interruptor = record (w.space.interruptor) { slots = set w.space.interruptor.slots 0 t };
  };
}

-- The interruptor stands at its address, and its first core's timer is `t`.
pub record HasSlot (w : World SimulatedMachine) (t : CoreTimer) : Type 0 where
  pub at : w.space.interruptor.start ≡ sim_clint_start
  pub slot : get_elem? w.space.interruptor.slots 0 ≡ some t

with_slot-HasSlot :
    (w : World SimulatedMachine) (t u : CoreTimer) → HasSlot w t → HasSlot (with_slot w u) u
with_slot-HasSlot w t u h = record {
  at = h.at;
  slot = get_elem?-set_self w.space.interruptor.slots 0 t u h.slot;
}

pub half_found :
    (half : ℕ) → half < 2 → find ranges (clint_mtimecmp_addr + 4 * half) 4 ≡ some clint_range
unfolding find in_range
half_found zero h = refl
half_found (suc zero) h = refl
half_found (suc (suc half)) h = absurd (omega (arith, h))

module _ (shift_count : ℕ → ℕ) (w : World SimulatedMachine) (t : CoreTimer) (h : HasSlot w t) where
  io_write32-half :
      (half v : ℕ)
      → half < 2
      → io_write32 (bus shift_count) (clint_mtimecmp_addr + 4 * half) v w
        ≡ done (tt, with_slot w (set_mtimecmp (u32 v) (half + 1) t).0)
  unfolding io_write32 store Call.write_atomic write_device signals calls_to
  io_write32-half half v b =
      let c = w.space.interruptor in
      let place : c.start + mtimecmp_offset 0 half ≡ clint_mtimecmp_addr + 4 * half =
        omega (arith, h.at) in
      let written = write_half c 0 half (omega arith) b t (u32 v) h.slot in
      rw (store, Call.write_atomic, half_found half b, write_device, (rw place at written)) refl

-- Both halves are set, in either order.
low_then_high :
    (t : CoreTimer) (v : ℕ)
    → t.mtimecmp < 2 ^ 64
    → v < 2 ^ 64
    → (set_mtimecmp (u32 (v / 2 ^ 32)) 2 (set_mtimecmp (u32 v) 1 t).0).0.mtimecmp ≡ v
unfolding set_mtimecmp
low_then_high t v ht hv =
    let low = t.mtimecmp / 2 ^ 32 * 2 ^ 32 + u32 v % 2 ^ 32 in
    rw (low_half-set t.mtimecmp (u32 v) ht, high_half-set low (u32 (v / 2 ^ 32)))
      (omega (arith, hv))

high_then_low :
    (t : CoreTimer) (v : ℕ)
    → v < 2 ^ 64
    → (set_mtimecmp (u32 v) 1 (set_mtimecmp (u32 (v / 2 ^ 32)) 2 t).0).0.mtimecmp ≡ v
unfolding set_mtimecmp
high_then_low t v hv =
    let high = u32 (v / 2 ^ 32) % 2 ^ 32 * 2 ^ 32 + t.mtimecmp % 2 ^ 32 in
    rw (high_half-set t.mtimecmp (u32 (v / 2 ^ 32)), low_half-set high (u32 v) (omega arith))
      (omega (arith, hv))

set_mtimecmp-enabled :
    (t : CoreTimer) (a pos : ℕ) → (set_mtimecmp a pos t).0.mtimecmp_enabled ≡ true
unfolding set_mtimecmp
set_mtimecmp-enabled t a pos = refl

-- The store of a comparator: the first core's timer is enabled with the new value.
io_write64-comparator :
    (shift_count : ℕ → ℕ) (compiler : Compiler) (w : World SimulatedMachine) (t : CoreTimer) (v : ℕ)
    → HasSlot w t
    → t.mtimecmp < 2 ^ 64
    → v < 2 ^ 64
    → (u : CoreTimer) × (w1 : World SimulatedMachine) × (io_write64
          (bus shift_count)
          compiler
          clint_mtimecmp_addr
          v
          w
        ≡ done (tt, w1))
      × HasSlot w1 u
      × (u.mtimecmp_enabled ≡ true)
      × (u.mtimecmp ≡ v)
      × (w1.hart ≡ w.hart)
unfolding io_write64
io_write64-comparator shift_count compiler w t v h ht hv =
    let host = bus shift_count in
    let addr = clint_mtimecmp_addr in
    let high = v / 2 ^ 32 in
    elim (Bool-cases compiler.low_first) [
      | inl low_first ↦
          let t1 = (set_mtimecmp (u32 v) 1 t).0 in
          let t2 = (set_mtimecmp (u32 high) 2 t1).0 in
          let w1 = with_slot w t1 in
          let h1 = with_slot-HasSlot w t t1 h in
          (
            t2,
            with_slot w1 t2,
            rw low_first (
                >>=-done (io_write32 host addr v) (λ _. io_write32 host (addr + 4) high) w tt w1
                  (io_write32-half shift_count w t h 0 v (omega arith))
                ∙ io_write32-half shift_count w1 t1 h1 1 high (omega arith)),
            with_slot-HasSlot w1 t1 t2 h1,
            set_mtimecmp-enabled t1 (u32 high) 2,
            low_then_high t v ht hv,
            refl,
          )
      | inr high_first ↦
          let t1 = (set_mtimecmp (u32 high) 2 t).0 in
          let t2 = (set_mtimecmp (u32 v) 1 t1).0 in
          let w1 = with_slot w t1 in
          let h1 = with_slot-HasSlot w t t1 h in
          (
            t2,
            with_slot w1 t2,
            rw high_first (
                >>=-done (io_write32 host (addr + 4) high) (λ _. io_write32 host addr v) w tt w1
                  (io_write32-half shift_count w t h 1 high (omega arith))
                ∙ io_write32-half shift_count w1 t1 h1 0 v (omega arith)),
            with_slot-HasSlot w1 t1 t2 h1,
            set_mtimecmp-enabled t1 (u32 v) 1,
            high_then_low t v hv,
            refl,
          )
    ]

-- On the bus of the machine's devices, with a first core attached and at the machine's level,
-- the next event below 2 ^ 64 is set, whichever half of it is stored first: the first core's
-- comparator is enabled and holds it, the supervisor's timer interrupt is not raised by
-- software, the machine's is enabled, and is raised by software exactly if its line of the
-- hardware is still up.
pub set_timer_event-comparator :
    (shift_count : ℕ → ℕ) (compiler : Compiler) (w : World SimulatedMachine) (t : CoreTimer) (v : ℕ)
    → HasSlot w t
    → t.mtimecmp < 2 ^ 64
    → v < 2 ^ 64
    → w.hart.priv ≡ 3
    → (u : CoreTimer) × (w' : World SimulatedMachine) × (set_timer_event
          (bus shift_count)
          compiler
          v
          w
        ≡ done (tt, w'))
      × HasSlot w' u
      × (u.mtimecmp_enabled ≡ true)
      × (u.mtimecmp ≡ v)
      × (digit 5 w'.hart.intp ≡ 0)
      × (digit 7 w'.hart.inte ≡ 1)
      × (digit 7 w'.hart.intp ≡ digit 7 w.hart.inthw)
set_timer_event-comparator shift_count compiler w t v h ht hv m =
    let (u, w1, stored, slot, enabled, value, same) =
      io_write64-comparator shift_count compiler w t v h ht hv in
    let (s, ran, five, seven, line) =
      set_timer_event_arms (bus shift_count) compiler v w w1 stored (ap (λ s. s.priv) same ∙ m) in
    (
      u,
      record w1 { hart = s },
      ran,
      record { at = slot.at; slot = slot.slot },
      enabled,
      value,
      five,
      seven,
      line ∙ ap (λ s. digit 7 s.inthw) same,
    )
