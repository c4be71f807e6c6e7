-- ===== src/Machine/Run/Terminate.antt =====
-- The guest's command to terminate, from its write on the bus to the end of the loop.
use revive.Common.{
  ℕ, ◌+◌, ◌^◌, ◌≤◌, ◌<◌, ◌≡◌, refl, ◌↔◌, ◌⊎◌, inl, inr, false, ◌&&◌, none, some, [], arith, leb,
  ◌!=◌, Bool-cases, u32, u64, done,
}
use revive.Space.Range.{in_range, offset_in}
use revive.Space.Dispatch.{find}
use revive.Space.Call
use revive.Device.Control.{SimulationControl, completed, terminate, Request}
use revive.Device.Control
use revive.Machine.Bus.{
  SimulatedMachine, stop_machine, serve, write_device, sim_ctrl, ranges, control_range,
  sim_ctrl_base,
}
use revive.Machine.Run.{Reason, termination_received, check}

-- `SIM_CTRL_TERM`
abbrev pub sim_ctrl_term : ℕ
sim_ctrl_term = 0xf000100c

term_found : find ranges sim_ctrl_term 4 ≡ some control_range
unfolding find in_range
term_found = refl

module _ (m : SimulatedMachine) (v : ℕ) (at : m.control.start ≡ sim_ctrl_base) where
  write_device-term :
      write_device sim_ctrl sim_ctrl_term 4 v m ≡ done (stop_machine m (u32 v) 0, [])
  unfolding write_device Control.write_atomic Control.write_at serve
  write_device-term =
      let offset : offset_in m.control.start sim_ctrl_term ≡ 0x100c = rw at refl in
      rw (write_device, Control.write_atomic, offset) refl

  write_atomic-term :
      Call.write_atomic write_device ranges sim_ctrl_term 4 v m
      ≡ done (stop_machine m (u32 v) 0, [])
  unfolding Call.write_atomic
  write_atomic-term = rw (Call.write_atomic, term_found) write_device-term

abbrev pub at_cycle : ℕ → SimulatedMachine → SimulatedMachine
at_cycle k m = record m { num_cycles = k }

none-some : (reason : Reason) → none ≡ some reason → ⊥
none-some reason e = cc

-- Below the most cycles, if there is a bound, `terminate` with a delay ends the loop from its
-- cycle on and not before.
pub check-stop_machine :
    (max_cycles code delay k : ℕ) (m : SimulatedMachine)
    → m.num_cycles + delay < 2 ^ 64
    → (max_cycles ≡ 0) ⊎ (k < max_cycles)
    → (check max_cycles (at_cycle k (stop_machine m code delay)) ≡ some (termination_received code))
      ↔ (m.num_cycles + delay ≤ k)
unfolding check stop_machine
check-stop_machine max_cycles code delay k m b h =
    let within : (max_cycles != 0 && leb max_cycles k) ≡ false = ground (arith, h) in
    let sum : u64 (m.num_cycles + delay) ≡ m.num_cycles + delay = omega (arith, b) in
    elim (Bool-cases (leb (m.num_cycles + delay) k)) [
      | inl t ↦ ((λ _. ground (arith, t)), (λ _. rw (within, sum, t) refl))
      | inr f ↦ (
        (λ e. absurd (none-some (termination_received code) (rw (within, sum, f) at e))),
        (λ l. absurd (ground (arith, f, l))),
      )
    ]

-- A write of a word on the bus to the register of the control device that terminates is
-- accepted, and the tests at the end of the same iteration then end the run with that word as
-- its code, if the most cycles are not reached there.
pub write_atomic-terminates :
    (max_cycles v : ℕ) (m : SimulatedMachine)
    → m.control.start ≡ sim_ctrl_base
    → m.num_cycles + 1 < 2 ^ 64
    → (max_cycles ≡ 0) ⊎ (m.num_cycles + 1 < max_cycles)
    → (m' : SimulatedMachine) × (Call.write_atomic write_device ranges sim_ctrl_term 4 v m
        ≡ done (m', []))
      × (check max_cycles (at_cycle (u64 (m.num_cycles + 1)) m')
          ≡ some (termination_received (u32 v)))
write_atomic-terminates max_cycles v m at b h =
    let next : u64 (m.num_cycles + 1) ≡ m.num_cycles + 1 = omega (arith, b) in
    (
      stop_machine m (u32 v) 0,
      write_atomic-term m v at,
      (check-stop_machine max_cycles (u32 v) 0 (u64 (m.num_cycles + 1)) m (omega (arith, b))
            (rw next h)).1
          (omega (arith, b)),
    )
