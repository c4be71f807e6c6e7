-- ===== src/Machine/Bus/Map.antt =====
-- The map of the devices, and what the bus gives to a hart.
use revive.Common.{
  ℕ, ◌+◌, ◌^◌, ◌<◌, bit_and, ◌≡◌, refl, inl, Option, none, some, List, [], arith, ◌==◌, ◌!=◌,
  Outcome, done, panicked, if_holds, OnDone, on_done, on_panicked, OnDone-if, get_elem?, set,
}
use revive.Hart.Valid.{SignalFits}
use revive.Hart.Exec.Keeps.{IsHost, AllFit, Sends}
use revive.Space.Range.{offset_in, AddressRange, overlap_range}
use revive.Space.Dispatch.{IsProper, IsSpace, add_range, insert_range, overlaps_any}
use revive.Space.Call.{as_host-IsHost}
use revive.Space.Memory.{MainMemory}
use revive.Space.Memory
use revive.Device.Clint.{
  CoreLocalInterruptor, CoreTimer, Call, write_at, write_mtime, write_mtimecmp, write_msip,
  change_slot, set_msip, set_mtimecmp, int_machine_software,
}
use revive.Device.Clint
use revive.Device.Clint.Line.{calls_to}
use revive.Device.Uart.{UniAsyncRxTx}
use revive.Device.Uart
use revive.Device.Control.{SimulationControl, Access, completed, panics, overruns, Request}
use revive.Device.Control
use revive.Machine.Bus.{
  Device, main_memory, sim_ctrl, clint, uart0, SimulatedMachine, add_ranges, ranges, serve,
  write_device, bus, methods,
}

-- The constructor's calls of `addRange` are accepted.
pub add_ranges-ranges : add_ranges ≡ done ranges
unfolding add_ranges add_range overlaps_any insert_range overlap_range
add_ranges-ranges = refl

pub ranges-IsSpace : IsSpace ranges
ranges-IsSpace = (
  proper (omega arith) (omega arith),
  (
    (inl (omega arith), (inl (omega arith), (inl (omega arith), tt))),
    (
      proper (omega arith) (omega arith),
      (
        (inl (omega arith), (inl (omega arith), tt)),
        (
          proper (omega arith) (omega arith),
          ((inl (omega arith), tt), (proper (omega arith) (omega arith), (tt, tt))),
        ),
      ),
    ),
  ),
)
  where
    proper : {r : AddressRange Device} → r.start + r.size < 2 ^ 64 → 0 < r.size → IsProper r
    proper a b = record { bounded = record { end_lt = a }; has_bytes = b }

-- The signals of the interruptor's writes fit.
Fits : CoreLocalInterruptor × List Call → Type 0
Fits r = AllFit (calls_to 0 r.1)

change_slot-Fits :
    (c : CoreLocalInterruptor) (idx : ℕ) (change : CoreTimer → CoreTimer × List Call)
    → ((t : CoreTimer) → AllFit (calls_to 0 (change t).1))
    → Fits (change_slot c idx change)
unfolding Fits change_slot calls_to
change_slot-Fits c idx change h = go (get_elem? c.slots idx)
  where
    go :
        (o : Option CoreTimer)
        → Fits (elim o [
          | none ↦ (c, [])
          | some t ↦ (record c { slots = set c.slots idx (change t).0 }, (change t).1)
        ])
    go none = tt
    go (some t) = h t

write_mtimecmp-Fits : (c : CoreLocalInterruptor) (idx v pos : ℕ) → Fits (write_mtimecmp c idx v pos)
unfolding write_mtimecmp set_mtimecmp calls_to
write_mtimecmp-Fits c idx v pos = change_slot-Fits c idx (set_mtimecmp v pos) (λ t. tt)

set_msip-fits : (v : ℕ) (t : CoreTimer) → AllFit (calls_to 0 (set_msip v t).1)
unfolding set_msip calls_to
set_msip-fits v t =
    if_holds AllFit (t.core == 0) _ _
      (λ _. (if_holds SignalFits (bit_and v 1 != 0) _ _ (λ _. omega arith) (λ _. omega arith), tt))
      (λ _. tt)

write_msip-Fits : (c : CoreLocalInterruptor) (idx v : ℕ) → Fits (write_msip c idx v)
unfolding write_msip
write_msip-Fits c idx v = change_slot-Fits c idx (set_msip v) (set_msip-fits v)

write_mtime-Fits : (c : CoreLocalInterruptor) (v : ℕ) → Fits (write_mtime c v)
unfolding Fits write_mtime calls_to
write_mtime-Fits c v = tt

quiet-Fits : (c : CoreLocalInterruptor) → Fits (c, [])
unfolding Fits calls_to
quiet-Fits c = tt

ruleset register_writes = (
  on_done, on_panicked, OnDone-if, write_mtimecmp-Fits, write_msip-Fits, write_mtime-Fits,
  quiet-Fits,
)

write_at-Fits :
    (c : CoreLocalInterruptor) (offset size v : ℕ) → OnDone Fits (write_at c offset size v)
unfolding write_at
write_at-Fits c offset size v = search register_writes depth 30

write_device-fits :
    (d : Device) (addr size v : ℕ) (m : SimulatedMachine)
    → OnDone (Sends AllFit) (write_device d addr size v m)
unfolding write_device Clint.write_atomic Fits
write_device-fits main_memory addr size v m = go (Memory.write_atomic m.memory addr size v)
  where
    go :
        (o : Outcome MainMemory)
        → OnDone
            (Sends AllFit)
            (elim o [ done memory ↦ done (record m { memory = memory }, []) | panicked ↦ panicked ])
    go (done memory) = on_done tt
    go panicked = on_panicked
write_device-fits sim_ctrl addr size v m = go (Control.write_atomic m.control addr size v)
  where
    served :
        (o : Outcome SimulatedMachine)
        → OnDone (Sends AllFit) (elim o [ done m' ↦ done (m', []) | panicked ↦ panicked ])
    served (done m') = on_done tt
    served panicked = on_panicked

    go :
        (o : Access (SimulationControl × Request))
        → OnDone (Sends AllFit) (elim o [
          | completed (c, request) ↦ (elim (serve request (record m { control = c })) [
            | done m' ↦ done (m', [])
            | panicked ↦ panicked
          ])
          | panics ↦ panicked
          | overruns ↦ panicked
        ])
    go (completed (c, request)) = served (serve request (record m { control = c }))
    go panics = on_panicked
    go overruns = on_panicked
write_device-fits clint addr size v m =
    go (Clint.write_atomic m.interruptor addr size v)
      (write_at-Fits m.interruptor (offset_in m.interruptor.start addr) size v)
  where
    go :
        (o : Outcome (CoreLocalInterruptor × List Call))
        → OnDone Fits o
        → OnDone (Sends AllFit) (elim o [
          | done (c, calls) ↦ done (record m { interruptor = c }, calls_to 0 calls)
          | panicked ↦ panicked
        ])
    go _ (on_done f) = on_done f
    go _ on_panicked = on_panicked
write_device-fits uart0 addr size v m = go (Uart.write_atomic m.uart addr size v)
  where
    go :
        (o : Outcome UniAsyncRxTx)
        → OnDone
            (Sends AllFit)
            (elim o [ done u ↦ done (record m { uart = u }, []) | panicked ↦ panicked ])
    go (done u) = on_done tt
    go panicked = on_panicked

-- The bus is what a hart asks of its host.
pub bus-IsHost : (shift_count : ℕ → ℕ) → IsHost (bus shift_count)
bus-IsHost shift_count = as_host-IsHost methods ranges shift_count write_device-fits
