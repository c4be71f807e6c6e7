-- ===== src/Device/Examples.antt =====
-- The theorems of the devices at concrete states.
use revive.Common.{
  ◌+◌, ◌/◌, ◌%◌, ◌^◌, ◌≤◌, ◌≡◌, refl, ◌↔◌, inl, true, false, some, List, [], ◌∷◌, arith, done,
  length, get_elem?,
}
use revive.Hart.State.{TraceMachineState}
use revive.Hart.Exec.{signals}
use revive.Device.Clint.{
  CoreTimer, CoreLocalInterruptor, Call, new_timer, cycle, attach_core, mtimecmp_part,
}
use revive.Device.Clint
use revive.Device.Clint.Divider.{HasDivider, elapsed, clint_cycles, elapsed-clint_cycles}
use revive.Device.Clint.Registers.{mtimecmp_offset, ReadsAs, read_atomic-write_mtimecmp}
use revive.Device.Clint.Msip.{msip_offset, msip_call, read_atomic-write_msip}
use revive.Device.Clint.Line.{calls_to, ShowsTime, cycle-ShowsTime}
use revive.Device.Clint.Swapped.{TimeReads, write_atomic-time_swapped, write_atomic-mtimecmp_double}
use revive.Device.Uart.{new_uart, UniAsyncRxTx, tx_full}
use revive.Device.Uart.Queues.{
  Event, guest_write, guest_read, host_receive, host_send, run, acts, no_characters,
}
use revive.Device.Uart.Simulate.{Represents}
use revive.Device.Uart.Refine.{run-acts}
use revive.Device.Uart.Threads.{
  Threads, begin, Steps, start_here, then_step, write_room, storing, InOrder, Steps-InOrder,
}
use revive.Device.Control.{SimulationControl, new_control, overruns, write_atomic}
use revive.Device.Control.Pseudo.{IsValid, input_offset, output_offset}
use revive.Device.Control.Entries.{write_atomic-overruns}

-- A core whose comparator is set to the cycle 2, before the cycle 1.
abbrev armed_timer : CoreTimer
armed_timer = record { core = 0; mtimecmp_enabled = true; mtimecmp = 2; msip = 0 }

abbrev interruptor : CoreLocalInterruptor
interruptor = record {
  start = 0xe0000000;
  slots = armed_timer ∷ [];
  mtime = 1;
  mtime_cnt = 2;
  mtime_div = 3;
}

abbrev idle_hart : TraceMachineState
idle_hart = record {
  pc = 0x1000;
  gpr = λ i. 0;
  isa = 0x4;
  priv = 3;
  status = 0;
  inte = 0;
  intp = 0;
  inthw = 0;
  trans = 0;
  perf = λ i. 0;
  csr = λ i. 0;
}

elapsed-clint_cycles_example :
    (elapsed (clint_cycles 7 interruptor) ≡ elapsed interruptor + 7)
    × HasDivider (clint_cycles 7 interruptor)
elapsed-clint_cycles_example =
    elapsed-clint_cycles 7 interruptor
      record { div_pos = omega arith; div_lt = omega arith; cnt_lt = omega arith } (omega arith)

cycle-ShowsTime_example :
    (t' : CoreTimer) × (get_elem? (cycle interruptor).0.slots 0 ≡ some t')
    × (t'.mtimecmp ≡ 2)
    × ShowsTime
        (cycle interruptor).0.mtime
        t'
        (signals (calls_to 0 (cycle interruptor).1) idle_hart)
cycle-ShowsTime_example =
    cycle-ShowsTime interruptor 0 armed_timer idle_hart (omega arith) (λ e. omega (arith, e))
      (refl, tt) refl (inl refl)

read_atomic-write_mtimecmp_example :
    (c1 : CoreLocalInterruptor) × (c2 : CoreLocalInterruptor) × (Clint.write_atomic interruptor
        (0xe0000000 + mtimecmp_offset 0 0)
        4
        7
      ≡ done (c1, []))
    × (Clint.write_atomic c1 (0xe0000000 + mtimecmp_offset 0 1) 4 9 ≡ done (c2, []))
    × ReadsAs c2 0 7 9
read_atomic-write_mtimecmp_example =
    read_atomic-write_mtimecmp interruptor 0 7 9 armed_timer (omega arith) refl (omega arith)
      (omega arith) (omega arith)

read_atomic-write_msip_example :
    (c' : CoreLocalInterruptor) × (Clint.write_atomic interruptor (0xe0000000 + msip_offset 0) 4 3
      ≡ done (c', msip_call armed_timer 3 ∷ []))
    × (Clint.read_atomic c' (0xe0000000 + msip_offset 0) 4 ≡ done (3 % 2))
read_atomic-write_msip_example =
    read_atomic-write_msip interruptor 0 3 armed_timer (omega arith) refl

write_atomic-time_swapped_example :
    (c1 : CoreLocalInterruptor) × (c2 : CoreLocalInterruptor) × (Clint.write_atomic interruptor
        (0xe0000000 + 0xbff8)
        4
        5
      ≡ done (c1, []))
    × TimeReads c1 (1 % 2 ^ 32) 5
    × (Clint.write_atomic interruptor (0xe0000000 + 0xbffc) 4 5 ≡ done (c2, []))
    × TimeReads c2 5 (1 / 2 ^ 32)
write_atomic-time_swapped_example =
    write_atomic-time_swapped interruptor 5 (omega arith) (omega arith)

write_atomic-mtimecmp_double_example :
    (c' : CoreLocalInterruptor) × (Clint.write_atomic interruptor
        (0xe0000000 + mtimecmp_offset 0 0)
        8
        5
      ≡ done (c', []))
    × ReadsAs c' 0 (mtimecmp_part armed_timer 1) (5 % 2 ^ 32)
write_atomic-mtimecmp_double_example =
    write_atomic-mtimecmp_double interruptor 0 5 armed_timer (omega arith) refl

abbrev four_events : List Event
four_events = guest_write 1 65 ∷ host_send ∷ host_receive 66 ∷ guest_read 1 ∷ []

run-acts_example :
    (u' : UniAsyncRxTx) × (run four_events (new_uart 0xe5000000)
      ≡ done ((acts four_events no_characters).0, u'))
    × Represents (length four_events) u' (acts four_events no_characters).1
run-acts_example = run-acts four_events 0xe5000000 (omega arith)

-- The guest has found room for a character.
abbrev found_room : Threads
found_room = record (begin 0xe5000000) { writer = storing 65 }

room_at_begin : tx_full (begin 0xe5000000).uart ≡ false
unfolding begin new_uart
room_at_begin = refl

writer_at_begin : Steps (begin 0xe5000000) 1 found_room
unfolding begin
writer_at_begin = then_step start_here (write_room (begin 0xe5000000) 65 refl room_at_begin)

Steps-InOrder_example : InOrder 1 found_room
Steps-InOrder_example = Steps-InOrder 0xe5000000 1 found_room writer_at_begin (omega arith)

abbrev control : SimulationControl
control = new_control 0xf0000000

control-IsValid : IsValid control
unfolding new_control
control-IsValid = record { inputs_length = refl; outputs_length = refl }

write_atomic-overruns_example :
    ((write_atomic control (control.start + input_offset 4 40) 4 77 ≡ overruns) ↔ (32 ≤ 40))
    × ((write_atomic control (control.start + output_offset 4 40) 4 77 ≡ overruns) ↔ (32 ≤ 40))
write_atomic-overruns_example =
    write_atomic-overruns control 4 40 77 control-IsValid refl (omega arith)
