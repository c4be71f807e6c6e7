-- ===== src/Firmware/Examples.antt =====
-- The theorems of the firmware at concrete values.
use revive.Common.{
  ℕ, ◌+◌, ◌-◌, ◌/◌, ◌%◌, ◌^◌, ◌≡◌, refl, true, false, List, [], ◌∷◌, ◌++◌, arith, done, ◌==◌,
  if◌then◌else◌,
}
use revive.Hart.State.{TraceMachineState}
use revive.Hart.Trap.{int_mask_m, int_mask_s}
use revive.Hart.Exec.{World}
use revive.Device.Clint.{CoreTimer}
use revive.Device.Uart.{new_uart}
use revive.Device.Control.{new_control}
use revive.Machine.Bus.{SimulatedMachine, sim_ctrl_base, bus}
use revive.Firmware.Divide.{div_u32, div_u64}
use revive.Firmware.Divide.Long.{div_u32_lem, div_u64_lem}
use revive.Firmware.Digits.{u32_to_dec, dec_loop}
use revive.Firmware.Print.{print_u32, print_u64, print_number, print_digits, significant}
use revive.Firmware.Print.Numeral.{Shows, print_u64-Shows}
use revive.Firmware.Format.{pointer, vprintf, returned, undefined, number}
use revive.Firmware.Format.Pieces.{
  Piece, literal, percent, numeral, word, double, format_of, arguments, shown_all, counted_all,
}
use revive.Firmware.Format.Render.{vprintf-pieces}
use revive.Firmware.Format.Scan.{Accepts, asked, asks, plain}
use revive.Firmware.Format.Total.{EndsBy, vprintf-EndsBy}
use revive.Firmware.Format.Ends.{vprintf-cut_short, cut_short}
use revive.Firmware.Platform.{Compiler}
use revive.Firmware.Returns.{IsReady}
use revive.Firmware.Trap.{TrapContext, Handlers}
use revive.Firmware.Timer.{timer_handler, set_timer_event}
use revive.Firmware.Timer.Event.{digit, timer_handler_forwards}
use revive.Firmware.Timer.Comparator.{HasSlot, set_timer_event-comparator}
use revive.Firmware.Ecall.{ecall_handler}
use revive.Firmware.Ecall.Answers.{IsAnswered, ecall_handler-IsAnswered}
use revive.Firmware.Boot.{Image, sbi_entry}
use revive.Firmware.Boot.Supervisor.{IsSupervisor}
use revive.Firmware.Boot.Tables.{Dispatches}
use revive.Firmware.Boot.Entry.{sbi_entry-IsSupervisor}
use revive.Firmware.Boot.Bus.{Ready, bus-IsResponsive, bus-ClearsBss}

-- A processor that shifts by the five lowest bits of the count.
abbrev beyond : ℕ → ℕ
beyond i = 2 ^ (i % 32)

abbrev compiler : Compiler
compiler = record { beyond = beyond; low_first = true }

-- Tests of the code.
division : div_u32 beyond 1000 7 ≡ (142, 6)
unfolding div_u32
division = refl

minus_42 : (print_u32 beyond b'd' (2 ^ 32 - 42)).0 ≡ b'-' ∷ b'4' ∷ b'2' ∷ []
unfolding print_u32 print_number print_digits significant u32_to_dec dec_loop div_u32
minus_42 = refl

div_u32_example : div_u32 beyond 1000 7 ≡ (1000 / 7, 1000 % 7)
div_u32_example = div_u32_lem beyond 1000 7 (omega arith) (omega arith) (omega arith)

div_u64_example : div_u64 beyond (2 ^ 40) 1000 ≡ (2 ^ 40 / 1000, 2 ^ 40 % 1000)
div_u64_example =
    div_u64_lem beyond (2 ^ 40) 1000 (omega arith) (omega arith) (omega arith) (omega arith)

print_u64-Shows_example : Shows 64 (λ fmt. print_u64 beyond fmt (10 ^ 19)) (10 ^ 19)
print_u64-Shows_example = print_u64-Shows beyond (10 ^ 19) (omega arith)

-- `"n = %d %%"` with the argument - 42.
abbrev pieces : List Piece
pieces =
    literal b'n'
    ∷ literal b' '
    ∷ literal b'='
    ∷ literal b' '
    ∷ numeral word b'd' (2 ^ 32 - 42)
    ∷ literal b' '
    ∷ percent
    ∷ []

vprintf-pieces_example :
    vprintf beyond (format_of pieces) (arguments pieces)
    ≡ returned (shown_all beyond pieces) (counted_all pieces)
vprintf-pieces_example =
    vprintf-pieces beyond pieces (refl, (refl, (refl, (refl, (refl, (refl, (tt, tt)))))))

-- `%z%d%s` with a number and a string, and without the string.
abbrev unknown_format : List ℕ
unknown_format = b'%' ∷ b'z' ∷ b'%' ∷ b'd' ∷ b'%' ∷ b's' ∷ []

unknown_format-Accepts : Accepts (asked plain unknown_format) (number 1 ∷ pointer [] ∷ [])
unfolding asked asks
unknown_format-Accepts = tt

unknown_format-refuses : ¬ Accepts (asked plain unknown_format) (number 1 ∷ [])
unfolding asked asks
unknown_format-refuses h = h

vprintf-EndsBy_example :
    EndsBy
      (Accepts (asked plain unknown_format) (number 1 ∷ pointer [] ∷ []))
      (vprintf beyond unknown_format (number 1 ∷ pointer [] ∷ []))
vprintf-EndsBy_example = vprintf-EndsBy beyond unknown_format (number 1 ∷ pointer [] ∷ [])

vprintf-cut_short_example :
    vprintf beyond
      (format_of (literal b'5' ∷ []) ++ cut_short double)
      (arguments (literal b'5' ∷ []))
    ≡ undefined (shown_all beyond (literal b'5' ∷ []) ++ cut_short double)
vprintf-cut_short_example = vprintf-cut_short beyond (literal b'5' ∷ []) double (refl, tt)

-- A hart at the machine's level, with the supervisor's timer delegated and both timers enabled.
abbrev hart : TraceMachineState
hart = record {
  pc = 0;
  gpr = λ i. 0;
  isa = 0x4;
  priv = 3;
  status = 0;
  inte = 0xa0;
  intp = 0;
  inthw = 0x80;
  trans = 0;
  perf = λ i. 0;
  csr = λ i. if i == 0x303 then 0x222 else 0;
}

abbrev core : CoreTimer
core = record { core = 0; msip = 0; mtimecmp_enabled = false; mtimecmp = 0 }

abbrev machine : SimulatedMachine
machine = record {
  memory = record { start = 0; store = λ i. 0 };
  control = new_control sim_ctrl_base;
  interruptor = record {
    start = 0xe0000000;
    slots = core ∷ [];
    mtime = 0;
    mtime_cnt = 0;
    mtime_div = 1;
  };
  uart = new_uart 0xe5000000;
  term = false;
  term_code = 0;
  term_cycle = 0;
  num_cycles = 0;
}

abbrev world : World SimulatedMachine
world = record { hart = hart; space = machine }

abbrev context : ℕ → TrapContext
context ext_id = record {
  gpr = λ i. if i == 17 then ext_id else 7;
  status = 0;
  pc = 0x400;
  cause = 9;
  tval = 0;
}

-- The small image has two words of zeroed data.
abbrev small_image : Image
small_image = record {
  bss_start = 0x2000;
  bss_end = 0x2008;
  trap_entry = 0x100;
  trap_context = 0x3000;
  vmlinux = 0x400000;
  dtb = 0x5000;
}

slot : HasSlot world core
slot = record { at = refl; slot = refl }

timer_handler_forwards_example :
    (s : TraceMachineState) × (timer_handler (context 0) world
      ≡ done (context 0, record world { hart = s }))
    × (digit 7 (int_mask_m s) ≡ 0)
    × (digit 5 s.intp ≡ 1)
    × (digit 5 (int_mask_s s) ≡ digit 5 world.hart.inte)
timer_handler_forwards_example =
    timer_handler_forwards world (context 0) refl refl refl (omega arith)

set_timer_event-comparator_example :
    (u : CoreTimer) × (w' : World SimulatedMachine) × (set_timer_event
        (bus beyond)
        compiler
        (2 ^ 32 + 5)
        world
      ≡ done (tt, w'))
    × HasSlot w' u
    × (u.mtimecmp_enabled ≡ true)
    × (u.mtimecmp ≡ 2 ^ 32 + 5)
    × (digit 5 w'.hart.intp ≡ 0)
    × (digit 7 w'.hart.inte ≡ 1)
    × (digit 7 w'.hart.intp ≡ digit 7 world.hart.inthw)
set_timer_event-comparator_example =
    set_timer_event-comparator beyond compiler world core (2 ^ 32 + 5) slot (omega arith)
      (omega arith) refl

ecall_handler-IsAnswered_example :
    (after : TrapContext) × (w' : World SimulatedMachine) × (ecall_handler
        (bus beyond)
        compiler
        (context 0x735049)
        world
      ≡ done (after, w'))
    × IsReady Ready w'
    × IsAnswered (context 0x735049) after
ecall_handler-IsAnswered_example =
    ecall_handler-IsAnswered Ready (bus beyond) (bus-IsResponsive beyond) compiler
      (context 0x735049) world (refl, (refl, refl))

sbi_entry-IsSupervisor_example :
    (t : Handlers SimulatedMachine) × (w' : World SimulatedMachine) × (sbi_entry
        (bus beyond)
        compiler
        small_image
        world
      ≡ done (t, w'))
    × IsSupervisor small_image w'.hart
    × Dispatches (bus beyond) compiler t
sbi_entry-IsSupervisor_example =
    sbi_entry-IsSupervisor Ready (bus beyond) compiler small_image (bus-IsResponsive beyond)
      (bus-ClearsBss beyond small_image refl (omega arith)) (omega arith) refl world
      (refl, (refl, refl))
