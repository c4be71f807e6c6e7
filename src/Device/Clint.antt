-- ===== src/Device/Clint.antt =====
-- `CoreLocalInterruptor` (sim/clint.cc, sim/include/clint.hh): the timer and the software
-- interrupts.
pub mod Divider
pub mod Registers
pub mod Msip
pub mod Line
pub mod Swapped
use revive.Common.{
  ℕ, zero, suc, ◌+◌, ◌-◌, ◌*◌, ◌/◌, ◌%◌, ◌^◌, ◌≤◌, ◌<◌, bit_and, bit_or, bit_xor, ◌≡◌, refl, sym,
  ap, ◌∙◌, ◌≢◌, ◌↔◌, ◌⊎◌, inl, inr, Bool, true, false, not, xor, ◌&&◌, ◌||◌, Option, none, some,
  List, [], ◌∷◌, ◌++◌, arith, ltb, leb, ◌==◌, ◌!=◌, between, if◌then◌else◌, ==_iff, Bool-cases, u8,
  u16, u32, u64, not32, not64, field, set_field, test_bits, Outcome, done, panicked, OnSome,
  on_none, on_some, OnSome-if, OnSome-test, OnSome-get, if_holds, OnDone, on_done, on_panicked,
  OnDone-get, OnDone-test, OnDone-if, length, get_elem?, set, get_elem?-set_self, get_elem?-set_ne,
  length-append, get_elem?-below, get_elem?-beyond, length-set,
}
use revive.Hart.State.{Signal, fire, clear, set_mtime}
use revive.Space.Range.{offset_in, unaligned}

-- `core` is the position of the driver among those that were attached.
pub record CoreTimer : Type 0 where
  pub core : ℕ
  pub mtimecmp_enabled : Bool
  pub mtimecmp : ℕ
  pub msip : ℕ

abbrev pub new_timer : ℕ → CoreTimer
new_timer core = record { core = core; mtimecmp_enabled = false; mtimecmp = 2 ^ 64 - 1; msip = 0 }

pub record CoreLocalInterruptor : Type 0 where
  pub start : ℕ
  pub slots : List CoreTimer
  pub mtime : ℕ
  pub mtime_cnt : ℕ
  pub mtime_div : ℕ

-- The constructor and `startup`; `mtime_div` is the option `clint_div`.
unfoldable pub new_interruptor : ℕ → ℕ → CoreLocalInterruptor
new_interruptor start mtime_div = record {
  start = start;
  slots = [];
  mtime = 0;
  mtime_cnt = 0;
  mtime_div = mtime_div;
}

unfoldable pub startup : CoreLocalInterruptor → CoreLocalInterruptor
startup c = record c { mtime_cnt = 0 }

-- A call of a method of the driver `to`.
pub record Call : Type 0 where
  pub to : ℕ
  pub call : Signal

abbrev pub msip_start : ℕ
msip_start = 0

abbrev pub msip_limit : ℕ
msip_limit = 0x4000

abbrev pub mtimecmp_start : ℕ
mtimecmp_start = 0x4000

abbrev pub mtimecmp_limit : ℕ
mtimecmp_limit = 0xbff8

abbrev pub mtime_start : ℕ
mtime_start = 0xbff8

abbrev pub mtime_limit : ℕ
mtime_limit = 0xc000

-- `INT_MACHINE_SOFTWARE` and `INT_MACHINE_TIMER`
abbrev pub int_machine_software : ℕ
int_machine_software = 0x8

abbrev pub int_machine_timer : ℕ
int_machine_timer = 0x80

abbrev pub in_window : ℕ → ℕ → ℕ → Bool
in_window lo limit offset = leb lo offset && ltb offset limit

unfoldable pub read_msip : CoreLocalInterruptor → ℕ → ℕ
read_msip c idx = elim (get_elem? c.slots idx) [ none ↦ 0 | some t ↦ t.msip ]

-- The half or the whole that `pos` names.
unfoldable pub mtimecmp_part : CoreTimer → ℕ → ℕ
mtimecmp_part t pos =
    if pos == 1
    then bit_and t.mtimecmp 0xffffffff
    else if pos == 2
    then t.mtimecmp / 2 ^ 32
    else if pos == 3
    then t.mtimecmp
    else 0

unfoldable pub read_mtimecmp : CoreLocalInterruptor → ℕ → ℕ → ℕ
read_mtimecmp c idx pos = elim (get_elem? c.slots idx) [ none ↦ 0 | some t ↦ mtimecmp_part t pos ]

-- `slots[idx]` after a change, if there is one; without one the writes return at once.
unfoldable pub change_slot :
    CoreLocalInterruptor
    → ℕ
    → (CoreTimer → CoreTimer × List Call)
    → CoreLocalInterruptor × List Call
change_slot c idx change = elim (get_elem? c.slots idx) [
  | none ↦ (c, [])
  | some t ↦ let (t', calls) = change t in (record c { slots = set c.slots idx t' }, calls)
]

unfoldable pub set_msip : ℕ → CoreTimer → CoreTimer × List Call
set_msip value t =
    let msip = bit_and value 0x1 in
    let call = if msip != 0 then fire int_machine_software else clear int_machine_software in
    (record t { msip = msip }, record { to = t.core; call = call } ∷ [])

unfoldable pub set_mtimecmp : ℕ → ℕ → CoreTimer → CoreTimer × List Call
set_mtimecmp value pos t = (
  record t {
    mtimecmp_enabled = true;
    mtimecmp =
        if pos == 1
        then bit_or (bit_and t.mtimecmp 0xffffffff00000000) (bit_and value 0xffffffff)
        else if pos == 2
        then bit_or (bit_and t.mtimecmp 0xffffffff) (u64 (value * 2 ^ 32))
        else if pos == 3
        then value
        else t.mtimecmp;
  },
  [],
)

unfoldable pub write_msip : CoreLocalInterruptor → ℕ → ℕ → CoreLocalInterruptor × List Call
write_msip c idx value = change_slot c idx (set_msip value)

unfoldable pub write_mtimecmp : CoreLocalInterruptor → ℕ → ℕ → ℕ → CoreLocalInterruptor × List Call
write_mtimecmp c idx value pos = change_slot c idx (set_mtimecmp value pos)

unfoldable pub write_mtime : CoreLocalInterruptor → ℕ → CoreLocalInterruptor × List Call
write_mtime c mtime = (record c { mtime = mtime }, [])

-- The two methods after `offset` is computed.
unfoldable pub read_at : CoreLocalInterruptor → ℕ → ℕ → Outcome ℕ
read_at c offset size =
    let high = test_bits offset 0x4 in
    if unaligned offset size
    then panicked
    else if in_window mtime_start mtime_limit offset
    then (if size == 4
        then done (if high then c.mtime / 2 ^ 32 else bit_and c.mtime 0xffffffff)
        else if size == 8
        then done c.mtime
        else panicked)
    else if in_window mtimecmp_start mtimecmp_limit offset
    then (let idx = (offset - mtimecmp_start) / 8 in
        if size == 4
        then done (read_mtimecmp c idx (if high then 2 else 1))
        else if size == 8
        then done (read_mtimecmp c idx 3)
        else panicked)
    else if in_window msip_start msip_limit offset
    then (if size != 4 then panicked else done (read_msip c ((offset - msip_start) / 4)))
    else done 0

unfoldable pub read_atomic : CoreLocalInterruptor → ℕ → ℕ → Outcome ℕ
read_atomic c addr size = read_at c (offset_in c.start addr) size

unfoldable pub write_at :
    CoreLocalInterruptor → ℕ → ℕ → ℕ → Outcome (CoreLocalInterruptor × List Call)
write_at c offset size data' =
    let high = test_bits offset 0x4 in
    if unaligned offset size
    then panicked
    else if in_window mtime_start mtime_limit offset
    then (if size == 4
        then (if high
            then done (
                write_mtime c
                  (bit_or (bit_and c.mtime 0xffffffff00000000) (bit_and data' 0xffffffff)))
            else done (write_mtime c (bit_or (bit_and c.mtime 0xffffffff) (u64 (data' * 2 ^ 32)))))
        else if size == 8
        then done (write_mtime c data')
        else panicked)
    else if in_window mtimecmp_start mtimecmp_limit offset
    then (let idx = (offset - mtimecmp_start) / 8 in
        if size == 4
        then done (write_mtimecmp c idx data' (if high then 2 else 1))
        else if size == 8
        then done (write_mtimecmp c idx data' 2)
        else panicked)
    else if in_window msip_start msip_limit offset
    then (if size != 4
        then panicked
        else done (write_msip c ((offset - msip_start) / 4) (u32 data')))
    else done (c, [])

unfoldable pub write_atomic :
    CoreLocalInterruptor → ℕ → ℕ → ℕ → Outcome (CoreLocalInterruptor × List Call)
write_atomic c addr size data' = write_at c (offset_in c.start addr) size data'

unfoldable pub attach_core : CoreLocalInterruptor → ℕ → CoreLocalInterruptor
attach_core c core = record c { slots = c.slots ++ new_timer core ∷ [] }

-- The body of the loop over the cores.
unfoldable pub cycle_slot : ℕ → CoreTimer → CoreTimer × List Call
cycle_slot mtime t =
    let update_mtime : Call = record { to = t.core; call = set_mtime mtime } in
    if t.mtimecmp_enabled && leb t.mtimecmp mtime
    then (
      record t { mtimecmp_enabled = false },
      update_mtime ∷ record { to = t.core; call = fire int_machine_timer } ∷ [],
    )
    else if ltb mtime t.mtimecmp
    then (t, update_mtime ∷ record { to = t.core; call = clear int_machine_timer } ∷ [])
    else (t, update_mtime ∷ [])

unfoldable pub cycle_slots : ℕ → List CoreTimer → List CoreTimer × List Call
cycle_slots mtime [] = ([], [])
cycle_slots mtime (t ∷ slots) =
    let (t', calls) = cycle_slot mtime t in
    let (slots', rest) = cycle_slots mtime slots in (t' ∷ slots', calls ++ rest)

-- The divider: `mtime` and its counter after a cycle.
unfoldable pub advance : CoreLocalInterruptor → CoreLocalInterruptor
advance c =
    if c.mtime_div == 1
    then record c { mtime = u64 (c.mtime + 1) }
    else (let cnt = u64 (c.mtime_cnt + 1) in
        if leb c.mtime_div cnt
        then record c { mtime = u64 (c.mtime + 1); mtime_cnt = 0 }
        else record c { mtime_cnt = cnt })

unfoldable pub cycle : CoreLocalInterruptor → CoreLocalInterruptor × List Call
cycle c =
    if c.mtime_div == 0
    then (c, [])
    else (let c' = advance c in
        let (slots', calls) = cycle_slots c'.mtime c'.slots in
        (record c' { slots = slots' }, calls))
