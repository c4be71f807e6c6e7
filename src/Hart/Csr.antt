-- ===== src/Hart/Csr.antt =====
-- `readCSR` and `writeCSR`. Each returns `none` where the code returns false.
pub mod Access
use revive.Common.{
  ℕ, ◌+◌, ◌-◌, ◌*◌, ◌/◌, ◌^◌, Bool, true, false, ◌||◌, Option, none, some, bit_and, bit_or, not32,
  u64, ltb, between, test_bits, ◌==◌, ◌!=◌, if◌then◌else◌,
}
use revive.Hart.Status.{isa_c}
use revive.Hart.State.{TraceMachineState, update}

-- `EXTRACT_BITS(value, hi:lo)`
abbrev pub extract_bits : ℕ → ℕ → ℕ → ℕ
extract_bits value hi lo = bit_and (value / 2 ^ lo) (2 ^ (hi - lo + 1) - 1)

-- `~(state.isa.c ? 0x1 : 0x3)`
abbrev pub pc_mask : ℕ → ℕ
pc_mask isa = not32 (if isa_c isa != 0 then 0x1 else 0x3)

-- The registers that a read takes from `csr`, by level.
unfoldable pub is_machine_csr : ℕ → Bool
is_machine_csr csr =
    between 0xf11 0xf14 csr
    || (csr == 0x302 || csr == 0x303)
    || (csr == 0x305 || csr == 0x306)
    || csr == 0x340
    || (csr == 0x342 || csr == 0x343)
    || between 0x3a0 0x3a3 csr
    || between 0x3b0 0x3bf csr
    || csr == 0x320
    || between 0x323 0x33f csr

unfoldable pub is_supervisor_csr : ℕ → Bool
is_supervisor_csr csr =
    (csr == 0x102 || csr == 0x103)
    || (csr == 0x105 || csr == 0x106)
    || csr == 0x140
    || (csr == 0x142 || csr == 0x143)

unfoldable pub is_user_csr : ℕ → Bool
is_user_csr csr =
    csr == 0x005 || csr == 0x040 || (csr == 0x042 || csr == 0x043) || between 0x001 0x003 csr

-- The registers that a write puts into `csr`: the exception program counters too.
unfoldable pub is_machine_csr_write : ℕ → Bool
is_machine_csr_write csr =
    between 0xf11 0xf14 csr
    || (csr == 0x302 || csr == 0x303)
    || (csr == 0x305 || csr == 0x306)
    || between 0x340 0x343 csr
    || between 0x3a0 0x3a3 csr
    || between 0x3b0 0x3bf csr
    || csr == 0x320
    || between 0x323 0x33f csr

unfoldable pub is_supervisor_csr_write : ℕ → Bool
is_supervisor_csr_write csr =
    (csr == 0x102 || csr == 0x103) || (csr == 0x105 || csr == 0x106) || between 0x140 0x143 csr

unfoldable pub is_user_csr_write : ℕ → Bool
is_user_csr_write csr = csr == 0x005 || between 0x040 0x043 csr || between 0x001 0x003 csr

unfoldable pub is_machine_counter : ℕ → Bool
is_machine_counter csr = between 0xb00 0xb1f csr || between 0xb80 0xb9f csr

unfoldable pub is_user_counter : ℕ → Bool
is_user_counter csr = between 0xc00 0xc1f csr || between 0xc80 0xc9f csr

-- one half of a 64-bit counter
unfoldable pub read_perf : TraceMachineState → ℕ → ℕ
read_perf s csr =
    let full = s.perf (bit_and csr 0x1f) in
    if bit_and csr 0x80 != 0 then full / 2 ^ 32 else bit_and full 0xffffffff

unfoldable pub write_perf : TraceMachineState → ℕ → ℕ → TraceMachineState
write_perf s csr value =
    let full = s.perf (bit_and csr 0x1f) in
    record s {
      perf = update s.perf (bit_and csr 0x1f) (
          if bit_and csr 0x80 != 0
          then bit_or (u64 (value * 2 ^ 32)) (bit_and full 0xffffffff)
          else bit_or (bit_and full 0xffffffff00000000) value);
    }

-- `acc`: whether the counter enables let the current level read the counter
unfoldable pub counter_enabled : TraceMachineState → ℕ → Bool
counter_enabled s csr =
    let mask = 2 ^ bit_and csr 0x1f in
    if s.priv == 3
    then true
    else if s.priv == 1
    then test_bits mask (s.csr 0x306)
    else if s.priv == 0
    then test_bits (bit_and mask (s.csr 0x306)) (s.csr 0x106)
    else false

unfoldable pub read_csr_file : TraceMachineState → ℕ → Option ℕ
read_csr_file s csr =
    if is_machine_csr csr
    then some (s.csr csr)
    else if is_supervisor_csr csr
    then some (s.csr csr)
    else if is_user_csr csr
    then some (s.csr csr)
    else if is_machine_counter csr
    then some (read_perf s csr)
    else if is_user_counter csr
    then (if counter_enabled s csr then some (read_perf s csr) else none)
    else none

unfoldable pub read_csr : TraceMachineState → ℕ → Option ℕ
read_csr s csr =
    let min_priv = extract_bits csr 9 8 in
    if ltb s.priv min_priv
    then none
    else if csr == 0x301
    then some s.isa
    else if csr == 0x300
    then some s.status
    else if csr == 0x304
    then some s.inte
    else if csr == 0x344
    then some (bit_or s.intp s.inthw)
    else if csr == 0x341
    then some (bit_and (s.csr 0x341) (pc_mask s.isa))
    else if csr == 0x100
    then some s.status
    else if csr == 0x104
    then some s.inte
    else if csr == 0x144
    then some (bit_or s.intp s.inthw)
    else if csr == 0x141
    then some (bit_and (s.csr 0x141) (pc_mask s.isa))
    else if csr == 0x180
    then some s.trans
    else if csr == 0x000
    then some s.status
    else if csr == 0x004
    then some s.inte
    else if csr == 0x044
    then some (bit_or s.intp s.inthw)
    else if csr == 0x041
    then some (bit_and (s.csr 0x041) (pc_mask s.isa))
    else read_csr_file s csr

unfoldable pub write_csr_file : TraceMachineState → ℕ → ℕ → Option TraceMachineState
write_csr_file s csr value =
    if is_machine_csr_write csr
    then some (record s { csr = update s.csr csr value })
    else if is_supervisor_csr_write csr
    then some (record s { csr = update s.csr csr value })
    else if is_user_csr_write csr
    then some (record s { csr = update s.csr csr value })
    else if is_machine_counter csr
    then some (write_perf s csr value)
    else none

unfoldable pub write_csr : TraceMachineState → ℕ → ℕ → Option TraceMachineState
write_csr s csr value =
    if extract_bits csr 11 10 == 0b11
    then none
    else if ltb s.priv (extract_bits csr 9 8)
    then none
    else if csr == 0x301
    then some (record s { isa = value })
    else if csr == 0x300
    then some (record s { status = value })
    else if csr == 0x304
    then some (record s { inte = value })
    else if csr == 0x344
    then some (record s { intp = value })
    else if csr == 0x100
    then some (record s { status = value })
    else if csr == 0x104
    then some (record s { inte = value })
    else if csr == 0x144
    then some (record s { intp = value })
    else if csr == 0x180
    then some (record s { trans = value })
    else if csr == 0x000
    then some (record s { status = value })
    else if csr == 0x004
    then some (record s { inte = value })
    else if csr == 0x044
    then some (record s { intp = value })
    else write_csr_file s csr value
