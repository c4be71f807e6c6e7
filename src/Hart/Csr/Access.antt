-- ===== src/Hart/Csr/Access.antt =====
-- Who may read and write a control register, and what a write changes.
use revive.Common.{
  ℕ, ◌/◌, ◌%◌, ◌^◌, ◌≤◌, ◌<◌, bit_and, bit_or, ◌≡◌, ◌≢◌, ◌⊎◌, true, false, ◌||◌, some, arith, ◌==◌,
  if◌then◌else◌, field, OnSome, on_none, on_some, OnSome-test, OnSome-get,
}
use revive.Common.Bits.{bit_and_low, bit_and_shifted, bit_or_fields}
use revive.Hart.State.{TraceMachineState, update}
use revive.Hart.Csr.{
  read_csr, read_csr_file, write_csr, write_csr_file, write_perf, read_perf, pc_mask,
  is_machine_csr, is_supervisor_csr, is_user_csr, is_machine_csr_write, is_supervisor_csr_write,
  is_user_csr_write, is_machine_counter,
}

-- A read that is accepted is of a register whose level, bits 9 and 8 of its number, is not above
-- the current one.
pub read_csr-level :
    (s : TraceMachineState) (csr v : ℕ) → read_csr s csr ≡ some v → field 8 2 csr ≤ s.priv
unfolding read_csr
read_csr-level s csr v h = ground (arith, bit_and_low 2 (csr / 2 ^ 8))

-- A write that is accepted is to a register whose level, bits 9 and 8 of its number, is not
-- above the current one, and whose bits 11 and 10 do not make it read-only.
pub write_csr-level :
    (s : TraceMachineState) (csr value : ℕ) (t : TraceMachineState)
    → write_csr s csr value ≡ some t
    → (field 8 2 csr ≤ s.priv) × (field 10 2 csr ≢ 3)
unfolding write_csr
write_csr-level s csr value t h =
    ground (arith, bit_and_low 2 (csr / 2 ^ 8), bit_and_low 2 (csr / 2 ^ 10))

-- What a write leaves alone.
pub record Untouched (s t : TraceMachineState) : Type 0 where
  pub pc : t.pc ≡ s.pc
  pub gpr : t.gpr ≡ s.gpr
  pub priv : t.priv ≡ s.priv
  pub inthw : t.inthw ≡ s.inthw

write_csr_file-Untouched :
    (s : TraceMachineState) (csr value : ℕ) (t : TraceMachineState)
    → write_csr_file s csr value ≡ some t
    → Untouched s t
unfolding write_csr_file write_perf
write_csr_file-Untouched s csr value t h = ground arith

-- A write that is accepted leaves the program counter, the general registers, the level and the
-- interrupt lines of the hardware as they were.
pub write_csr-Untouched :
    (s : TraceMachineState) (csr value : ℕ) (t : TraceMachineState)
    → write_csr s csr value ≡ some t
    → Untouched s t
unfolding write_csr
write_csr-Untouched s csr value t h = ground (arith, write_csr_file-Untouched s csr value t)

-- What a register reads as after `value` was written to it: the pending interrupts show the
-- lines of the hardware too, and an exception program counter is masked to an instruction.
abbrev pub read_back : TraceMachineState → ℕ → ℕ → ℕ
read_back s csr value =
    if csr == 0x344 || csr == 0x144 || csr == 0x044
    then bit_or value s.inthw
    else if csr == 0x341 || csr == 0x141 || csr == 0x041
    then bit_and value (pc_mask s.isa)
    else value

low_half :
    (full value : ℕ)
    → value < 2 ^ 32
    → full < 2 ^ 64
    → bit_and (bit_or (bit_and full 0xffffffff00000000) value) 0xffffffff ≡ value
low_half full value h p = ground (
  arith,
  bit_and_shifted 32 full 0xffffffff,
  bit_or_fields 32 (bit_and (full / 2 ^ 32) 0xffffffff) value h,
  bit_and_low 32 (bit_or (bit_and full 0xffffffff00000000) value),
)

read_csr-write_perf :
    (s : TraceMachineState) (csr value : ℕ)
    → value < 2 ^ 32
    → s.perf (bit_and csr 0x1f) < 2 ^ 64
    → read_perf (write_perf s csr value) csr ≡ value
unfolding read_perf write_perf
read_csr-write_perf s csr value h p =
    let full = s.perf (bit_and csr 0x1f) in
    ground (
      arith,
      bit_and_low 32 full,
      bit_or_fields 32 value (full % 2 ^ 32) (omega arith),
      low_half full value h p,
    )

-- The write accepts the registers that the read does, and the exception program counters.
machine_write_iff : (csr : ℕ) → csr ≢ 0x341 → is_machine_csr_write csr ≡ is_machine_csr csr
unfolding is_machine_csr_write is_machine_csr
machine_write_iff csr h = ground arith

supervisor_write_iff : (csr : ℕ) → csr ≢ 0x141 → is_supervisor_csr_write csr ≡ is_supervisor_csr csr
unfolding is_supervisor_csr_write is_supervisor_csr
supervisor_write_iff csr h = ground arith

user_write_iff : (csr : ℕ) → csr ≢ 0x041 → is_user_csr_write csr ≡ is_user_csr csr
unfolding is_user_csr_write is_user_csr
user_write_iff csr h = ground arith

pub record ReadsAs (csr v : ℕ) (t : TraceMachineState) : Type 0 where
  pub reads : read_csr_file t csr ≡ some v

module _ (s : TraceMachineState) (csr value : ℕ) where
  abbrev stored : TraceMachineState
  stored = record s { csr = update s.csr csr value }

  machine_leaf : is_machine_csr csr ≡ true → ReadsAs csr value stored
  unfolding read_csr_file
  machine_leaf a = record { reads = ground arith }

  supervisor_leaf :
      is_machine_csr csr ≡ false → is_supervisor_csr csr ≡ true → ReadsAs csr value stored
  unfolding read_csr_file
  supervisor_leaf a b = record { reads = ground arith }

  user_leaf :
      is_machine_csr csr ≡ false
      → is_supervisor_csr csr ≡ false
      → is_user_csr csr ≡ true
      → ReadsAs csr value stored
  unfolding read_csr_file
  user_leaf a b c = record { reads = ground arith }

  counter_leaf :
      value < 2 ^ 32
      → s.perf (bit_and csr 0x1f) < 2 ^ 64
      → is_machine_csr csr ≡ false
      → is_supervisor_csr csr ≡ false
      → is_user_csr csr ≡ false
      → is_machine_counter csr ≡ true
      → ReadsAs csr value (write_perf s csr value)
  unfolding read_csr_file
  counter_leaf h p a b c d = record { reads = ground (arith, read_csr-write_perf s csr value h p) }

  file_read_back :
      value < 2 ^ 32
      → s.perf (bit_and csr 0x1f) < 2 ^ 64
      → csr ≢ 0x341
      → csr ≢ 0x141
      → csr ≢ 0x041
      → OnSome (ReadsAs csr value) (write_csr_file s csr value)
  unfolding write_csr_file
  file_read_back h p m e u =
      rw (machine_write_iff csr m, supervisor_write_iff csr e, user_write_iff csr u)
        (search
          (on_none, on_some, OnSome-test, machine_leaf, supervisor_leaf, user_leaf, counter_leaf)
          depth 12)

-- An exception program counter that is written is stored.
epc_stored :
    (s : TraceMachineState) (csr value : ℕ) (t : TraceMachineState)
    → (csr ≡ 0x341) ⊎ (csr ≡ 0x141) ⊎ (csr ≡ 0x041)
    → write_csr_file s csr value ≡ some t
    → (t.csr csr ≡ value) × (t.isa ≡ s.isa)
unfolding write_csr_file is_machine_csr_write is_supervisor_csr_write is_user_csr_write
    is_machine_counter
epc_stored s csr value t c e = ground arith

file_reads :
    (s : TraceMachineState) (csr value : ℕ) (t : TraceMachineState)
    → value < 2 ^ 32
    → s.perf (bit_and csr 0x1f) < 2 ^ 64
    → csr ≢ 0x341
    → csr ≢ 0x141
    → csr ≢ 0x041
    → write_csr_file s csr value ≡ some t
    → read_csr_file t csr ≡ some value
file_reads s csr value t h p m e u w = (OnSome-get t (file_read_back s csr value h p m e u) w).reads

-- A register that accepts the write of a word reads back what was written, where the pending
-- interrupts show the lines of the hardware too, and an exception program counter is masked to
-- an instruction.
pub read_csr-write_csr :
    (s : TraceMachineState) (csr value : ℕ) (t : TraceMachineState)
    → value < 2 ^ 32
    → s.perf (bit_and csr 0x1f) < 2 ^ 64
    → write_csr s csr value ≡ some t
    → read_csr t csr ≡ some (read_back s csr value)
unfolding write_csr read_csr
read_csr-write_csr s csr value t h p e = ground (
  arith,
  write_csr-Untouched s csr value t e,
  epc_stored s csr value t,
  file_reads s csr value t h p,
)
