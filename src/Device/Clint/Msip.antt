-- ===== src/Device/Clint/Msip.antt =====
-- The registers of the software interrupts.
use revive.Common.{
  ℕ, ◌+◌, ◌*◌, ◌%◌, ◌<◌, bit_and, ◌≡◌, ap, ◌∙◌, some, [], ◌∷◌, arith, ◌==◌, ◌!=◌, if◌then◌else◌,
  u32, done, get_elem?, set, get_elem?-set_self,
}
use revive.Common.Bits.{bit_and_low}
use revive.Hart.State.{fire, clear}
use revive.Space.Range.{offset_in_lem, unaligned_word}
use revive.Device.Clint.{
  CoreTimer, CoreLocalInterruptor, Call, read_msip, set_msip, write_msip, read_atomic, write_atomic,
  read_at, write_at, int_machine_software,
}
use revive.Device.Clint.Registers.{bit_2, change_slot_at}

abbrev pub msip_offset : ℕ → ℕ
msip_offset idx = 4 * idx

module _ (c : CoreLocalInterruptor) (idx : ℕ) (i : idx < 4095) where
  read_at-msip : read_at c (msip_offset idx) 4 ≡ done (read_msip c idx)
  unfolding read_at
  read_at-msip = let d = msip_offset idx in rw (unaligned_word d, bit_2 d) (ground arith)

  write_at-msip : (v : ℕ) → write_at c (msip_offset idx) 4 v ≡ done (write_msip c idx (u32 v))
  unfolding write_at
  write_at-msip v = let d = msip_offset idx in rw (unaligned_word d, bit_2 d) (ground arith)

read_msip_at :
    (c : CoreLocalInterruptor) (idx : ℕ) (t : CoreTimer)
    → get_elem? c.slots idx ≡ some t
    → read_msip c idx ≡ t.msip
unfolding read_msip
read_msip_at c idx t e = rw (e, read_msip)

-- The call of a write to the register of a software interrupt.
abbrev pub msip_call : CoreTimer → ℕ → Call
msip_call t v = record {
  to = t.core;
  call = if v % 2 == 1 then fire int_machine_software else clear int_machine_software;
}

low_bit : (v : ℕ) → bit_and (u32 v) 1 ≡ v % 2
low_bit v = omega (arith, bit_and_low 1 (u32 v))

write_msip_at :
    (c : CoreLocalInterruptor) (idx v : ℕ) (t : CoreTimer)
    → get_elem? c.slots idx ≡ some t
    → write_msip c idx (u32 v)
      ≡ (record c { slots = set c.slots idx (set_msip (u32 v) t).0 }, msip_call t v ∷ [])
unfolding write_msip set_msip
write_msip_at c idx v t e =
    let bit = low_bit v in
    let call : (if bit_and (u32 v) 1 != 0
          then fire int_machine_software
          else clear int_machine_software)
        ≡ (msip_call t v).call =
      rw bit (ground arith) in
    change_slot_at c idx (set_msip (u32 v)) t e
    ∙ ap
        (λ x. (
          record c { slots = set c.slots idx (record t { msip = bit_and (u32 v) 1 }) },
          record { to = t.core; call = x } ∷ [],
        ))
        call

msip-set_msip : (v : ℕ) (t : CoreTimer) → (set_msip (u32 v) t).0.msip ≡ v % 2
unfolding set_msip
msip-set_msip v t = low_bit v

-- The write of a word to the software interrupt register of an attached core, below 4095, calls
-- only its driver, which raises the line by the lowest bit of the word or clears it, and the
-- register then reads as that bit.
pub read_atomic-write_msip :
    (c : CoreLocalInterruptor) (idx v : ℕ) (t : CoreTimer)
    → idx < 4095
    → get_elem? c.slots idx ≡ some t
    → (c' : CoreLocalInterruptor) × (write_atomic c (c.start + msip_offset idx) 4 v
        ≡ done (c', msip_call t v ∷ []))
      × (read_atomic c' (c.start + msip_offset idx) 4 ≡ done (v % 2))
unfolding write_atomic read_atomic
read_atomic-write_msip c idx v t i e =
    let t' = (set_msip (u32 v) t).0 in
    let c' = record c { slots = set c.slots idx t' } in
    let o = offset_in_lem c.start (msip_offset idx) (omega arith) in
    let e' = get_elem?-set_self c.slots idx t t' e in
    (
      c',
      rw o (write_at-msip c idx i v ∙ ap done (write_msip_at c idx v t e)),
      rw o (read_at-msip c' idx i ∙ ap done (read_msip_at c' idx t' e' ∙ msip-set_msip v t)),
    )
