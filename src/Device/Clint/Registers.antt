-- ===== src/Device/Clint/Registers.antt =====
-- What the registers of the interruptor read as after a write.
use revive.Common.{
  ℕ, ◌+◌, ◌*◌, ◌/◌, ◌%◌, ◌^◌, ◌<◌, ◌≡◌, ap, ◌∙◌, some, List, [], arith, ◌!=◌, u32, test_bits, done,
  get_elem?, set, get_elem?-set_self,
}
use revive.Common.Bits.{bit_and_low, bit_and_comm}
use revive.Common.Bits.Masks.{test_bits-bit}
use revive.Common.Bits.Halves.{low_half-set, high_half-set}
use revive.Space.Range.{offset_in_lem, unaligned_word}
use revive.Device.Clint.{
  CoreTimer, CoreLocalInterruptor, Call, mtimecmp_part, read_mtimecmp, change_slot, set_mtimecmp,
  write_mtimecmp, read_atomic, write_atomic, read_at, write_at,
}

-- A half of a comparator reads back a word that was written to it, and the other half is kept.
module _ (t : CoreTimer) (value : ℕ) where
  pub low_parts :
      t.mtimecmp < 2 ^ 64
      → let t' = (set_mtimecmp value 1 t).0 in
        (mtimecmp_part t' 1 ≡ u32 value) × (mtimecmp_part t' 2 ≡ mtimecmp_part t 2)
  unfolding mtimecmp_part set_mtimecmp
  low_parts h =
      let w = t.mtimecmp / 2 ^ 32 * 2 ^ 32 + value % 2 ^ 32 in
      rw (low_half-set t.mtimecmp value h) (omega (arith, bit_and_low 32 w))

  pub high_parts :
      let t' = (set_mtimecmp value 2 t).0 in
      (mtimecmp_part t' 1 ≡ mtimecmp_part t 1) × (mtimecmp_part t' 2 ≡ u32 value)
  unfolding mtimecmp_part set_mtimecmp
  high_parts =
      let w = value % 2 ^ 32 * 2 ^ 32 + t.mtimecmp % 2 ^ 32 in
      rw (high_half-set t.mtimecmp value)
        (omega (arith, bit_and_low 32 w, bit_and_low 32 t.mtimecmp))

pub bit_2 : (k : ℕ) → test_bits k 0x4 ≡ (k / 4 % 2 != 0)
bit_2 k = let e = bit_and_comm k 4 in rw e (test_bits-bit 2 k)

-- The registers are at these offsets, while there are at most 4095 cores.
abbrev pub mtimecmp_offset : ℕ → ℕ → ℕ
mtimecmp_offset idx half = 0x4000 + 8 * idx + 4 * half

module _ (c : CoreLocalInterruptor) (idx half : ℕ) (i : idx < 4095) (h : half < 2) where
  read_at-mtimecmp : read_at c (mtimecmp_offset idx half) 4 ≡ done (read_mtimecmp c idx (half + 1))
  unfolding read_at
  read_at-mtimecmp =
      let d = mtimecmp_offset idx half in rw (unaligned_word d, bit_2 d) (ground arith)

  write_at-mtimecmp :
      (v : ℕ) → write_at c (mtimecmp_offset idx half) 4 v ≡ done (write_mtimecmp c idx v (half + 1))
  unfolding write_at
  write_at-mtimecmp v =
      let d = mtimecmp_offset idx half in rw (unaligned_word d, bit_2 d) (ground arith)

read_mtimecmp_at :
    (c : CoreLocalInterruptor) (idx pos : ℕ) (t : CoreTimer)
    → get_elem? c.slots idx ≡ some t
    → read_mtimecmp c idx pos ≡ mtimecmp_part t pos
unfolding read_mtimecmp
read_mtimecmp_at c idx pos t e = rw (e, read_mtimecmp)

pub change_slot_at :
    (c : CoreLocalInterruptor) (idx : ℕ) (change : CoreTimer → CoreTimer × List Call)
    (t : CoreTimer)
    → get_elem? c.slots idx ≡ some t
    → change_slot c idx change ≡ (record c { slots = set c.slots idx (change t).0 }, (change t).1)
unfolding change_slot
change_slot_at c idx change t e = rw (e, change_slot)

pub write_mtimecmp_at :
    (c : CoreLocalInterruptor) (idx v pos : ℕ) (t : CoreTimer)
    → get_elem? c.slots idx ≡ some t
    → write_mtimecmp c idx v pos
      ≡ (record c { slots = set c.slots idx (set_mtimecmp v pos t).0 }, [])
unfolding write_mtimecmp set_mtimecmp
write_mtimecmp_at c idx v pos t e = change_slot_at c idx (set_mtimecmp v pos) t e

module _ (c : CoreLocalInterruptor) (idx half : ℕ) (i : idx < 4095) (h : half < 2) where
  read_half :
      (t : CoreTimer)
      → get_elem? c.slots idx ≡ some t
      → read_atomic c (c.start + mtimecmp_offset idx half) 4 ≡ done (mtimecmp_part t (half + 1))
  unfolding read_atomic
  read_half t e =
      rw (offset_in_lem c.start (mtimecmp_offset idx half) (omega arith))
        (read_at-mtimecmp c idx half i h ∙ ap done (read_mtimecmp_at c idx (half + 1) t e))

  pub write_half :
      (t : CoreTimer) (v : ℕ)
      → get_elem? c.slots idx ≡ some t
      → write_atomic c (c.start + mtimecmp_offset idx half) 4 v
        ≡ done (record c { slots = set c.slots idx (set_mtimecmp v (half + 1) t).0 }, [])
  unfolding write_atomic
  write_half t v e =
      rw (offset_in_lem c.start (mtimecmp_offset idx half) (omega arith))
        (write_at-mtimecmp c idx half i h v ∙ ap done (write_mtimecmp_at c idx v (half + 1) t e))

-- What the two halves of comparator `idx` read as.
abbrev pub ReadsAs : CoreLocalInterruptor → ℕ → ℕ → ℕ → Type 0
ReadsAs c idx low high =
    (read_atomic c (c.start + mtimecmp_offset idx 0) 4 ≡ done low)
    × (read_atomic c (c.start + mtimecmp_offset idx 1) 4 ≡ done high)

pub both_halves :
    (c : CoreLocalInterruptor) (idx : ℕ) (t t' : CoreTimer)
    → idx < 4095
    → get_elem? c.slots idx ≡ some t
    → ReadsAs
        (record c { slots = set c.slots idx t' })
        idx
        (mtimecmp_part t' 1)
        (mtimecmp_part t' 2)
both_halves c idx t t' i e =
    let c' = record c { slots = set c.slots idx t' } in
    let e' = get_elem?-set_self c.slots idx t t' e in
    (read_half c' idx 0 i (omega arith) t' e', read_half c' idx 1 i (omega arith) t' e')

-- Any two words that are written to the low and then to the high half of the comparator of an
-- attached core, below 4095, are what the halves then read as, and the writes call no driver.
pub read_atomic-write_mtimecmp :
    (c : CoreLocalInterruptor) (idx low high : ℕ) (t : CoreTimer)
    → idx < 4095
    → get_elem? c.slots idx ≡ some t
    → t.mtimecmp < 2 ^ 64
    → low < 2 ^ 32
    → high < 2 ^ 32
    → (c1 : CoreLocalInterruptor) × (c2 : CoreLocalInterruptor) × (write_atomic c
          (c.start + mtimecmp_offset idx 0)
          4
          low
        ≡ done (c1, []))
      × (write_atomic c1 (c.start + mtimecmp_offset idx 1) 4 high ≡ done (c2, []))
      × ReadsAs c2 idx low high
read_atomic-write_mtimecmp c idx low high t i e b p q =
    let t1 = (set_mtimecmp low 1 t).0 in
    let c1 = record c { slots = set c.slots idx t1 } in
    let e1 = get_elem?-set_self c.slots idx t t1 e in
    let t2 = (set_mtimecmp high 2 t1).0 in
    let lows = low_parts t low b in
    let highs = high_parts t1 high in
    let both = both_halves c1 idx t1 t2 i e1 in
    let l : mtimecmp_part t2 1 ≡ low = omega (arith, lows.0, highs.0) in
    let h : mtimecmp_part t2 2 ≡ high = omega (arith, highs.1) in
    (
      c1,
      record c1 { slots = set c1.slots idx t2 },
      write_half c idx 0 i (omega arith) t low e,
      write_half c1 idx 1 i (omega arith) t1 high e1,
      (both.0 ∙ ap done l, both.1 ∙ ap done h),
    )
