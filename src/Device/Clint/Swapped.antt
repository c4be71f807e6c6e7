-- ===== src/Device/Clint/Swapped.antt =====
-- Writes of the interruptor whose halves are not where a reader finds them.
use revive.Common.{
  ℕ, ◌+◌, ◌*◌, ◌/◌, ◌%◌, ◌^◌, ◌<◌, ◌≡◌, ap, ◌∙◌, some, [], arith, done, get_elem?, set,
}
use revive.Common.Bits.{bit_and_low}
use revive.Common.Bits.Halves.{low_half-set, high_half-set}
use revive.Space.Range.{offset_in_lem, unaligned_word, unaligned_double}
use revive.Device.Clint.{
  CoreTimer, CoreLocalInterruptor, mtimecmp_part, set_mtimecmp, write_mtimecmp, write_mtime,
  read_atomic, write_atomic, read_at, write_at,
}
use revive.Device.Clint.Registers.{
  mtimecmp_offset, write_mtimecmp_at, ReadsAs, both_halves, high_parts,
}

module _ (c : CoreLocalInterruptor) (v : ℕ) where
  write_at-double :
      (idx : ℕ)
      → idx < 4095
      → write_at c (mtimecmp_offset idx 0) 8 v ≡ done (write_mtimecmp c idx v 2)
  unfolding write_at
  write_at-double idx i = let d = mtimecmp_offset idx 0 in rw (unaligned_double d) (ground arith)

  write_at-mtime_low :
      c.mtime < 2 ^ 64
      → write_at c 0xbff8 4 v
        ≡ done (record c { mtime = v % 2 ^ 32 * 2 ^ 32 + c.mtime % 2 ^ 32 }, [])
  unfolding write_at write_mtime
  write_at-mtime_low h =
      rw (unaligned_word 0xbff8)
        (ap (λ m. done (record c { mtime = m }, [])) (high_half-set c.mtime v))

  write_at-mtime_high :
      c.mtime < 2 ^ 64
      → write_at c 0xbffc 4 v
        ≡ done (record c { mtime = c.mtime / 2 ^ 32 * 2 ^ 32 + v % 2 ^ 32 }, [])
  unfolding write_at write_mtime
  write_at-mtime_high h =
      rw (unaligned_word 0xbffc)
        (ap (λ m. done (record c { mtime = m }, [])) (low_half-set c.mtime v h))

  read_at-mtime_low : read_at c 0xbff8 4 ≡ done (c.mtime % 2 ^ 32)
  unfolding read_at
  read_at-mtime_low = rw (unaligned_word 0xbff8, bit_and_low 32 c.mtime)

  read_at-mtime_high : read_at c 0xbffc 4 ≡ done (c.mtime / 2 ^ 32)
  unfolding read_at
  read_at-mtime_high = rw (unaligned_word 0xbffc)

-- The two words of the time, as reads find them.
abbrev pub TimeReads : CoreLocalInterruptor → ℕ → ℕ → Type 0
TimeReads c low high =
    (read_atomic c (c.start + 0xbff8) 4 ≡ done low)
    × (read_atomic c (c.start + 0xbffc) 4 ≡ done high)

read_time : (c : CoreLocalInterruptor) → TimeReads c (c.mtime % 2 ^ 32) (c.mtime / 2 ^ 32)
unfolding read_atomic
read_time c = (
  rw (offset_in_lem c.start 0xbff8 (omega arith)) (read_at-mtime_low c 0),
  rw (offset_in_lem c.start 0xbffc (omega arith)) (read_at-mtime_high c 0),
)

-- A word that is written to the low half of the time is read from its high half, and the low
-- half stays; one that is written to the high half is read from the low half, and the high half
-- stays.
pub write_atomic-time_swapped :
    (c : CoreLocalInterruptor) (v : ℕ)
    → c.mtime < 2 ^ 64
    → v < 2 ^ 32
    → (c1 : CoreLocalInterruptor) × (c2 : CoreLocalInterruptor) × (write_atomic c
          (c.start + 0xbff8)
          4
          v
        ≡ done (c1, []))
      × TimeReads c1 (c.mtime % 2 ^ 32) v
      × (write_atomic c (c.start + 0xbffc) 4 v ≡ done (c2, []))
      × TimeReads c2 v (c.mtime / 2 ^ 32)
unfolding write_atomic
write_atomic-time_swapped c v b p =
    let low = v % 2 ^ 32 * 2 ^ 32 + c.mtime % 2 ^ 32 in
    let high = c.mtime / 2 ^ 32 * 2 ^ 32 + v % 2 ^ 32 in
    let c1 = record c { mtime = low } in
    let c2 = record c { mtime = high } in
    let r1 = read_time c1 in
    let r2 = read_time c2 in
    (
      c1,
      c2,
      rw (offset_in_lem c.start 0xbff8 (omega arith)) (write_at-mtime_low c v b),
      (r1.0 ∙ ap done (omega arith), r1.1 ∙ ap done (omega arith)),
      rw (offset_in_lem c.start 0xbffc (omega arith)) (write_at-mtime_high c v b),
      (r2.0 ∙ ap done (omega arith), r2.1 ∙ ap done (omega arith)),
    )

-- A write of eight bytes to the comparator of an attached core, below 4095, leaves its low half
-- and makes its high half the low half of what is written.
pub write_atomic-mtimecmp_double :
    (c : CoreLocalInterruptor) (idx v : ℕ) (t : CoreTimer)
    → idx < 4095
    → get_elem? c.slots idx ≡ some t
    → (c' : CoreLocalInterruptor) × (write_atomic c (c.start + mtimecmp_offset idx 0) 8 v
        ≡ done (c', []))
      × ReadsAs c' idx (mtimecmp_part t 1) (v % 2 ^ 32)
unfolding write_atomic
write_atomic-mtimecmp_double c idx v t i e =
    let t' = (set_mtimecmp v 2 t).0 in
    let both = both_halves c idx t t' i e in
    let parts = high_parts t v in
    (
      record c { slots = set c.slots idx t' },
      rw (offset_in_lem c.start (mtimecmp_offset idx 0) (omega arith))
          (write_at-double c v idx i ∙ ap done (write_mtimecmp_at c idx v 2 t e)),
      (both.0 ∙ ap done parts.0, both.1 ∙ ap done parts.1),
    )
