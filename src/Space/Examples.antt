-- ===== src/Space/Examples.antt =====
-- The theorems of the address space at a map of a memory and a device.
use revive.Common.{ℕ, ◌%◌, ◌^◌, ◌≡◌, refl, ◌↔◌, inl, inr, some, [], ◌∷◌, arith, done}
use mathlib.Core.List.{Memᴰ}
use revive.Space.Range.{unaligned, AddressRange, Holds, overlap_range}
use revive.Space.Dispatch.{
  find, insert_range, overlaps_any, add_range, IsProper, IsSpace, add_range-IsSpace, find_iff,
}
use revive.Space.Memory.{
  MainMemory, store_bytes, read_atomic, write_atomic, read_atomic-write_atomic,
  read_atomic-write_atomic_apart,
}

abbrev ram : AddressRange ℕ
ram = record { start = 0x80000000; size = 0x1000; device = 0 }

abbrev timer : AddressRange ℕ
timer = record { start = 0x02000000; size = 0xc000; device = 1 }

ram-IsProper : IsProper ram
ram-IsProper = record { bounded = record { end_lt = omega arith }; has_bytes = omega arith }

timer-IsProper : IsProper timer
timer-IsProper = record { bounded = record { end_lt = omega arith }; has_bytes = omega arith }

ram-IsSpace : IsSpace (ram ∷ [])
ram-IsSpace = (ram-IsProper, (tt, tt))

timer_added : add_range timer (ram ∷ []) ≡ done (timer ∷ ram ∷ [])
unfolding add_range overlaps_any insert_range overlap_range
timer_added = refl

add_range-IsSpace_example : IsSpace (timer ∷ ram ∷ [])
add_range-IsSpace_example =
    add_range-IsSpace timer (ram ∷ []) (timer ∷ ram ∷ []) timer-IsProper ram-IsSpace timer_added

both-IsSpace : IsSpace (timer ∷ ram ∷ [])
both-IsSpace = (timer-IsProper, ((inl (omega arith), tt), ram-IsSpace))

find_iff_example :
    (find (timer ∷ ram ∷ []) 0x80000010 4 ≡ some ram)
    ↔ (Memᴰ ram (timer ∷ ram ∷ []) × Holds ram 0x80000010 4)
find_iff_example =
    find_iff (timer ∷ ram ∷ []) 0x80000010 4 ram both-IsSpace (omega arith) (omega arith)

abbrev blank : MainMemory
blank = record { start = 0x80000000; store = λ i. 0 }

abbrev written : MainMemory
written = record blank { store = store_bytes 2 (λ i. 0) 0x10 0x12345 }

blank-written : write_atomic blank 0x80000010 2 0x12345 ≡ done written
unfolding write_atomic unaligned
blank-written = refl

read_atomic-write_atomic_example : read_atomic written 0x80000010 2 ≡ done (0x12345 % 2 ^ 16)
read_atomic-write_atomic_example =
    read_atomic-write_atomic blank written 0x80000010 2 0x12345 blank-written

read_atomic-write_atomic_apart_example :
    read_atomic written 0x80000020 4 ≡ read_atomic blank 0x80000020 4
read_atomic-write_atomic_apart_example =
    read_atomic-write_atomic_apart blank written 0x80000010 2 0x12345 0x80000020 4 blank-written
      (inr (omega arith))
