-- ===== src/Space/Call.antt =====
-- The calls that `PhysicalAddressSpace` passes on, and the host that they make for a hart.
use revive.Common.{ℕ, Option, none, some, List, Outcome, panicked, OnDone, on_panicked}
use revive.Hart.State.{Signal}
use revive.Hart.Exec.{Host}
use revive.Hart.Exec.Keeps.{IsHost, AllFit, Sends}
use revive.Space.Range.{AddressRange}
use revive.Space.Dispatch.{find}

-- The virtual methods of the ranges. `D` points to an object, and `S` is the memory of them all; a
-- write gives back what the object called on the hart.
pub record Methods (D S : Type 0) : Type 0 where
  pub read : D → ℕ → ℕ → S → Outcome (ℕ × S)
  pub write : D → ℕ → ℕ → ℕ → S → Outcome (S × List Signal)

module _ {D S : Type 0} where
  unfoldable pub read_atomic :
      (D → ℕ → ℕ → S → Outcome (ℕ × S)) → List (AddressRange D) → ℕ → ℕ → S → Outcome (ℕ × S)
  read_atomic read ranges addr size space = elim (find ranges addr size) [
    | some r ↦ read r.device addr size space
    | none ↦ panicked
  ]

  unfoldable pub write_atomic :
      (D → ℕ → ℕ → ℕ → S → Outcome (S × List Signal))
      → List (AddressRange D)
      → ℕ
      → ℕ
      → ℕ
      → S
      → Outcome (S × List Signal)
  write_atomic write ranges addr size data' space = elim (find ranges addr size) [
    | some r ↦ write r.device addr size data' space
    | none ↦ panicked
  ]

  abbrev pub as_host : Methods D S → List (AddressRange D) → (ℕ → ℕ) → Host S
  as_host methods ranges shift_count = record {
    read_atomic = read_atomic methods.read ranges;
    write_atomic = write_atomic methods.write ranges;
    shift_count = shift_count;
  }

-- If the writes of every object send signals that fit, the address space is what a hart asks of it.
pub as_host-IsHost :
    {D S : Type 0} (methods : Methods D S) (ranges : List (AddressRange D)) (shift_count : ℕ → ℕ)
    → ((d : D) (addr size v : ℕ) (space : S)
        → OnDone (Sends AllFit) (methods.write d addr size v space))
    → IsHost (as_host methods ranges shift_count)
unfolding write_atomic
as_host-IsHost {D} {S} methods ranges shift_count h = record {
  signals_fit = λ addr size v space. go addr size v space (find ranges addr size);
}
  where
    go :
        (addr size v : ℕ) (space : S) (o : Option (AddressRange D))
        → OnDone
            (Sends AllFit)
            (elim o [ some r ↦ methods.write r.device addr size v space | none ↦ panicked ])
    go addr size v space none = on_panicked
    go addr size v space (some r) = h r.device addr size v space
