-- ===== src/Space/Block.antt =====
-- The loops of `AddressRange` over many bytes, and the calls of `PhysicalAddressSpace` to them.
pub mod Stored
pub mod Round
use revive.Common.{
  ℕ, zero, suc, ◌+◌, ◌-◌, ◌*◌, ◌/◌, ◌%◌, ◌^◌, ◌≤◌, ◌<◌, bit_and, bit_or, bit_xor, ◌≡◌, refl, sym,
  ap, ◌∙◌, ◌≢◌, ◌↔◌, ◌⊎◌, inl, inr, Bool, true, false, not, xor, ◌&&◌, ◌||◌, Option, none, some,
  List, [], ◌∷◌, ◌++◌, arith, ltb, leb, ◌==◌, ◌!=◌, between, if◌then◌else◌, ==_iff, Bool-cases, u8,
  u16, u32, u64, not32, not64, field, set_field, test_bits, Outcome, done, panicked, OnSome,
  on_none, on_some, OnSome-if, OnSome-test, OnSome-get, if_holds, OnDone, on_done, on_panicked,
  OnDone-get, OnDone-test, length, get_elem?, set, get_elem?-set_self, get_elem?-set_ne,
  length-append, get_elem?-below, get_elem?-beyond, length-set,
}
use revive.Hart.State.{Signal}
use revive.Space.Range.{AddressRange}
use revive.Space.Dispatch.{find}
use revive.Space.Call.{Methods}

-- An `int` of 32 bits, widened to 64.
abbrev pub widen : ℕ → ℕ
widen n = let low = u32 n in if ltb low (2 ^ 31) then low else low + 2 ^ 64 - 2 ^ 32

module _ {D S : Type 0} (methods : Methods D S) where
  unfoldable pub read_bytes : D → ℕ → ℕ → S → Outcome (List ℕ × S)
  read_bytes d addr zero space = done ([], space)
  read_bytes d addr (suc n) space = elim (methods.read d addr 1 space) [
    | done (data', space1) ↦ (elim (read_bytes d (u64 (addr + 1)) n space1) [
      | done (bytes, space') ↦ done (bit_and data' 0xff ∷ bytes, space')
      | panicked ↦ panicked
    ])
    | panicked ↦ panicked
  ]

  -- The signals are those of all the writes, in their order.
  unfoldable pub write_bytes : D → ℕ → List ℕ → S → Outcome (S × List Signal)
  write_bytes d addr [] space = done (space, [])
  write_bytes d addr (byte ∷ bytes) space = elim (methods.write d addr 1 byte space) [
    | done (space1, cs) ↦ (elim (write_bytes d (u64 (addr + 1)) bytes space1) [
      | done (space', cs') ↦ done (space', cs ++ cs')
      | panicked ↦ panicked
    ])
    | panicked ↦ panicked
  ]

  -- `c` is an `int`, that is widened.
  unfoldable pub set_bytes : D → ℕ → ℕ → ℕ → S → Outcome (S × List Signal)
  set_bytes d addr c zero space = done (space, [])
  set_bytes d addr c (suc n) space = elim (methods.write d addr 1 (widen c) space) [
    | done (space1, cs) ↦ (elim (set_bytes d (u64 (addr + 1)) c n space1) [
      | done (space', cs') ↦ done (space', cs ++ cs')
      | panicked ↦ panicked
    ])
    | panicked ↦ panicked
  ]

  -- `find` takes its size as an `int`.
  unfoldable pub read : List (AddressRange D) → ℕ → ℕ → S → Outcome (List ℕ × S)
  read ranges addr size space = elim (find ranges addr (widen size)) [
    | some r ↦ read_bytes r.device addr size space
    | none ↦ panicked
  ]

  -- `size` is the number of the bytes.
  unfoldable pub write : List (AddressRange D) → ℕ → List ℕ → S → Outcome (S × List Signal)
  write ranges addr bytes space = elim (find ranges addr (widen (length bytes))) [
    | some r ↦ write_bytes r.device addr bytes space
    | none ↦ panicked
  ]

  -- The call passes `size` on as the value and `c`, widened, as the size.
  unfoldable pub memset : List (AddressRange D) → ℕ → ℕ → ℕ → S → Outcome (S × List Signal)
  memset ranges addr c size space = elim (find ranges addr (widen size)) [
    | some r ↦ set_bytes r.device addr (u32 size) (widen c) space
    | none ↦ panicked
  ]
