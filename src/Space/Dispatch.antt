-- ===== src/Space/Dispatch.antt =====
-- `PhysicalAddressSpace`: the map of ranges in the order of their starts, and the calls it
-- passes on.
use revive.Common.{
  ℕ, ◌+◌, ◌^◌, ◌≤◌, ◌<◌, ◌≡◌, sym, ap, ◌↔◌, ◌⊎◌, inl, inr, Bool, false, ◌||◌, Option, none, some,
  List, [], ◌∷◌, arith, ltb, ◌==◌, if◌then◌else◌, Bool-cases, Outcome, done, panicked, if_holds,
  on_done, on_panicked, OnDone-get, OnDone-test,
}
use mathlib.Core.Path.{subst}
use mathlib.Core.Option.{some-injective}
use mathlib.Core.List.{Memᴰ}
use mathlib.Core.List.Memᴰ.{head, tail}
use revive.Space.Range.{
  AddressRange, in_range, overlap_range, IsBounded, Holds, in_range-Holds, overlap_range_iff,
}

module _ {D : Type 0} where
  unfoldable pub find : List (AddressRange D) → ℕ → ℕ → Option (AddressRange D)
  find [] addr size = none
  find (r ∷ ranges) addr size = if in_range r addr size then some r else find ranges addr size

  -- `ranges[r->getStart()] = r` on the map, which is ordered by the start and has each start once.
  unfoldable pub insert_range : AddressRange D → List (AddressRange D) → List (AddressRange D)
  insert_range r [] = r ∷ []
  insert_range r (r0 ∷ ranges) =
      if ltb r.start r0.start
      then r ∷ r0 ∷ ranges
      else if r.start == r0.start
      then r ∷ ranges
      else r0 ∷ insert_range r ranges

  unfoldable pub overlaps_any : AddressRange D → List (AddressRange D) → Bool
  overlaps_any r [] = false
  overlaps_any r (r0 ∷ ranges) = overlap_range r r0 || overlaps_any r ranges

  unfoldable pub add_range :
      AddressRange D → List (AddressRange D) → Outcome (List (AddressRange D))
  add_range r ranges = if overlaps_any r ranges then panicked else done (insert_range r ranges)

  -- A range has bytes and ends below 2 ^ 64.
  pub record IsProper (r : AddressRange D) : Type 0 where
    pub bounded : IsBounded r
    pub has_bytes : 0 < r.size

  -- One ends before the other starts.
  abbrev pub Apart : AddressRange D → AddressRange D → Type 0
  Apart r other = (r.start + r.size ≤ other.start) ⊎ (other.start + other.size ≤ r.start)

  abbrev pub AllApart : AddressRange D → List (AddressRange D) → Type 0
  AllApart r [] = Unit
  AllApart r (r0 ∷ ranges) = Apart r r0 × AllApart r ranges

  -- The invariant of the map: proper ranges, any two of them apart.
  abbrev pub IsSpace : List (AddressRange D) → Type 0
  IsSpace [] = Unit
  IsSpace (r ∷ ranges) = IsProper r × (AllApart r ranges × IsSpace ranges)

  Apart-of_test :
      (r other : AddressRange D)
      → IsProper r
      → IsProper other
      → overlap_range r other ≡ false
      → Apart r other
  Apart-of_test r other p q e =
      let i = overlap_range_iff r other p.bounded q.bounded p.has_bytes q.has_bytes in
      ground (arith, i.1)

  all_apart :
      (r : AddressRange D) (ranges : List (AddressRange D))
      → IsProper r
      → IsSpace ranges
      → overlaps_any r ranges ≡ false
      → AllApart r ranges
  unfolding overlaps_any
  all_apart r [] p s e = tt
  all_apart r (r0 ∷ ranges) p s e =
      (Apart-of_test r r0 p s.0 (ground arith), all_apart r ranges p s.1.1 (ground arith))

  insert-Apart :
      (r0 r : AddressRange D) (ranges : List (AddressRange D))
      → Apart r0 r
      → AllApart r0 ranges
      → AllApart r0 (insert_range r ranges)
  unfolding insert_range
  insert-Apart r0 r [] a h = (a, tt)
  insert-Apart r0 r (r1 ∷ ranges) a h =
      if_holds (AllApart r0) (ltb r.start r1.start) _ _ (λ _. (a, h))
        λ _.
          if_holds (AllApart r0) (r.start == r1.start) _ _ (λ _. (a, h.1))
            (λ _. (h.0, insert-Apart r0 r ranges a h.1))

  Apart-sym : (r other : AddressRange D) → Apart r other → Apart other r
  Apart-sym r other (inl h) = inr h
  Apart-sym r other (inr h) = inl h

  insert-IsSpace :
      (r : AddressRange D) (ranges : List (AddressRange D))
      → IsProper r
      → IsSpace ranges
      → AllApart r ranges
      → IsSpace (insert_range r ranges)
  unfolding insert_range
  insert-IsSpace r [] p s a = (p, (tt, tt))
  insert-IsSpace r (r0 ∷ ranges) p s a =
      if_holds IsSpace (ltb r.start r0.start) _ _ (λ _. (p, (a, s)))
        λ _.
          if_holds IsSpace (r.start == r0.start) _ _ (λ _. (p, (a.1, s.1.1)))
            (λ _. (
              s.0,
              (
                insert-Apart r0 r ranges (Apart-sym r r0 a.0) s.1.0,
                insert-IsSpace r ranges p s.1.1 a.1,
              ),
            ))

  -- Adding a proper range to a map of proper ranges, any two of them apart, gives such a map, if
  -- the range is accepted.
  pub add_range-IsSpace :
      (r : AddressRange D) (ranges ranges' : List (AddressRange D))
      → IsProper r
      → IsSpace ranges
      → add_range r ranges ≡ done ranges'
      → IsSpace ranges'
  unfolding add_range
  add_range-IsSpace r ranges ranges' p s e =
      OnDone-get {P = IsSpace} ranges'
        (OnDone-test (overlaps_any r ranges) _ _ (λ _. on_panicked)
          (λ h. on_done (insert-IsSpace r ranges p s (all_apart r ranges p s h))))
        e

  Apart-of_mem :
      (x r : AddressRange D) (ranges : List (AddressRange D))
      → AllApart x ranges
      → Memᴰ r ranges
      → Apart x r
  Apart-of_mem x r _ a (head {x = y} {xs = ys} e) = subst (λ t. Apart x t) (sym e) a.0
  Apart-of_mem x r _ a (tail {x = y} {xs = ys} m) = Apart-of_mem x r ys a.1 m

  not_both :
      (x r : AddressRange D) (addr size : ℕ)
      → Apart x r
      → 0 < size
      → Holds r addr size
      → Holds x addr size
      → ⊥
  not_both x r addr size a h p q = omega (arith, a, h, p, q)

  module _ (addr size : ℕ) (h : addr < 2 ^ 64) (n : 0 < size) where
    found_mem :
        (ranges : List (AddressRange D))
        → IsSpace ranges
        → (r : AddressRange D) → find ranges addr size ≡ some r
        → Memᴰ r ranges × Holds r addr size
    unfolding find
    found_mem [] s r e = cc
    found_mem (x ∷ ranges) s r e = elim (Bool-cases (in_range x addr size)) [
      | inl t ↦
          let q : x ≡ r = some-injective x r (rw t at e) in
          (
            head (sym q),
            subst (λ z. Holds z addr size) q ((in_range-Holds x addr size s.0.bounded h).0 t),
          )
      | inr f ↦ let rest = found_mem ranges s.1.1 r (rw f at e) in (tail rest.0, rest.1)
    ]

    mem_found :
        (r : AddressRange D) (ranges : List (AddressRange D))
        → IsSpace ranges
        → Memᴰ r ranges
        → Holds r addr size
        → find ranges addr size ≡ some r
    unfolding find
    mem_found r _ s (head {x = x} {xs = xs} e) p =
        let t = (in_range-Holds x addr size s.0.bounded h).1 (subst (λ z. Holds z addr size) e p) in
        rw t (ap some (sym e))
    mem_found r _ s (tail {x = x} {xs = xs} m) p = elim (Bool-cases (in_range x addr size)) [
      | inl t ↦ absurd (
          not_both x r addr size (Apart-of_mem x r xs s.1.0 m) n p
            ((in_range-Holds x addr size s.0.bounded h).0 t))
      | inr f ↦ rw f (mem_found r xs s.1.1 m p)
    ]

-- In a map of proper ranges, any two of them apart, the range that is found for some bytes below
-- 2 ^ 64 is the one of the map that holds them all, whatever the order of the ranges.
pub find_iff :
    {D : Type 0} (ranges : List (AddressRange D)) (addr size : ℕ) (r : AddressRange D)
    → IsSpace ranges
    → addr < 2 ^ 64
    → 0 < size
    → (find ranges addr size ≡ some r) ↔ (Memᴰ r ranges × Holds r addr size)
find_iff ranges addr size r s h n =
    (found_mem addr size h n ranges s r, (λ p. mem_found addr size h n r ranges s p.0 p.1))
