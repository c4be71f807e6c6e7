-- ===== src/Command/Validate.antt =====
-- The words of the command line that are accepted.
use revive.Common.{
  ℕ, zero, suc, ◌+◌, ◌<◌, ◌≡◌, refl, ◌↔◌, inl, inr, true, false, List, [], ◌∷◌, arith, Bool-cases,
  length,
}
use mathlib.Core.Path.{subst}
use revive.Command.{Text, ArgParser, is_parsed, unknowns, is_empty, validate}

no_words : false ≡ true → ⊥
no_words e = cc

module _ (indices : List ℕ) where
  all_parsed :
      (i : ℕ) (words : List Text)
      → is_empty (unknowns i words indices) ≡ true
      → (k : ℕ) → k < length words
      → is_parsed (i + k) indices ≡ true
  unfolding unknowns is_empty
  all_parsed i [] e k h = absurd (omega (arith, h))
  all_parsed i (v ∷ words) e zero h = elim (Bool-cases (is_parsed i indices)) [
    | inl t ↦ let at : i + 0 ≡ i = omega arith in rw at t
    | inr f ↦ absurd (no_words (rw f at e))
  ]
  all_parsed i (v ∷ words) e (suc k) h =
      let at : i + suc k ≡ i + 1 + k = omega arith in
      let rest : is_empty (unknowns (i + 1) words indices) ≡ true =
        elim (Bool-cases (is_parsed i indices)) [
          | inl t ↦ rw t at e
          | inr f ↦ absurd (no_words (rw f at e))
        ] in
      rw at (all_parsed (i + 1) words rest k (omega (arith, h)))

  none_unknown :
      (i : ℕ) (words : List Text)
      → ((k : ℕ) → k < length words → is_parsed (i + k) indices ≡ true)
      → is_empty (unknowns i words indices) ≡ true
  unfolding unknowns is_empty
  none_unknown i [] h = refl
  none_unknown i (v ∷ words) h =
      let at : i + 0 ≡ i = omega arith in
      let first : is_parsed i indices ≡ true =
        subst (λ j. is_parsed j indices ≡ true) at (h 0 (omega arith)) in
      rw first (
        none_unknown (i + 1) words (λ k l.
          let next : i + suc k ≡ i + 1 + k = omega arith in
          subst (λ j. is_parsed j indices ≡ true) next (h (suc k) (omega (arith, l)))))

-- The command line is accepted exactly if every word after the program's name counts as parsed.
pub validate_iff :
    (parser : ArgParser)
    → (validate parser ≡ true)
      ↔ ((k : ℕ) → k < length parser.argv → is_parsed (1 + k) parser.parsed_arg_indices ≡ true)
unfolding validate
validate_iff parser = (
  all_parsed parser.parsed_arg_indices 1 parser.argv,
  none_unknown parser.parsed_arg_indices 1 parser.argv,
)
