-- ===== src/Command/Options.antt =====
-- The value that an option gets from the command line.
use revive.Common.{
  ℕ, suc, ◌+◌, ◌≡◌, refl, ap, ◌∙◌, true, false, Option, none, some, List, [], ◌∷◌, ◌++◌, arith,
  if◌then◌else◌, if_holds, length,
}
use mathlib.Core.Option.{some-injective}
use revive.Command.{
  Text, ArgType, arg_int, arg_uint, arg_int64, arg_uint64, arg_set_true, arg_set_false, arg_string,
  arg_custom, Value, value_int, value_uint64, value_string, ArgRecord, ArgParser, Conversions,
  names, Parsed, parse_option, parse_from, parse, is_parsed,
}

-- No word is a name of the option.
abbrev pub NotNamed : ArgRecord → List Text → Type 0
NotNamed r [] = Unit
NotNamed r (v ∷ words) = (names r v ≡ false) × NotNamed r words

-- The value that a word gives to an option of a type, if the type takes one.
unfoldable pub value_of : Conversions → ArgType → Text → Option Value
value_of lib arg_int w = some (value_int (lib.atoi w))
value_of lib arg_uint64 w = some (value_uint64 (lib.strtoull w))
value_of lib arg_string w = some (value_string (some w))
value_of lib arg_uint w = none
value_of lib arg_int64 w = none
value_of lib arg_set_true w = none
value_of lib arg_set_false w = none
value_of lib arg_custom w = none

-- Parsing leaves the names and the type of an option.
record SameOption (r r' : ArgRecord) : Type 0 where
  same_short : r'.name_short ≡ r.name_short
  same_full : r'.name_full ≡ r.name_full
  same_type : r'.type ≡ r.type

same_option : (r : ArgRecord) (v : Value) → SameOption r (record r { value = v })
same_option r v = record { same_short = refl; same_full = refl; same_type = refl }

module _ (lib : Conversions) where
  parse_from-absent :
      (i : ℕ) (words : List Text) (p : Parsed) → NotNamed p.0 words → parse_from lib i words p ≡ p
  unfolding parse_from
  parse_from-absent i [] p h = refl
  parse_from-absent i (v ∷ words) p h = rw (parse_from, h.0) (parse_from-absent (i + 1) words p h.1)

  parse_option-SameOption :
      (type : ArgType) (i : ℕ) (next : List Text) (p : Parsed)
      → SameOption p.0 (parse_option lib type i next p).0
  unfolding parse_option
  parse_option-SameOption arg_set_true i next p = same_option p.0 _
  parse_option-SameOption arg_set_false i next p = same_option p.0 _
  parse_option-SameOption arg_string i [] p = same_option p.0 p.0.value
  parse_option-SameOption arg_string i (w ∷ next) p = same_option p.0 _
  parse_option-SameOption arg_int i [] p = same_option p.0 p.0.value
  parse_option-SameOption arg_int i (w ∷ next) p = same_option p.0 _
  parse_option-SameOption arg_uint64 i [] p = same_option p.0 p.0.value
  parse_option-SameOption arg_uint64 i (w ∷ next) p = same_option p.0 _
  parse_option-SameOption arg_uint i next p = same_option p.0 p.0.value
  parse_option-SameOption arg_int64 i next p = same_option p.0 p.0.value
  parse_option-SameOption arg_custom i next p = same_option p.0 p.0.value

  -- After some words, the loop goes on with the same option.
  record After (p : Parsed) (words : List Text) (i : ℕ) (rest : List Text) : Type 0 where
    state : Parsed
    same : SameOption p.0 state.0
    goes_on : parse_from lib i (words ++ rest) p ≡ parse_from lib (i + length words) rest state

  parse_from-append : (words rest : List Text) (i : ℕ) (p : Parsed) → After p words i rest
  unfolding parse_from
  parse_from-append [] rest i p =
      let at : i ≡ i + 0 = omega arith in
      record {
        state = p;
        same = same_option p.0 p.0.value;
        goes_on = ap (λ k. parse_from lib k rest p) at;
      }
  parse_from-append (v ∷ words) rest i p =
      let p1 = if names p.0 v then parse_option lib p.0.type i (words ++ rest) p else p in
      let one : SameOption p.0 p1.0 =
        if_holds (λ (q : Parsed). SameOption p.0 q.0) (names p.0 v) _ _
          (λ _. parse_option-SameOption p.0.type i (words ++ rest) p)
          (λ _. same_option p.0 p.0.value) in
      let more = parse_from-append words rest (i + 1) p1 in
      let at : i + 1 + length words ≡ i + suc (length words) = omega arith in
      record {
        state = more.state;
        same = record {
          same_short = more.same.same_short ∙ one.same_short;
          same_full = more.same.same_full ∙ one.same_full;
          same_type = more.same.same_type ∙ one.same_type;
        };
        goes_on = more.goes_on ∙ ap (λ k. parse_from lib k rest more.state) at;
      }

  -- The option with a value that two words gave it.
  abbrev taken : ℕ → Parsed → Value → Parsed
  taken i p v = (record (p.0) { value = v }, (i + 1) ∷ i ∷ p.1)

  with_value :
      (i : ℕ) (w : Text) (next : List Text) (p : Parsed) (u v : Value)
      → u ≡ v
      → taken i p u ≡ taken i p v
  with_value i w next p u v e = ap (taken i p) e

  parse_option-value :
      (type : ArgType) (i : ℕ) (w : Text) (next : List Text) (p : Parsed) (v : Value)
      → value_of lib type w ≡ some v
      → parse_option lib type i (w ∷ next) p ≡ taken i p v
  unfolding parse_option value_of
  parse_option-value arg_int i w next p v e = with_value i w next p _ v (some-injective _ v e)
  parse_option-value arg_uint64 i w next p v e = with_value i w next p _ v (some-injective _ v e)
  parse_option-value arg_string i w next p v e = with_value i w next p _ v (some-injective _ v e)
  parse_option-value arg_uint i w next p v e = cc
  parse_option-value arg_int64 i w next p v e = cc
  parse_option-value arg_set_true i w next p v e = cc
  parse_option-value arg_set_false i w next p v e = cc
  parse_option-value arg_custom i w next p v e = cc

names-SameOption : (r r' : ArgRecord) (v : Text) → SameOption r r' → names r' v ≡ names r v
names-SameOption r r' v s = rw (s.same_short, s.same_full) refl

same_value :
    (r r' : ArgRecord) (v : Value)
    → SameOption r r'
    → record r' { value = v } ≡ record r { value = v }
same_value r r' v s = rw (s.same_short, s.same_full, s.same_type) refl

NotNamed-SameOption :
    (r r' : ArgRecord) (words : List Text) → SameOption r r' → NotNamed r words → NotNamed r' words
NotNamed-SameOption r r' [] s h = tt
NotNamed-SameOption r r' (v ∷ words) s h =
    (names-SameOption r r' v s ∙ h.0, NotNamed-SameOption r r' words s h.1)

-- If the last word that names an option is followed by a word that its type takes, and that word
-- does not name it, then the option's value is what the C library makes of that word, nothing
-- else of the option changes, and the two words count as parsed.
pub parse-last :
    (lib : Conversions) (parser : ArgParser) (r : ArgRecord) (front back : List Text)
    (name w : Text) (v : Value)
    → parser.argv ≡ front ++ name ∷ w ∷ back
    → names r name ≡ true
    → NotNamed r (w ∷ back)
    → value_of lib r.type w ≡ some v
    → ((parse lib parser r).1 ≡ record r { value = v })
      × (is_parsed (1 + length front) (parse lib parser r).0.parsed_arg_indices ≡ true)
      × (is_parsed (2 + length front) (parse lib parser r).0.parsed_arg_indices ≡ true)
unfolding parse parse_from is_parsed
parse-last lib parser r front back name w v e n not_named val =
    let start : Parsed = (r, parser.parsed_arg_indices) in
    let indices = parser.parsed_arg_indices in
    let i = 1 + length front in
    let after = parse_from-append lib front (name ∷ w ∷ back) 1 start in
    let named = names-SameOption r after.state.0 name after.same ∙ n in
    let value : value_of lib after.state.0.type w ≡ some v = rw after.same.same_type val in
    let set = parse_option-value lib after.state.0.type i w back after.state v value in
    let p1 = taken lib i after.state v in
    let kept = same_value r after.state.0 v after.same in
    let quiet = parse_from-absent lib (i + 1) (w ∷ back) p1 (
      NotNamed-SameOption r p1.0 (w ∷ back)
        record {
          same_short = after.same.same_short;
          same_full = after.same.same_full;
          same_type = after.same.same_type;
        }
        not_named) in
    let step : parse_from lib i (name ∷ w ∷ back) after.state ≡ p1 =
      rw (parse_from, named, set) quiet in
    let all : parse_from lib 1 parser.argv start ≡ p1 = rw e (after.goes_on ∙ step) in
    rw all (kept, ground arith, ground arith)
