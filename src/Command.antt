-- ===== src/Command.antt =====
-- `ArgParser` (sim/cmd.cc, sim/include/cmd.hh): the options of the command line.
pub mod Options
pub mod Validate
mod Examples
use revive.Common.{
  ℕ, zero, suc, ◌+◌, ◌-◌, ◌*◌, ◌/◌, ◌%◌, ◌^◌, ◌≤◌, ◌<◌, bit_and, bit_or, bit_xor, ◌≡◌, refl, sym,
  ap, ◌∙◌, ◌≢◌, ◌↔◌, ◌⊎◌, inl, inr, Bool, true, false, not, xor, ◌&&◌, ◌||◌, Option, none, some,
  List, [], ◌∷◌, ◌++◌, arith, ltb, leb, ◌==◌, ◌!=◌, between, if◌then◌else◌, ==_iff, Bool-cases, u8,
  u16, u32, u64, not32, not64, field, set_field, test_bits, Outcome, done, panicked, OnSome,
  on_none, on_some, OnSome-if, OnSome-test, OnSome-get, if_holds, OnDone, on_done, on_panicked,
  OnDone-get, OnDone-test, OnDone-if, length, get_elem?, set, get_elem?-set_self, get_elem?-set_ne,
  length-append, get_elem?-below, get_elem?-beyond, length-set,
}

-- A string: its characters.
abbrev pub Text : Type 0
Text = List ℕ

-- `!strcmp(a, b)`
unfoldable pub same_text : Text → Text → Bool
same_text [] [] = true
same_text [] (c ∷ b) = false
same_text (c ∷ a) [] = false
same_text (c ∷ a) (d ∷ b) = (c == d) && same_text a b

pub data ArgType : Type 0 where
  arg_int arg_uint arg_int64 arg_uint64 arg_set_true arg_set_false arg_string arg_custom : ArgType

-- The member of the union that was written last.
pub data Value : Type 0 where
  value_int value_uint64 : ℕ → Value
  value_bool : Bool → Value
  value_string : Option Text → Value
  value_custom : (count : ℕ) (args : List Text) → Value

pub record ArgRecord : Type 0 where
  pub name_short : Text
  pub name_full : Text
  pub type : ArgType
  pub value : Value

-- `args`, the words of the command line after the program's name, and `parsedArgIndices`
pub record ArgParser : Type 0 where
  pub args : List (Text × ArgRecord)
  pub argv : List Text
  pub parsed_arg_indices : List ℕ

-- What the C library makes of a word.
pub record Conversions : Type 0 where
  pub atoi : Text → ℕ
  pub strtoull : Text → ℕ

abbrev pub names : ArgRecord → Text → Bool
names r v = same_text v r.name_short || same_text v r.name_full

-- A record and the indices that were parsed.
abbrev pub Parsed : Type 0
Parsed = ArgRecord × List ℕ

module _ (lib : Conversions) where
  -- The argument `i` names an option of a type; `next` are the words after it.
  unfoldable pub parse_option : ArgType → ℕ → List Text → Parsed → Parsed
  parse_option arg_set_true i next p = (record (p.0) { value = value_bool true }, i ∷ p.1)
  parse_option arg_set_false i next p = (record (p.0) { value = value_bool false }, i ∷ p.1)
  parse_option arg_string i (w ∷ next) p =
      (record (p.0) { value = value_string (some w) }, (i + 1) ∷ i ∷ p.1)
  parse_option arg_int i (w ∷ next) p =
      (record (p.0) { value = value_int (lib.atoi w) }, (i + 1) ∷ i ∷ p.1)
  parse_option arg_uint64 i (w ∷ next) p =
      (record (p.0) { value = value_uint64 (lib.strtoull w) }, (i + 1) ∷ i ∷ p.1)
  parse_option arg_string i [] p = p
  parse_option arg_int i [] p = p
  parse_option arg_uint64 i [] p = p
  parse_option arg_uint i next p = p
  parse_option arg_int64 i next p = p
  parse_option arg_custom i next p = p

  -- The loop, from the argument `i` on.
  unfoldable pub parse_from : ℕ → List Text → Parsed → Parsed
  parse_from i [] p = p
  parse_from i (v ∷ rest) p =
      parse_from (i + 1) rest (if names p.0 v then parse_option p.0.type i rest p else p)

  unfoldable pub parse : ArgParser → ArgRecord → ArgParser × ArgRecord
  parse parser r =
      let (r', indices) = parse_from 1 parser.argv (r, parser.parsed_arg_indices) in
      (record parser { parsed_arg_indices = indices }, r')

  -- `args[name] = record`, and the record after the parse
  unfoldable pub add : ArgParser → Text → Text → Text → ArgType → Value → ArgParser × ArgRecord
  add parser name name_short name_full type value =
      let r : ArgRecord = record {
        name_short = name_short;
        name_full = name_full;
        type = type;
        value = value;
      } in
      let (parser', r') = parse parser r in
      (record parser' { args = (name, r') ∷ parser'.args }, r')

  unfoldable pub add_set_true : ArgParser → Text → Text → Text → ArgParser × ArgRecord
  add_set_true parser name name_short name_full =
      add parser name name_short name_full arg_set_true (value_bool false)

  unfoldable pub add_string : ArgParser → Text → Text → Text → Option Text → ArgParser × ArgRecord
  add_string parser name name_short name_full def =
      add parser name name_short name_full arg_string (value_string def)

  unfoldable pub add_int : ArgParser → Text → Text → Text → ℕ → ArgParser × ArgRecord
  add_int parser name name_short name_full def =
      add parser name name_short name_full arg_int (value_int def)

  unfoldable pub add_uint64 : ArgParser → Text → Text → Text → ℕ → ArgParser × ArgRecord
  add_uint64 parser name name_short name_full def =
      add parser name name_short name_full arg_uint64 (value_uint64 def)

  -- The type is that of a number.
  unfoldable pub add_custom : ArgParser → Text → Text → Text → ℕ → List Text → ArgParser × ArgRecord
  add_custom parser name name_short name_full count args =
      add parser name name_short name_full arg_uint64 (value_custom count args)

-- The record of a name: the one that was added last.
unfoldable pub lookup : List (Text × ArgRecord) → Text → Option ArgRecord
lookup [] name = none
lookup (entry ∷ entries) name = if same_text name entry.0 then some entry.1 else lookup entries name

unfoldable pub get : ArgParser → Text → Option ArgRecord
get parser name = lookup parser.args name

unfoldable pub is_parsed : ℕ → List ℕ → Bool
is_parsed i [] = false
is_parsed i (j ∷ indices) = i == j || is_parsed i indices

-- The words from the argument `i` on that no option took.
unfoldable pub unknowns : ℕ → List Text → List ℕ → List Text
unknowns i [] indices = []
unknowns i (v ∷ rest) indices =
    let more = unknowns (i + 1) rest indices in if is_parsed i indices then more else v ∷ more

unfoldable pub is_empty : List Text → Bool
is_empty [] = true
is_empty (v ∷ words) = false

-- The result of `validate`; it prints the unknown words.
unfoldable pub validate : ArgParser → Bool
validate parser = is_empty (unknowns 1 parser.argv parser.parsed_arg_indices)
