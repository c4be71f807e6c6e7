-- ===== src/Command/Examples.antt =====
-- The theorems of the command line at a concrete one.
use revive.Common.{ℕ, ◌≡◌, refl, true, some, [], ◌∷◌}
use revive.Command.{
  Text, ArgRecord, ArgParser, Conversions, arg_uint64, value_uint64, names, same_text, parse,
  is_parsed,
}
use revive.Command.Options.{value_of, NotNamed, parse-last}

-- A library that takes the first character for the number.
abbrev first_character : Text → ℕ
first_character [] = 0
first_character (c ∷ rest) = c

abbrev library : Conversions
library = record { atoi = first_character; strtoull = first_character }

-- `-C 7 x`, in characters
abbrev parser : ArgParser
parser = record {
  args = [];
  argv = (45 ∷ 67 ∷ []) ∷ (7 ∷ []) ∷ (120 ∷ []) ∷ [];
  parsed_arg_indices = [];
}

abbrev cycles_option : ArgRecord
cycles_option = record {
  name_short = 45 ∷ 67 ∷ [];
  name_full = 45 ∷ 45 ∷ [];
  type = arg_uint64;
  value = value_uint64 0;
}

named : names cycles_option (45 ∷ 67 ∷ []) ≡ true
unfolding same_text
named = refl

not_named : NotNamed cycles_option ((7 ∷ []) ∷ (120 ∷ []) ∷ [])
unfolding same_text
not_named = (refl, (refl, tt))

converted : value_of library arg_uint64 (7 ∷ []) ≡ some (value_uint64 7)
unfolding value_of
converted = refl

parse-last_example :
    ((parse library parser cycles_option).1 ≡ record cycles_option { value = value_uint64 7 })
    × (is_parsed 1 (parse library parser cycles_option).0.parsed_arg_indices ≡ true)
    × (is_parsed 2 (parse library parser cycles_option).0.parsed_arg_indices ≡ true)
parse-last_example =
    parse-last library parser cycles_option [] ((120 ∷ []) ∷ []) (45 ∷ 67 ∷ []) (7 ∷ [])
      (value_uint64 7) refl named not_named converted
