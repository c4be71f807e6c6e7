-- ===== src/Bin2c.antt =====
-- bin2c (common/utils/bin2c.c): a program that writes the bytes of a file as an array of C. What the
-- C library does is the parameter Library: how files open, what fread gives, and how a number is
-- printed or read.
pub mod Array
pub mod Copy
pub mod Writes
mod Examples
use revive.Common.{
  ℕ, zero, suc, ◌+◌, ◌-◌, ◌/◌, ◌%◌, ◌^◌, Bool, true, false, Option, none, some, List, [], ◌∷◌, ◌++◌,
  leb, if◌then◌else◌, u64, length,
}
use revive.Command.{Text, same_text}

-- `unsigned char __attribute__ ((aligned (`
abbrev unsigned_char : Text
unsigned_char =
    b'u' ∷ b'n' ∷ b's' ∷ b'i' ∷ b'g' ∷ b'n' ∷ b'e' ∷ b'd' ∷ b' ' ∷ b'c' ∷ b'h' ∷ b'a' ∷ b'r' ∷ b' '
    ∷ b'_' ∷ b'_' ∷ b'a' ∷ b't' ∷ b't' ∷ b'r' ∷ b'i' ∷ b'b' ∷ b'u' ∷ b't' ∷ b'e' ∷ b'_' ∷ b'_'
    ∷ b' ' ∷ b'(' ∷ b'(' ∷ b'a' ∷ b'l' ∷ b'i' ∷ b'g' ∷ b'n' ∷ b'e' ∷ b'd' ∷ b' ' ∷ b'(' ∷ []

-- `), section (\"`
abbrev section_of : Text
section_of =
    b')' ∷ b',' ∷ b' ' ∷ b's' ∷ b'e' ∷ b'c' ∷ b't' ∷ b'i' ∷ b'o' ∷ b'n' ∷ b' ' ∷ b'(' ∷ b'"' ∷ []

-- `\"))) `
abbrev end_of_section : Text
end_of_section = b'"' ∷ b')' ∷ b')' ∷ b')' ∷ b' ' ∷ []

-- `))) `
abbrev end_of_align : Text
end_of_align = b')' ∷ b')' ∷ b')' ∷ b' ' ∷ []

-- `[] = {\n`
abbrev opening : Text
opening = b'[' ∷ b']' ∷ b' ' ∷ b'=' ∷ b' ' ∷ b'{' ∷ b'\n' ∷ []

-- `};\n\nunsigned long `
abbrev closing : Text
closing =
    b'}' ∷ b';' ∷ b'\n' ∷ b'\n' ∷ b'u' ∷ b'n' ∷ b's' ∷ b'i' ∷ b'g' ∷ b'n' ∷ b'e' ∷ b'd' ∷ b' '
    ∷ b'l' ∷ b'o' ∷ b'n' ∷ b'g' ∷ b' ' ∷ []

-- `_bytes = 0x`
abbrev bytes_are : Text
bytes_are = b'_' ∷ b'b' ∷ b'y' ∷ b't' ∷ b'e' ∷ b's' ∷ b' ' ∷ b'=' ∷ b' ' ∷ b'0' ∷ b'x' ∷ []

-- `ul;\n\n`
abbrev end_of_bytes : Text
end_of_bytes = b'u' ∷ b'l' ∷ b';' ∷ b'\n' ∷ b'\n' ∷ []

-- `Usage:\n\tbin2c --bin bin --c out --symbol symbol [--align align] [--section section]\n`
abbrev usage_text : Text
usage_text =
    b'U' ∷ b's' ∷ b'a' ∷ b'g' ∷ b'e' ∷ b':' ∷ b'\n' ∷ b'\t' ∷ b'b' ∷ b'i' ∷ b'n' ∷ b'2' ∷ b'c'
    ∷ b' ' ∷ b'-' ∷ b'-' ∷ b'b' ∷ b'i' ∷ b'n' ∷ b' ' ∷ b'b' ∷ b'i' ∷ b'n' ∷ b' ' ∷ b'-' ∷ b'-'
    ∷ b'c' ∷ b' ' ∷ b'o' ∷ b'u' ∷ b't' ∷ b' ' ∷ b'-' ∷ b'-' ∷ b's' ∷ b'y' ∷ b'm' ∷ b'b' ∷ b'o'
    ∷ b'l' ∷ b' ' ∷ b's' ∷ b'y' ∷ b'm' ∷ b'b' ∷ b'o' ∷ b'l' ∷ b' ' ∷ b'[' ∷ b'-' ∷ b'-' ∷ b'a'
    ∷ b'l' ∷ b'i' ∷ b'g' ∷ b'n' ∷ b' ' ∷ b'a' ∷ b'l' ∷ b'i' ∷ b'g' ∷ b'n' ∷ b']' ∷ b' ' ∷ b'['
    ∷ b'-' ∷ b'-' ∷ b's' ∷ b'e' ∷ b'c' ∷ b't' ∷ b'i' ∷ b'o' ∷ b'n' ∷ b' ' ∷ b's' ∷ b'e' ∷ b'c'
    ∷ b't' ∷ b'i' ∷ b'o' ∷ b'n' ∷ b']' ∷ b'\n' ∷ []

-- `--bin`
abbrev pub bin_option : Text
bin_option = b'-' ∷ b'-' ∷ b'b' ∷ b'i' ∷ b'n' ∷ []

-- `--c`
abbrev pub c_option : Text
c_option = b'-' ∷ b'-' ∷ b'c' ∷ []

-- `--symbol`
abbrev pub symbol_option : Text
symbol_option = b'-' ∷ b'-' ∷ b's' ∷ b'y' ∷ b'm' ∷ b'b' ∷ b'o' ∷ b'l' ∷ []

-- `--align`
abbrev pub align_option : Text
align_option = b'-' ∷ b'-' ∷ b'a' ∷ b'l' ∷ b'i' ∷ b'g' ∷ b'n' ∷ []

-- `--section`
abbrev pub section_option : Text
section_option = b'-' ∷ b'-' ∷ b's' ∷ b'e' ∷ b'c' ∷ b't' ∷ b'i' ∷ b'o' ∷ b'n' ∷ []

-- What the program asks of the C library, with the streams that it reads as a type: `fread` gives the
-- bytes of a call for eight, and the stream behind them. `fopen_write` gives what the stream that is
-- open is then, since it empties the file, which may be the same one.
pub record Library {ℓ} (F : Type ℓ) : Type ℓ where
  pub fopen_read : Text → Option F
  pub fopen_write : Text → F → Option F
  pub fread : F → List ℕ × F
  pub decimal : ℕ → Text
  pub hexadecimal : ℕ → Text
  pub atoi : Text → ℕ

-- What the program returns, what it prints, and the name and the text of the file that it writes.
pub record Ended : Type 0 where
  pub code : ℕ
  pub printed : Text
  pub written : Option (Text × Text)

-- `-1` as an `int`
abbrev pub failed : ℕ
failed = 2 ^ 32 - 1

-- An end by an error, with what was printed.
abbrev pub fails : Text → Ended
fails text = record { code = failed; printed = text; written = none }

unfoldable pub nibble_char : ℕ → ℕ
nibble_char nibble = if leb 10 nibble then b'a' + (nibble - 10) else b'0' + nibble

-- `"0x%c%c, "` of a byte.
unfoldable pub byte_text : ℕ → Text
byte_text byte = b'0' ∷ b'x' ∷ nibble_char (byte / 16) ∷ nibble_char (byte % 16) ∷ b',' ∷ b' ' ∷ []

-- The inner loop, over the bytes of the buffer.
unfoldable pub line_text : List ℕ → Text
line_text [] = []
line_text (byte ∷ buf) = byte_text byte ++ line_text buf

-- What is put in front of a text that is written later.
abbrev pub after : Text → Option (Text × ℕ) → Option (Text × ℕ)
after text none = none
after text (some (rest, bytes)) = some (text ++ rest, bytes)

-- `fprintf` of the options of the array.
unfoldable pub start_text : (ℕ → Text) → Text → ℕ → Option Text → Text
start_text decimal symbol align none =
    unsigned_char ++ decimal align ++ end_of_align ++ symbol ++ opening
start_text decimal symbol align (some section) =
    unsigned_char ++ decimal align ++ section_of ++ section ++ end_of_section ++ symbol ++ opening

unfoldable pub finish_text : (ℕ → Text) → Text → ℕ → Text
finish_text hexadecimal symbol bytes =
    closing ++ symbol ++ bytes_are ++ hexadecimal bytes ++ end_of_bytes

-- The word behind the first one that is the name, but for the last word.
unfoldable pub parse_str : List Text → Text → Option Text → Option Text
parse_str [] name def = def
parse_str (v ∷ []) name def = def
parse_str (v ∷ w ∷ rest) name def =
    let later = parse_str (w ∷ rest) name def in if same_text v name then some w else later

-- A pass of the loop, with what the passes behind it write and count.
unfoldable pub copy_line : List ℕ → ℕ → Option (Text × ℕ) → Option (Text × ℕ)
copy_line [] bytes rest = some ([], bytes)
copy_line (byte ∷ buf) bytes rest =
    after (b' ' ∷ b' ' ∷ b' ' ∷ b' ' ∷ line_text (byte ∷ buf) ++ b'\n' ∷ []) rest

module _ {ℓ} {F : Type ℓ} (lib : Library F) where
  -- The loop, with the bytes that were counted; none where the fuel ends.
  unfoldable pub copy_to_c : (fuel : ℕ) → F → ℕ → Option (Text × ℕ)
  copy_to_c zero f bytes = none
  copy_to_c (suc fuel) f bytes =
      let (buf, f') = lib.fread f in
      copy_line buf bytes (copy_to_c fuel f' (u64 (bytes + length buf)))

  -- `NULL` stands for a section that is not asked for.
  unfoldable pub write_c : Text → Text → ℕ → Option Text → Option (Text × ℕ) → Option Ended
  write_c c_name symbol align section none = none
  write_c c_name symbol align section (some (text, bytes)) = some (record {
    code = 0;
    printed = [];
    written = some (
      c_name,
      start_text lib.decimal symbol align section
          ++ text
          ++ finish_text lib.hexadecimal symbol bytes,
    );
  })

  unfoldable pub copy_file : ℕ → Text → Text → ℕ → Option Text → Option F → Option Ended
  copy_file fuel c_name symbol align section none = some (fails [])
  copy_file fuel c_name symbol align section (some f) =
      write_c c_name symbol align section (copy_to_c fuel f 0)

  unfoldable pub open_c : ℕ → Text → Text → ℕ → Option Text → Option F → Option Ended
  open_c fuel c_name symbol align section none = some (fails [])
  open_c fuel c_name symbol align section (some f) =
      copy_file fuel c_name symbol align section (lib.fopen_write c_name f)

  unfoldable pub bin2c : ℕ → Text → Text → Text → ℕ → Option Text → Option Ended
  bin2c fuel bin_name c_name symbol align section =
      open_c fuel c_name symbol align section (lib.fopen_read bin_name)

  unfoldable pub parse_int : List Text → Text → ℕ → ℕ
  parse_int [] name def = def
  parse_int (v ∷ []) name def = def
  parse_int (v ∷ w ∷ rest) name def =
      let later = parse_int (w ∷ rest) name def in if same_text v name then lib.atoi w else later

  -- The test of the three options that must be given, and what follows it.
  unfoldable pub run_options :
      ℕ → List Text → Option Text → Option Text → Option Text → Option Ended
  run_options fuel argv (some bin_name) (some c_name) (some symbol) =
      bin2c fuel bin_name c_name symbol (parse_int argv align_option 8)
        (parse_str argv section_option none)
  run_options fuel argv (some bin_name) (some c_name) none = some (fails usage_text)
  run_options fuel argv (some bin_name) none symbol = some (fails usage_text)
  run_options fuel argv none c_name symbol = some (fails usage_text)

  -- `argv` are the words after the program's name.
  unfoldable pub main : ℕ → List Text → Option Ended
  main fuel argv =
      run_options fuel argv (parse_str argv bin_option none) (parse_str argv c_option none)
        (parse_str argv symbol_option none)
