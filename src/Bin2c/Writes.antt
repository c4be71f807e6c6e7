-- ===== src/Bin2c/Writes.antt =====
-- The file that the program of common/utils/bin2c.c writes.
use revive.Common.{ℕ, ◌+◌, ◌<◌, ◌≡◌, refl, Option, none, some, List, [], ◌++◌, u64, length, arith}
use revive.Command.{Text}
use revive.Bin2c.{
  Library, Ended, start_text, finish_text, write_c, copy_file, open_c, bin2c, parse_int, parse_str,
  run_options, main, bin_option, c_option, symbol_option, align_option, section_option,
}
use revive.Bin2c.Array.{Place, read_array, AllBytes}
use revive.Bin2c.Copy.{IsStream, copy_to_c-Copied}

-- The end of a program that writes an array of some bytes into a file, as its options say.
pub record Writes {ℓ} {F : Type ℓ} (lib : Library F) (argv : List Text) (c_name symbol : Text)
    (bytes : List ℕ) (result : Option Ended) : Type 0 where
  pub text : Text
  pub wrote :
      result
      ≡ some (record {
        code = 0;
        printed = [];
        written = some (
          c_name,
          start_text lib.decimal symbol
                (parse_int lib argv align_option 8)
                (parse_str argv section_option none)
              ++ text
              ++ finish_text lib.hexadecimal symbol (u64 (length bytes)),
        );
      })
  pub reads : read_array Place.outside text ≡ some bytes

-- With an input, an output and a symbol among its words, if both files open and the fuel is more
-- than the bytes that are left in the input, the copier returns 0 and writes the array's
-- declaration, a text that a reader of constants in hexadecimal reads as those bytes, and their
-- count as a word of 64 bits. The C library is a parameter: `fread` gives bytes from the front
-- of a stream, and none only at its end.
pub main-Writes {ℓ} :
    {F : Type ℓ} (lib : Library F) (left : F → List ℕ) (fuel : ℕ) (argv : List Text)
    (bin_name c_name symbol : Text) (f f' : F)
    → IsStream lib left
    → parse_str argv bin_option none ≡ some bin_name
    → parse_str argv c_option none ≡ some c_name
    → parse_str argv symbol_option none ≡ some symbol
    → lib.fopen_read bin_name ≡ some f
    → lib.fopen_write c_name f ≡ some f'
    → AllBytes (left f')
    → length (left f') < fuel
    → Writes lib argv c_name symbol (left f') (main lib fuel argv)
unfolding main run_options bin2c open_c copy_file write_c
main-Writes lib left fuel argv bin_name c_name symbol f f' s a b c opened emptied h enough =
    let copied = copy_to_c-Copied lib left s fuel f' h enough 0 (omega arith) in
    let counted : 0 + length (left f') ≡ length (left f') = omega arith in
    record {
      text = copied.text;
      wrote = rw (a, b, c, opened, emptied, copied.copied, counted) refl;
      reads = copied.reads;
    }
