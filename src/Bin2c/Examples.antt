-- ===== src/Bin2c/Examples.antt =====
-- Runs of the program of common/utils/bin2c.c on a file of ten bytes.
use revive.Common.{ℕ, zero, suc, ◌+◌, ◌≡◌, refl, ap, some, List, [], ◌∷◌, ◌++◌, arith}
use revive.Command.{Text, same_text}
use revive.Bin2c.{
  Library, main, run_options, parse_str, usage_text, fails, bin_option, c_option, symbol_option,
}
use revive.Bin2c.Copy.{IsStream}
use revive.Bin2c.Writes.{Writes, main-Writes}

-- The first bytes, at most `n` of them, and the others.
abbrev split_bytes : ℕ → List ℕ → List ℕ × List ℕ
split_bytes zero bytes = ([], bytes)
split_bytes (suc n) [] = ([], [])
split_bytes (suc n) (b ∷ bytes) = let (front, back) = split_bytes n bytes in (b ∷ front, back)

abbrev ten_bytes : List ℕ
ten_bytes = 127 ∷ 69 ∷ 76 ∷ 70 ∷ 1 ∷ 0 ∷ 255 ∷ 160 ∷ 9 ∷ 10 ∷ []

abbrev bin_name : Text
bin_name = b'a' ∷ []

abbrev c_name : Text
c_name = b'c' ∷ []

abbrev symbol_name : Text
symbol_name = b's' ∷ []

-- A library on a disk of one file, which prints every number as a single digit.
abbrev library : Library (List ℕ)
library = record {
  fopen_read = λ name. some ten_bytes;
  fopen_write = λ name f. some f;
  fread = split_bytes 8;
  decimal = λ n. (b'0' + n) ∷ [];
  hexadecimal = λ n. (b'0' + n) ∷ [];
  atoi = λ word. 4;
}

abbrev all_bytes : List ℕ → List ℕ
all_bytes f = f

split_bytes-joins : (n : ℕ) (f : List ℕ) → (split_bytes n f).0 ++ (split_bytes n f).1 ≡ f
split_bytes-joins zero f = refl
split_bytes-joins (suc n) [] = refl
split_bytes-joins (suc n) (b ∷ f) = ap (λ (rest : List ℕ). b ∷ rest) (split_bytes-joins n f)

library-IsStream : IsStream library all_bytes
library-IsStream = record { joins = split_bytes-joins 8; ends = ends }
  where
    ends : (f : List ℕ) → (split_bytes 8 f).0 ≡ [] → f ≡ []
    ends [] e = refl
    ends (b ∷ f) e = cc

abbrev argv : List Text
argv = bin_option ∷ bin_name ∷ c_option ∷ c_name ∷ symbol_option ∷ symbol_name ∷ []

main-Writes_example : Writes library argv c_name symbol_name ten_bytes (main library 11 argv)
main-Writes_example =
    main-Writes library all_bytes 11 argv bin_name c_name symbol_name ten_bytes ten_bytes
      library-IsStream (unfold parse_str same_text in refl) (unfold parse_str same_text in refl)
      (unfold parse_str same_text in refl) refl refl (ground arith) (omega arith)

bad_usage : main library 11 (bin_option ∷ bin_name ∷ []) ≡ some (fails usage_text)
unfolding main parse_str same_text run_options
bad_usage = refl
