-- ===== src/Firmware/Format/Pieces.antt =====
-- What a format is made of, and what each piece of it means.
use revive.Common.{ℕ, ◌+◌, ◌≡◌, true, false, List, [], ◌∷◌, ◌++◌, ◌==◌, u8, u32, u64}
use revive.Firmware.Print.{print_u32, print_u64}
use revive.Firmware.Format.{is_number, Arg, number, pointer}

pub data Size : Type 0 where
  word long double : Size

-- A character that stands for itself, a percent sign, a string, a character, or a number of a
-- size with the letter of its format.
pub data Piece : Type 0 where
  literal : ℕ → Piece
  percent : Piece
  text : List ℕ → Piece
  character : ℕ → Piece
  numeral : Size → ℕ → ℕ → Piece

-- How a piece is written in a format.
abbrev pub prefix : Size → List ℕ
prefix word = []
prefix long = b'l' ∷ []
prefix double = b'l' ∷ b'l' ∷ []

abbrev pub written : Piece → List ℕ
written (literal c) = c ∷ []
written percent = b'%' ∷ b'%' ∷ []
written (text str) = b'%' ∷ b's' ∷ []
written (character n) = b'%' ∷ b'c' ∷ []
written (numeral size fmt n) = b'%' ∷ (prefix size ++ fmt ∷ [])

-- The argument that it takes.
abbrev pub argument : Piece → List Arg
argument (literal c) = []
argument percent = []
argument (text str) = pointer str ∷ []
argument (character n) = number n ∷ []
argument (numeral size fmt n) = number n ∷ []

-- What it prints; print_u32 and print_u64 show a number.
abbrev pub shown : (ℕ → ℕ) → Piece → List ℕ
shown beyond (literal c) = c ∷ []
shown beyond percent = b'%' ∷ []
shown beyond (text str) = str
shown beyond (character n) = u8 n ∷ []
shown beyond (numeral word fmt n) = (print_u32 beyond fmt (u32 n)).0
shown beyond (numeral long fmt n) = (print_u32 beyond fmt (u32 n)).0
shown beyond (numeral double fmt n) = (print_u64 beyond fmt (u64 n)).0

-- What it adds to the count that is returned: nothing for what takes an argument.
abbrev pub counted : Piece → ℕ
counted (literal c) = 1
counted percent = 1
counted (text str) = 0
counted (character n) = 0
counted (numeral size fmt n) = 0

abbrev pub IsPiece : Piece → Type 0
IsPiece (literal c) = c == b'%' ≡ false
IsPiece percent = Unit {0}
IsPiece (text str) = Unit {0}
IsPiece (character n) = Unit {0}
IsPiece (numeral size fmt n) = is_number fmt ≡ true

-- The same of a list of pieces.
abbrev pub format_of : List Piece → List ℕ
format_of [] = []
format_of (p ∷ ps) = written p ++ format_of ps

abbrev pub arguments : List Piece → List Arg
arguments [] = []
arguments (p ∷ ps) = argument p ++ arguments ps

abbrev pub shown_all : (ℕ → ℕ) → List Piece → List ℕ
shown_all beyond [] = []
shown_all beyond (p ∷ ps) = shown beyond p ++ shown_all beyond ps

abbrev pub counted_all : List Piece → ℕ
counted_all [] = 0
counted_all (p ∷ ps) = counted p + counted_all ps

abbrev pub ArePieces : List Piece → Type 0
ArePieces [] = Unit {0}
ArePieces (p ∷ ps) = IsPiece p × ArePieces ps
