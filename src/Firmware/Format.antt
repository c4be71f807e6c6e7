-- ===== src/Firmware/Format.antt =====
-- print_token_ll, print_token_l, print_token and __vprintf (sbi/printf.c). A string is its
-- characters before the zero, and what it points to is what is left of it.
pub mod Pieces
pub mod Render
pub mod Scan
pub mod Total
pub mod Ends
use revive.Common.{
  ℕ, zero, suc, ◌+◌, ◌%◌, ◌^◌, Bool, true, false, Option, none, some, List, [], ◌∷◌, ◌++◌, ◌||◌,
  ◌==◌, if◌then◌else◌, length, u8, u32, u64,
}
use revive.Firmware.Print.{print_u32, print_u64, print_ulong, print_string, print_char}

-- `enum print_token_types`
pub data TokenType : Type 0 where
  token_none token_char token_u32 token_u64 token_ulong token_str : TokenType

-- A token's type and character, the string from that character on, and what was printed with
-- the count of it.
pub record Token : Type 0 where
  pub kind : TokenType
  pub token : ℕ
  pub s : List ℕ
  pub text : List ℕ
  pub len : ℕ

-- `**s`
abbrev pub first : List ℕ → ℕ
first [] = 0
first (c ∷ s) = c

-- `(*s)++` before the end
abbrev pub tail : List ℕ → List ℕ
tail [] = []
tail (c ∷ s) = s

abbrev pub is_number : ℕ → Bool
is_number c = c == b'd' || c == b'u' || c == b'h' || c == b'x' || c == b'b'

abbrev pub wanted : TokenType → List ℕ → Token
wanted kind s = record { kind = kind; token = first s; s = s; text = []; len = 0 }

-- What is no token is printed behind the percent sign and the letters before it.
abbrev pub unwanted : List ℕ → List ℕ → Token
unwanted before s =
    let shown = if first s == 0 then before else before ++ first s ∷ [] in
    record { kind = token_none; token = first s; s = s; text = shown; len = length shown }

unfoldable pub print_token_ll : List ℕ → Token
print_token_ll s =
    if is_number (first s) then wanted token_u64 s else unwanted (b'%' ∷ b'l' ∷ b'l' ∷ []) s

unfoldable pub print_token_l : List ℕ → Token
print_token_l s =
    if first s == b'l'
    then print_token_ll (tail s)
    else if is_number (first s) || first s == b'p'
    then wanted token_ulong s
    else unwanted (b'%' ∷ b'l' ∷ []) s

unfoldable pub print_token : List ℕ → Token
print_token s =
    if first s == b'l'
    then print_token_l (tail s)
    else if is_number (first s)
    then wanted token_u32 s
    else if first s == b's'
    then wanted token_str s
    else if first s == b'c'
    then wanted token_char s
    else if first s == b'p'
    then wanted token_ulong s
    else if first s == b'%'
    then record { kind = token_none; token = first s; s = s; text = b'%' ∷ []; len = 1 }
    else unwanted (b'%' ∷ []) s

-- An argument of the call, a number or the string that a pointer names.
pub data Arg : Type 0 where
  number : ℕ → Arg
  pointer : List ℕ → Arg

-- What is printed of the next argument, and the arguments left; none where va_arg is undefined,
-- for want of an argument or of its type.
unfoldable pub convert : (ℕ → ℕ) → Token → List Arg → Option (List ℕ × List Arg)
convert beyond t args = elim t.kind [
  | token_none ↦ some ([], args)
  | token_str ↦ elim args [ pointer str ∷ rest ↦ some ((print_string str).0, rest) | _ ↦ none ]
  | token_char ↦ elim args [ number n ∷ rest ↦ some ((print_char (u8 n)).0, rest) | _ ↦ none ]
  | token_u32 ↦ elim args [
    | number n ∷ rest ↦ some ((print_u32 beyond t.token (u32 n)).0, rest)
    | _ ↦ none
  ]
  | token_u64 ↦ elim args [
    | number n ∷ rest ↦ some ((print_u64 beyond t.token (u64 n)).0, rest)
    | _ ↦ none
  ]
  | token_ulong ↦ elim args [
    | number n ∷ rest ↦ some ((print_ulong beyond t.token (u32 n)).0, rest)
    | _ ↦ none
  ]
]

-- A call returns the count of what it printed, or does something undefined after printing. A loop
-- that used up its fuel is unfinished.
pub data Result : Type 0 where
  returned : List ℕ → ℕ → Result
  undefined : List ℕ → Result
  unfinished : Result

-- The rest of the body after a token: the argument, and `s++`, which leaves the string where the
-- token is its end.
unfoldable pub resume :
    (List ℕ → List Arg → List ℕ → ℕ → Result)
    → Token
    → Option (List ℕ × List Arg)
    → List ℕ
    → ℕ
    → Result
resume loop t none out len = undefined (out ++ t.text)
resume loop t (some (shown, args)) out len = elim t.s [
  | [] ↦ undefined ((out ++ t.text) ++ shown)
  | c ∷ s ↦ loop s args ((out ++ t.text) ++ shown) (len + t.len)
]

-- The loop, with fuel for its iterations. `len` is an int, which no string in memory overflows.
unfoldable pub vprintf_loop : (ℕ → ℕ) → ℕ → List ℕ → List Arg → List ℕ → ℕ → Result
vprintf_loop beyond zero s args out len = unfinished
vprintf_loop beyond (suc fuel) [] args out len = returned out len
vprintf_loop beyond (suc fuel) (c ∷ s) args out len = elim (c == b'%') [
  | true ↦
      resume (vprintf_loop beyond fuel) (print_token s) (convert beyond (print_token s) args) out
        len
  | false ↦ vprintf_loop beyond fuel s args (out ++ c ∷ []) (len + 1)
]

unfoldable pub vprintf : (ℕ → ℕ) → List ℕ → List Arg → Result
vprintf beyond fmt args = vprintf_loop beyond (suc (length fmt)) fmt args [] 0
