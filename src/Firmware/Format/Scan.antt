-- ===== src/Firmware/Format/Scan.antt =====
-- Which formats and arguments __vprintf (sbi/printf.c) gets to the end of.
use revive.Common.{
  ℕ, ◌≡◌, inl, inr, true, false, Bool-cases, ==_iff, refl, Option, none, some, List, [], ◌∷◌, ◌==◌,
  ◌||◌, if◌then◌else◌,
}
use revive.Firmware.Format.{
  TokenType, token_none, token_char, token_u32, token_u64, token_ulong, token_str, print_token_ll,
  print_token_l, print_token, Arg, number, pointer, is_number,
}

-- What a token asks for.
pub data Kind : Type 0 where
  a_number a_string : Kind

-- Where the reader of a format is: among characters, or behind a percent sign and the letters l.
pub data Place : Type 0 where
  plain percent percent_l percent_ll : Place

unfoldable pub asks : Kind → Option (List Kind) → Option (List Kind)
asks k none = none
asks k (some ks) = some (k ∷ ks)

-- The arguments that a format asks for; none if it ends before the letter of a token.
unfoldable pub asked : Place → List ℕ → Option (List Kind)
asked plain [] = some []
asked percent [] = none
asked percent_l [] = none
asked percent_ll [] = none
asked plain (c ∷ s) = let p = (if c == b'%' then percent else plain) in asked p s
asked percent (c ∷ s) =
    let l = asked percent_l s in
    let rest = asked plain s in
    if c == b'l'
    then l
    else if is_number c || c == b'c' || c == b'p'
    then asks a_number rest
    else if c == b's'
    then asks a_string rest
    else rest
asked percent_l (c ∷ s) =
    let ll = asked percent_ll s in
    let rest = asked plain s in
    if c == b'l' then ll else if is_number c || c == b'p' then asks a_number rest else rest
asked percent_ll (c ∷ s) =
    let rest = asked plain s in if is_number c then asks a_number rest else rest

-- The arguments begin with those of the kinds.
abbrev pub Supplied : List Kind → List Arg → Type 0
Supplied [] args = Unit {0}
Supplied (k ∷ ks) [] = ⊥
Supplied (a_number ∷ ks) (number n ∷ args) = Supplied ks args
Supplied (a_string ∷ ks) (pointer str ∷ args) = Supplied ks args
Supplied (a_number ∷ ks) (pointer str ∷ args) = ⊥
Supplied (a_string ∷ ks) (number n ∷ args) = ⊥

-- The format has whole tokens, and the arguments that it asks for.
abbrev pub Accepts : Option (List Kind) → List Arg → Type 0
Accepts none args = ⊥
Accepts (some ks) args = Supplied ks args

-- What a token's type asks for, before the rest.
unfoldable pub asks_type : TokenType → Option (List Kind) → Option (List Kind)
asks_type token_none rest = rest
asks_type token_str rest = asks a_string rest
asks_type token_char rest = asks a_number rest
asks_type token_u32 rest = asks a_number rest
asks_type token_u64 rest = asks a_number rest
asks_type token_ulong rest = asks a_number rest

unfoldable pub behind_token : TokenType → List ℕ → Option (List Kind)
behind_token kind [] = none
behind_token kind (c ∷ s) = asks_type kind (asked plain s)

print_token_ll-asked :
    (s : List ℕ) → asked percent_ll s ≡ behind_token (print_token_ll s).kind (print_token_ll s).s
unfolding asked print_token_ll behind_token asks_type
print_token_ll-asked [] = refl
print_token_ll-asked (c ∷ s) = elim (Bool-cases (is_number c)) [
  | inl e ↦ rw e refl
  | inr e ↦ rw e refl
]

print_token_l-asked :
    (s : List ℕ) → asked percent_l s ≡ behind_token (print_token_l s).kind (print_token_l s).s
unfolding asked print_token_l behind_token asks_type
print_token_l-asked [] = refl
print_token_l-asked (c ∷ s) = elim (Bool-cases (c == b'l')) [
  | inl e ↦ rw e (print_token_ll-asked s)
  | inr e ↦
      rw e (elim (Bool-cases (is_number c || c == b'p')) [ inl f ↦ rw f refl | inr f ↦ rw f refl ])
]

is_letter : (c d : ℕ) → c == d ≡ true → c ≡ d
is_letter c d e = (==_iff c d).0 e

print_token-letter :
    (c : ℕ) (s : List ℕ)
    → c == b'l' ≡ false
    → is_number c ≡ false
    → asked percent (c ∷ s) ≡ behind_token (print_token (c ∷ s)).kind (print_token (c ∷ s)).s
unfolding asked print_token behind_token asks_type
print_token-letter c s e f = elim (Bool-cases (c == b's')) [
  | inl g ↦ rw (is_letter c b's' g) refl
  | inr g ↦ elim (Bool-cases (c == b'c')) [
    | inl h ↦ rw (is_letter c b'c' h) refl
    | inr h ↦ elim (Bool-cases (c == b'p')) [
      | inl i ↦ rw (is_letter c b'p' i) refl
      | inr i ↦ elim (Bool-cases (c == b'%')) [
        | inl j ↦ rw (is_letter c b'%' j) refl
        | inr j ↦ rw (e, f, g, h, i, j) refl
      ]
    ]
  ]
]

pub print_token-asked :
    (s : List ℕ) → asked percent s ≡ behind_token (print_token s).kind (print_token s).s
unfolding asked print_token behind_token asks_type
print_token-asked [] = refl
print_token-asked (c ∷ s) = elim (Bool-cases (c == b'l')) [
  | inl e ↦ rw e (print_token_l-asked s)
  | inr e ↦ elim (Bool-cases (is_number c)) [
    | inl f ↦ rw (e, f) refl
    | inr f ↦ print_token-letter c s e f
  ]
]
