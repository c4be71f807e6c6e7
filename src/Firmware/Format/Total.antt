-- ===== src/Firmware/Format/Total.antt =====
-- How a call of __vprintf (sbi/printf.c) ends.
use revive.Common.{
  ℕ, zero, suc, u8, u32, u64, ◌+◌, ◌≤◌, ◌<◌, ◌≡◌, ◌↔◌, ◌⊎◌, inl, inr, true, false, Bool-cases, refl,
  Option, none, some, List, [], ◌∷◌, ◌++◌, arith, ◌==◌, length,
}
use revive.Firmware.Print.{print_u32, print_u64, print_ulong, print_string, print_char}
use revive.Firmware.Format.{
  Token, TokenType, token_none, token_char, token_u32, token_u64, token_ulong, token_str,
  print_token_ll, print_token_l, print_token, Arg, number, pointer, convert, Result, returned,
  undefined, resume, vprintf_loop, vprintf, tail,
}
use revive.Firmware.Format.Scan.{
  Kind, a_number, a_string, asks, asks_type, asked, plain, behind_token, Accepts, print_token-asked,
}

print_token_ll-keeps : (s : List ℕ) → (print_token_ll s).s ≡ s
unfolding print_token_ll
print_token_ll-keeps [] = refl
print_token_ll-keeps (c ∷ s) = ground arith

length-tail : (s : List ℕ) → length (tail s) ≤ length s
length-tail [] = omega arith
length-tail (c ∷ s) = omega arith

length-print_token_l : (s : List ℕ) → length (print_token_l s).s ≤ length s
unfolding print_token_l
length-print_token_l s = ground (arith, print_token_ll-keeps (tail s), length-tail s)

-- A token does not lengthen what is left of the string.
length-print_token : (s : List ℕ) → length (print_token s).s ≤ length s
unfolding print_token
length-print_token s = ground (arith, length-print_token_l (tail s), length-tail s)

-- A call that is accepted returns, and another one does something undefined.
abbrev pub EndsBy : Type 0 → Result → Type 0
EndsBy accepted r =
    (accepted × ((text : List ℕ) × (len : ℕ) × (r ≡ returned text len)))
    ⊎ ((¬ accepted) × ((text : List ℕ) × (r ≡ undefined text)))

refused : {accepted : Type 0} (text : List ℕ) → ¬ accepted → EndsBy accepted (undefined text)
refused text h = inr (h, (text, refl))

number-Accepts :
    (rest : Option (List Kind)) (args : List Arg) (n : ℕ)
    → Accepts (asks a_number rest) (number n ∷ args) ↔ Accepts rest args
unfolding asks
number-Accepts none args n = ((λ h. h), (λ h. h))
number-Accepts (some ks) args n = ((λ h. h), (λ h. h))

string-Accepts :
    (rest : Option (List Kind)) (args : List Arg) (str : List ℕ)
    → Accepts (asks a_string rest) (pointer str ∷ args) ↔ Accepts rest args
unfolding asks
string-Accepts none args str = ((λ h. h), (λ h. h))
string-Accepts (some ks) args str = ((λ h. h), (λ h. h))

not_string :
    (rest : Option (List Kind)) (args : List Arg) (n : ℕ)
    → ¬ Accepts (asks a_string rest) (number n ∷ args)
unfolding asks
not_string none args n h = h
not_string (some ks) args n h = h

not_number :
    (rest : Option (List Kind)) (args : List Arg) (str : List ℕ)
    → ¬ Accepts (asks a_number rest) (pointer str ∷ args)
unfolding asks
not_number none args str h = h
not_number (some ks) args str h = h

not_empty : (k : Kind) (rest : Option (List Kind)) → ¬ Accepts (asks k rest) []
unfolding asks
not_empty a_number none h = h
not_empty a_number (some ks) h = h
not_empty a_string none h = h
not_empty a_string (some ks) h = h

-- The next argument is converted, and the rest is accepted if the whole was; or it was not.
abbrev Converts : Type 0 → (List Arg → Type 0) → Option (List ℕ × List Arg) → Type 0
Converts accepted next o =
    ((shown : List ℕ) × (args : List Arg) × (o ≡ some (shown, args)) × (accepted ↔ next args))
    ⊎ ((o ≡ none) × (¬ accepted))

convert-Converts :
    (beyond : ℕ → ℕ) (t : Token) (args : List Arg) (rest : Option (List Kind)) (kind : TokenType)
    → t.kind ≡ kind
    → Converts (Accepts (asks_type kind rest) args) (Accepts rest) (convert beyond t args)
unfolding convert asks_type
convert-Converts beyond t args rest token_none e = inl ([], args, rw e refl, ((λ h. h), (λ h. h)))
convert-Converts beyond t [] rest token_str e = inr (rw e refl, not_empty a_string rest)
convert-Converts beyond t (number n ∷ args) rest token_str e =
    inr (rw e refl, not_string rest args n)
convert-Converts beyond t (pointer str ∷ args) rest token_str e =
    inl ((print_string str).0, args, rw e refl, string-Accepts rest args str)
convert-Converts beyond t [] rest token_char e = inr (rw e refl, not_empty a_number rest)
convert-Converts beyond t (number n ∷ args) rest token_char e =
    inl ((print_char (u8 n)).0, args, rw e refl, number-Accepts rest args n)
convert-Converts beyond t (pointer str ∷ args) rest token_char e =
    inr (rw e refl, not_number rest args str)
convert-Converts beyond t [] rest token_u32 e = inr (rw e refl, not_empty a_number rest)
convert-Converts beyond t (number n ∷ args) rest token_u32 e =
    inl ((print_u32 beyond t.token (u32 n)).0, args, rw e refl, number-Accepts rest args n)
convert-Converts beyond t (pointer str ∷ args) rest token_u32 e =
    inr (rw e refl, not_number rest args str)
convert-Converts beyond t [] rest token_u64 e = inr (rw e refl, not_empty a_number rest)
convert-Converts beyond t (number n ∷ args) rest token_u64 e =
    inl ((print_u64 beyond t.token (u64 n)).0, args, rw e refl, number-Accepts rest args n)
convert-Converts beyond t (pointer str ∷ args) rest token_u64 e =
    inr (rw e refl, not_number rest args str)
convert-Converts beyond t [] rest token_ulong e = inr (rw e refl, not_empty a_number rest)
convert-Converts beyond t (number n ∷ args) rest token_ulong e =
    inl ((print_ulong beyond t.token (u32 n)).0, args, rw e refl, number-Accepts rest args n)
convert-Converts beyond t (pointer str ∷ args) rest token_ulong e =
    inr (rw e refl, not_number rest args str)

-- The rest of the body, after a token.
resume-EndsBy :
    (loop : List ℕ → List Arg → List ℕ → ℕ → Result) (t : Token) (s : List ℕ)
    (converted : Option (List ℕ × List Arg)) (args : List Arg) (out : List ℕ) (len : ℕ)
    → t.s ≡ s
    → ((rest : Option (List Kind))
        → Converts (Accepts (asks_type t.kind rest) args) (Accepts rest) converted)
    → ((s' : List ℕ) (args' : List Arg) (out' : List ℕ) (len' : ℕ)
        → length s' < length s
        → EndsBy (Accepts (asked plain s') args') (loop s' args' out' len'))
    → EndsBy (Accepts (behind_token t.kind s) args) (resume loop t converted out len)
unfolding resume behind_token
resume-EndsBy loop t [] none args out len e c go_on = refused _ (λ h. h)
resume-EndsBy loop t [] (some (shown, args')) args out len e c go_on = rw e (refused _ (λ h. h))
resume-EndsBy loop t (d ∷ s) converted args out len e c go_on = elim (c (asked plain s)) [
  | inr (f, h) ↦ rw f (refused _ h)
  | inl (shown, args', f, both) ↦
      rw (f, e) (moved both (go_on s args' ((out ++ t.text) ++ shown) (len + t.len) (omega arith)))
]
  where
    moved : {a b : Type 0} {r : Result} → a ↔ b → EndsBy b r → EndsBy a r
    moved both ends = elim ends [
      | inl (h, r) ↦ inl (both.1 h, r)
      | inr (h, r) ↦ inr ((λ x. h (both.0 x)), r)
    ]

asked-percent :
    (c : ℕ) (s : List ℕ)
    → c == b'%' ≡ true
    → asked plain (c ∷ s) ≡ behind_token (print_token s).kind (print_token s).s
unfolding asked
asked-percent c s e = rw (asked, e) (print_token-asked s)

asked-letter : (c : ℕ) (s : List ℕ) → c == b'%' ≡ false → asked plain (c ∷ s) ≡ asked plain s
unfolding asked
asked-letter c s e = rw (asked, e) refl

nothing-Accepts : (args : List Arg) → Accepts (asked plain []) args
unfolding asked
nothing-Accepts args = tt

vprintf_loop-EndsBy :
    (beyond : ℕ → ℕ) (fuel : ℕ) (s : List ℕ) (args : List Arg) (out : List ℕ) (len : ℕ)
    → length s < fuel
    → EndsBy (Accepts (asked plain s) args) (vprintf_loop beyond fuel s args out len)
unfolding vprintf_loop
vprintf_loop-EndsBy beyond zero s args out len h = absurd (omega (arith, h))
vprintf_loop-EndsBy beyond (suc fuel) [] args out len h =
    inl (nothing-Accepts args, (out, len, refl))
vprintf_loop-EndsBy beyond (suc fuel) (c ∷ s) args out len h = elim (Bool-cases (c == b'%')) [
  | inl token ↦
      let t = print_token s in
      rw (vprintf_loop, asked-percent c s token, token)
        (resume-EndsBy (vprintf_loop beyond fuel) t t.s (convert beyond t args) args out len refl
          (λ rest. convert-Converts beyond t args rest t.kind refl)
          (λ s' args' out' len' shorter.
            vprintf_loop-EndsBy beyond fuel s' args' out' len'
              (omega (arith, h, shorter, length-print_token s))))
  | inr letter ↦
      rw (vprintf_loop, asked-letter c s letter, letter)
        (vprintf_loop-EndsBy beyond fuel s args (out ++ c ∷ []) (len + 1) (omega (arith, h)))
]

-- With one iteration for each character of its format and one more, the loop of __vprintf comes
-- to its end and returns a count exactly if the format does not end inside a token and the
-- arguments begin with those that its tokens ask for, a number or a string each; every other
-- call comes to something undefined within them. Any letter may follow a percent sign, and what
-- is no token asks for nothing.
pub vprintf-EndsBy :
    (beyond : ℕ → ℕ) (fmt : List ℕ) (args : List Arg)
    → EndsBy (Accepts (asked plain fmt) args) (vprintf beyond fmt args)
unfolding vprintf
vprintf-EndsBy beyond fmt args =
    vprintf_loop-EndsBy beyond (suc (length fmt)) fmt args [] 0 (omega arith)
