-- ===== src/Firmware/Format/Render.antt =====
-- A format prints its pieces.
use native.Mathlib.Nat.{mod-mod, zero-add, add-zero, suc-add, add_assoc}
use mathlib.Core.List.{append-nil, append_assoc}
use revive.Common.{
  ℕ, suc, ◌+◌, ◌-◌, ◌^◌, ◌≤◌, ◌≡◌, refl, ap, ◌∙◌, true, false, some, List, [], ◌∷◌, ◌++◌, arith,
  ◌==◌, length, length-append, u8, u32, u64,
}
use revive.Firmware.Print.{print_u32, print_u64, print_ulong, print_string, print_char}
use revive.Firmware.Format.{
  TokenType, token_str, token_char, token_u32, token_u64, token_ulong, is_number, wanted,
  print_token_ll, print_token_l, print_token, Arg, convert, Result, returned, resume, vprintf_loop,
  vprintf,
}
use revive.Firmware.Format.Pieces.{
  word, long, double, Piece, literal, percent, text, character, numeral, written, argument, shown,
  counted, IsPiece, format_of, arguments, shown_all, counted_all, ArePieces,
}

-- The token of a number of each size.
module _ (fmt : ℕ) (rest : List ℕ) (h : is_number fmt ≡ true) where
  not_l : fmt == b'l' ≡ false
  not_l = ground (arith, h)

  print_token_ll-number : print_token_ll (fmt ∷ rest) ≡ wanted token_u64 (fmt ∷ rest)
  unfolding print_token_ll
  print_token_ll-number = rw h refl

  print_token_l-number : print_token_l (fmt ∷ rest) ≡ wanted token_ulong (fmt ∷ rest)
  unfolding print_token_l
  print_token_l-number = rw (not_l, h) refl

  print_token-number : print_token (fmt ∷ rest) ≡ wanted token_u32 (fmt ∷ rest)
  unfolding print_token
  print_token-number = rw (not_l, h) refl

  print_token-long : print_token (b'l' ∷ fmt ∷ rest) ≡ wanted token_ulong (fmt ∷ rest)
  unfolding print_token
  print_token-long = print_token_l-number

  print_token-double : print_token (b'l' ∷ b'l' ∷ fmt ∷ rest) ≡ wanted token_u64 (fmt ∷ rest)
  unfolding print_token print_token_l
  print_token-double = print_token_ll-number

-- A token of a number prints nothing itself, and the string goes on behind its character.
resume-wanted :
    (loop : List ℕ → List Arg → List ℕ → ℕ → Result) (kind : TokenType) (c : ℕ) (s str : List ℕ)
    (args : List Arg) (out : List ℕ) (len : ℕ)
    → resume loop (wanted kind (c ∷ s)) (some (str, args)) out len
      ≡ loop s args (out ++ str) (len + 0)
unfolding resume
resume-wanted loop kind c s str args out len = rw append-nil refl

-- One iteration of the loop prints one piece.
pub vprintf_loop-piece :
    (beyond : ℕ → ℕ) (fuel : ℕ) (p : Piece) (s : List ℕ) (args : List Arg) (out : List ℕ) (len : ℕ)
    → IsPiece p
    → vprintf_loop beyond (suc fuel) (written p ++ s) (argument p ++ args) out len
      ≡ vprintf_loop beyond fuel s args (out ++ shown beyond p) (len + counted p)
unfolding vprintf_loop
vprintf_loop-piece beyond fuel (literal c) s args out len h = rw (vprintf_loop, h) refl
vprintf_loop-piece beyond fuel percent s args out len h =
    unfold resume convert print_token in rw append-nil refl
vprintf_loop-piece beyond fuel (text str) s args out len h =
    unfold convert print_token print_string in
    resume-wanted (vprintf_loop beyond fuel) token_str b's' s str args out len
vprintf_loop-piece beyond fuel (character n) s args out len h =
    unfold convert print_token print_char in
    resume-wanted (vprintf_loop beyond fuel) token_char b'c' s (u8 n ∷ []) args out len
vprintf_loop-piece beyond fuel (numeral word fmt n) s args out len h =
    rw (print_token-number fmt s h) (
      unfold convert in
      resume-wanted (vprintf_loop beyond fuel) token_u32 fmt s (print_u32 beyond fmt (u32 n)).0 args
        out len)
vprintf_loop-piece beyond fuel (numeral long fmt n) s args out len h =
    let same : print_ulong beyond fmt (u32 n) ≡ print_u32 beyond fmt (u32 n) =
      unfold print_ulong in ap (print_u32 beyond fmt) (mod-mod n (2 ^ 32)) in
    rw (print_token-long fmt s h) (
      unfold convert in
      resume-wanted (vprintf_loop beyond fuel) token_ulong fmt s (print_ulong beyond fmt (u32 n)).0
        args out len
      ∙ ap (λ (t : List ℕ × ℕ). vprintf_loop beyond fuel s args (out ++ t.0) (len + 0)) same)
vprintf_loop-piece beyond fuel (numeral double fmt n) s args out len h =
    rw (print_token-double fmt s h) (
      unfold convert in
      resume-wanted (vprintf_loop beyond fuel) token_u64 fmt s (print_u64 beyond fmt (u64 n)).0 args
        out len)

-- A run over pieces, from any text and count and with any format behind them.
pub vprintf_loop-pieces :
    (beyond : ℕ → ℕ) (fuel : ℕ) (ps : List Piece) (s : List ℕ) (args : List Arg) (out : List ℕ)
    (len : ℕ)
    → ArePieces ps
    → vprintf_loop beyond (length ps + fuel) (format_of ps ++ s) (arguments ps ++ args) out len
      ≡ vprintf_loop beyond fuel s args (out ++ shown_all beyond ps) (len + counted_all ps)
vprintf_loop-pieces beyond fuel [] s args out len h =
    rw (zero-add fuel, append-nil, add-zero len) refl
vprintf_loop-pieces beyond fuel (p ∷ ps) s args out len (h, hs) =
    rw
      (
        suc-add (length ps) fuel,
        append_assoc (written p) (format_of ps) s,
        append_assoc (argument p) (arguments ps) args,
      )
      (vprintf_loop-piece beyond (length ps + fuel) p (format_of ps ++ s) (arguments ps ++ args) out
          len h
        ∙ vprintf_loop-pieces beyond fuel ps s args (out ++ shown beyond p) (len + counted p) hs
        ∙ rw (append_assoc, add_assoc len (counted p) (counted_all ps)) refl)

pub length-written : (p : Piece) → 1 ≤ length (written p)
length-written (numeral word fmt n) = omega arith
length-written (numeral long fmt n) = omega arith
length-written (numeral double fmt n) = omega arith
length-written (literal c) = omega arith
length-written percent = omega arith
length-written (text str) = omega arith
length-written (character n) = omega arith

pub length-format_of : (ps : List Piece) → length ps ≤ length (format_of ps)
length-format_of [] = omega arith
length-format_of (p ∷ ps) =
    omega (arith, length-format_of ps, length-append (written p) (format_of ps), length-written p)

-- A format that is written of pieces (characters that stand for themselves, percent signs,
-- strings, characters, and numbers of the three sizes), called with an argument for each piece
-- that takes one, prints what each piece shows, in their order, and returns the count of the
-- characters that stand for themselves and of the percent signs alone.
pub vprintf-pieces :
    (beyond : ℕ → ℕ) (ps : List Piece)
    → ArePieces ps
    → vprintf beyond (format_of ps) (arguments ps) ≡ returned (shown_all beyond ps) (counted_all ps)
unfolding vprintf
vprintf-pieces beyond ps h =
    let fmt = format_of ps in
    let fuel = length fmt - length ps in
    let enough : suc (length fmt) ≡ length ps + suc fuel = omega (arith, length-format_of ps) in
    let run = vprintf_loop-pieces beyond (suc fuel) ps [] [] [] 0 h in
    let ended : vprintf_loop beyond (suc fuel) [] [] (shown_all beyond ps) (0 + counted_all ps)
        ≡ returned (shown_all beyond ps) (counted_all ps) =
      unfold vprintf_loop in rw (zero-add (counted_all ps)) refl in
    rw enough (rw (append-nil (format_of ps), append-nil (arguments ps)) at run ∙ ended)
