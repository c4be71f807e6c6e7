-- ===== src/Firmware/Format/Ends.antt =====
-- Where a format of __vprintf (sbi/printf.c) ends in a token.
use mathlib.Core.List.{append-nil}
use revive.Common.{
  ℕ, suc, ◌+◌, ◌-◌, ◌≡◌, refl, ◌∙◌, List, [], ◌∷◌, ◌++◌, arith, length, length-append,
}
use revive.Firmware.Format.{
  print_token_ll, print_token_l, print_token, convert, undefined, resume, vprintf_loop, vprintf,
}
use revive.Firmware.Format.Pieces.{
  Size, word, long, double, Piece, prefix, format_of, arguments, shown_all, counted_all, ArePieces,
}
use revive.Firmware.Format.Render.{vprintf_loop-pieces, length-format_of}

-- A percent sign and the letters of a size, with no letter of a format.
abbrev pub cut_short : Size → List ℕ
cut_short size = b'%' ∷ prefix size

vprintf_loop-cut :
    (beyond : ℕ → ℕ) (fuel : ℕ) (size : Size) (out : List ℕ) (len : ℕ)
    → vprintf_loop beyond (suc fuel) (cut_short size) [] out len ≡ undefined (out ++ cut_short size)
unfolding vprintf_loop resume convert print_token print_token_l print_token_ll
vprintf_loop-cut beyond fuel word out len = rw append-nil refl
vprintf_loop-cut beyond fuel long out len = rw append-nil refl
vprintf_loop-cut beyond fuel double out len = rw append-nil refl

-- A format of pieces that ends in a percent sign, or in %l or %ll, prints the pieces and what
-- stands there, and then reads beyond the end of the string.
pub vprintf-cut_short :
    (beyond : ℕ → ℕ) (ps : List Piece) (size : Size)
    → ArePieces ps
    → vprintf beyond (format_of ps ++ cut_short size) (arguments ps)
      ≡ undefined (shown_all beyond ps ++ cut_short size)
unfolding vprintf
vprintf-cut_short beyond ps size h =
    let fmt = format_of ps ++ cut_short size in
    let fuel = length fmt - length ps in
    let enough : suc (length fmt) ≡ length ps + suc fuel =
      omega (arith, length-format_of ps, length-append (format_of ps) (cut_short size)) in
    let run = vprintf_loop-pieces beyond (suc fuel) ps (cut_short size) [] [] 0 h in
    rw enough (
      rw (append-nil (arguments ps)) at run
      ∙ vprintf_loop-cut beyond fuel size (shown_all beyond ps) (0 + counted_all ps))
