-- ===== src/Bin2c/Array.antt =====
-- The array that bin2c (common/utils/bin2c.c) writes, read back.
use mathlib.Core.List.{append_assoc}
use revive.Common.{
  ℕ, ◌+◌, ◌*◌, ◌-◌, ◌/◌, ◌%◌, ◌^◌, ◌≤◌, ◌<◌, ◌≡◌, ◌⊎◌, inl, inr, refl, sym, ap, ◌∙◌, Bool, true,
  false, Option, none, some, List, [], ◌∷◌, ◌++◌, leb, ◌==◌, ◌||◌, if◌then◌else◌, arith,
}
use revive.Command.{Text}
use revive.Bin2c.{nibble_char, byte_text, line_text}

-- Where a reader of an array's constants is: between two of them, or behind their characters so far.
pub data Place : Type 0 where
  outside after_zero after_x astray : Place
  after_high after_low : ℕ → Place

is_hex : ℕ → Bool
is_hex c = if leb b'a' c then leb c b'f' else if leb b'0' c then leb c b'9' else false

hex_value : ℕ → ℕ
hex_value c = if leb b'a' c then c - b'a' + 10 else c - b'0'

-- A character takes the reader on, and may end a constant.
step : Place → ℕ → Place × List ℕ
step outside c =
    if c == b' ' || c == b'\n'
    then (outside, [])
    else if c == b'0'
    then (after_zero, [])
    else (astray, [])
step after_zero c = (if c == b'x' then after_x else astray, [])
step after_x c = (if is_hex c then after_high (hex_value c) else astray, [])
step (after_high v) c = (if is_hex c then after_low (v * 16 + hex_value c) else astray, [])
step (after_low v) c = if c == b',' then (outside, v ∷ []) else (astray, [])
step astray c = (astray, [])

in_front : List ℕ → Option (List ℕ) → Option (List ℕ)
in_front bytes none = none
in_front bytes (some rest) = some (bytes ++ rest)

-- The numbers of a text of constants in hexadecimal, of two digits and a comma each.
pub read_array : Place → Text → Option (List ℕ)
read_array outside [] = some []
read_array after_zero [] = none
read_array after_x [] = none
read_array (after_high v) [] = none
read_array (after_low v) [] = none
read_array astray [] = none
read_array p (c ∷ text) = let (q, bytes) = step p c in in_front bytes (read_array q text)

abbrev pub AllBytes : List ℕ → Type 0
AllBytes [] = Unit
AllBytes (b ∷ bytes) = (b < 2 ^ 8) × AllBytes bytes

nibble_char-cases :
    (d : ℕ)
    → ((10 ≤ d) × (nibble_char d ≡ b'a' + (d - 10))) ⊎ ((d < 10) × (nibble_char d ≡ b'0' + d))
unfolding nibble_char
nibble_char-cases d = ground arith

nibble_char-hex :
    (d : ℕ) → d < 16 → (is_hex (nibble_char d) ≡ true) × (hex_value (nibble_char d) ≡ d)
unfolding is_hex hex_value
nibble_char-hex d h = elim (nibble_char-cases d) [
  | inl (low, e) ↦ rw e (ground arith, ground arith)
  | inr (low, e) ↦ rw e (ground arith, ground arith)
]

in_front-nil : (rest : Option (List ℕ)) → in_front [] rest ≡ rest
unfolding in_front
in_front-nil none = refl
in_front-nil (some rest) = refl

in_front-append :
    (xs ys : List ℕ) (rest : Option (List ℕ))
    → in_front (xs ++ ys) rest ≡ in_front xs (in_front ys rest)
unfolding in_front
in_front-append xs ys none = refl
in_front-append xs ys (some rest) = ap some (append_assoc xs ys rest)

step-after_x : (d : ℕ) → d < 16 → step after_x (nibble_char d) ≡ (after_high d, [])
unfolding step
step-after_x d h = let (digit, shown) = nibble_char-hex d h in rw (digit, shown) refl

step-after_high :
    (v d : ℕ) → d < 16 → step (after_high v) (nibble_char d) ≡ (after_low (v * 16 + d), [])
unfolding step
step-after_high v d h = let (digit, shown) = nibble_char-hex d h in rw (digit, shown) refl

read_array-step :
    (p : Place) (c : ℕ) (text : Text) (q : Place) (bytes : List ℕ)
    → step p c ≡ (q, bytes)
    → read_array p (c ∷ text) ≡ in_front bytes (read_array q text)
unfolding read_array
read_array-step p c text q bytes e = rw e refl

advance :
    (p : Place) (c : ℕ) (text : Text) (q : Place)
    → step p c ≡ (q, [])
    → read_array p (c ∷ text) ≡ read_array q text
advance p c text q e = read_array-step p c text q [] e ∙ in_front-nil (read_array q text)

read_array-byte_text :
    (byte : ℕ) (text : Text)
    → byte < 2 ^ 8
    → read_array outside (byte_text byte ++ text) ≡ in_front (byte ∷ []) (read_array outside text)
unfolding byte_text step
read_array-byte_text byte text h =
    let high = byte / 16 in
    let low = byte % 16 in
    let high_lt : high < 16 = omega (arith, h) in
    let low_lt : low < 16 = omega (arith, h) in
    let joined : high * 16 + low ≡ byte = omega arith in
    advance outside b'0' _ after_zero refl
    ∙ advance after_zero b'x' _ after_x refl
    ∙ advance after_x (nibble_char high) _ (after_high high) (step-after_x high high_lt)
    ∙ advance (after_high high) (nibble_char low) _ (after_low (high * 16 + low))
        (step-after_high high low low_lt)
    ∙ rw joined (read_array-step (after_low byte) b',' _ outside (byte ∷ []) refl)
    ∙ ap (in_front (byte ∷ [])) (advance outside b' ' text outside refl)

read_array-line_text :
    (bytes : List ℕ) (text : Text)
    → AllBytes bytes
    → read_array outside (line_text bytes ++ text) ≡ in_front bytes (read_array outside text)
unfolding line_text
read_array-line_text [] text h = sym (in_front-nil _)
read_array-line_text (b ∷ bytes) text (h, hs) =
    rw
      (
        append_assoc (byte_text b) (line_text bytes) text,
        read_array-byte_text b (line_text bytes ++ text) h,
        read_array-line_text bytes text hs,
      )
      (sym (in_front-append (b ∷ []) bytes (read_array outside text)))

read_array-blanks :
    (text : Text) → read_array outside (b' ' ∷ b' ' ∷ b' ' ∷ b' ' ∷ text) ≡ read_array outside text
unfolding step
read_array-blanks text = skip _ ∙ skip _ ∙ skip _ ∙ skip text
  where
    skip : (rest : Text) → read_array outside (b' ' ∷ rest) ≡ read_array outside rest
    skip rest = advance outside b' ' rest outside refl

-- A line of the loop reads as its bytes, and then what is behind it.
pub read_array-pass :
    (bytes : List ℕ) (text : Text) (rest : List ℕ)
    → AllBytes bytes
    → read_array outside text ≡ some rest
    → read_array outside (b' ' ∷ b' ' ∷ b' ' ∷ b' ' ∷ (line_text bytes ++ b'\n' ∷ []) ++ text)
      ≡ some (bytes ++ rest)
unfolding step in_front
read_array-pass bytes text rest hs e =
    read_array-blanks ((line_text bytes ++ b'\n' ∷ []) ++ text)
    ∙ rw (append_assoc (line_text bytes) (b'\n' ∷ []) text)
        (read_array-line_text bytes (b'\n' ∷ text) hs)
    ∙ ap (in_front bytes) (advance outside b'\n' text outside refl ∙ e)

pub read_array-nil : read_array outside [] ≡ some []
unfolding read_array
read_array-nil = refl
