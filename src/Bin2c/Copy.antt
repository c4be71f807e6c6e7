-- ===== src/Bin2c/Copy.antt =====
-- The loop that copies a stream (copy_to_c of common/utils/bin2c.c), read back.
use mathlib.Core.Path.{subst}
use revive.Common.{
  ℕ, zero, suc, ◌+◌, ◌^◌, ◌<◌, ◌≡◌, refl, sym, ap, Option, some, List, [], ◌∷◌, ◌++◌, u64, length,
  arith, length-append,
}
use revive.Command.{Text}
use revive.Bin2c.{Library, line_text, copy_line, copy_to_c}
use revive.Bin2c.Array.{Place, read_array, AllBytes, read_array-pass, read_array-nil}

-- What `fread` promises of what is left in a stream: a call gives bytes from its front, and none only
-- where none are left.
pub record IsStream {ℓ} {F : Type ℓ} (lib : Library F) (left : F → List ℕ) : Type ℓ where
  pub joins : (f : F) → (lib.fread f).0 ++ left (lib.fread f).1 ≡ left f
  pub ends : (f : F) → (lib.fread f).0 ≡ [] → left f ≡ []

AllBytes-append : (xs ys : List ℕ) → AllBytes (xs ++ ys) → AllBytes xs × AllBytes ys
AllBytes-append [] ys h = (tt, h)
AllBytes-append (x ∷ xs) ys (h, hs) = let (a, b) = AllBytes-append xs ys hs in ((h, a), b)

-- A text that reads as some bytes, and their count on top of an earlier one.
pub record Copied (bytes : List ℕ) (before : ℕ) (result : Option (Text × ℕ)) : Type 0 where
  pub text : Text
  pub copied : result ≡ some (text, u64 (before + length bytes))
  pub reads : read_array Place.outside text ≡ some bytes

Copied-line :
    (b : ℕ) (buf bytes : List ℕ) (before : ℕ) (rest : Option (Text × ℕ))
    → AllBytes (b ∷ buf)
    → Copied bytes (u64 (before + length (b ∷ buf))) rest
    → Copied (b ∷ buf ++ bytes) before (copy_line (b ∷ buf) before rest)
unfolding copy_line
Copied-line b buf bytes before rest (h, hs) c =
    let counted : u64 (u64 (before + length (b ∷ buf)) + length bytes)
        ≡ u64 (before + length (b ∷ buf ++ bytes)) =
      omega (arith, length-append buf bytes) in
    record {
      text = b' ' ∷ b' ' ∷ b' ' ∷ b' ' ∷ (line_text (b ∷ buf) ++ b'\n' ∷ []) ++ c.text;
      copied = rw (c.copied, counted) refl;
      reads = read_array-pass (b ∷ buf) c.text bytes (h, hs) c.reads;
    }

module _ {ℓ} {F : Type ℓ} (lib : Library F) (left : F → List ℕ) (s : IsStream lib left) where
  Copied-pass :
      (buf bytes : List ℕ) (f' : F) (fuel before : ℕ)
      → (AllBytes (left f')
          → length (left f') < fuel
          → (count : ℕ) → count < 2 ^ 64
          → Copied (left f') count (copy_to_c lib fuel f' count))
      → buf ++ left f' ≡ bytes
      → (buf ≡ [] → bytes ≡ [])
      → AllBytes bytes
      → length bytes < suc fuel
      → before < 2 ^ 64
      → Copied bytes before
          (copy_line buf before (copy_to_c lib fuel f' (u64 (before + length buf))))
  unfolding copy_line
  Copied-pass [] bytes f' fuel before go_on e ends h enough small =
      let counted : u64 (before + 0) ≡ before = omega (arith, small) in
      rw (ends refl) (record { text = []; copied = rw counted refl; reads = read_array-nil })
  Copied-pass (b ∷ buf) bytes f' fuel before go_on e ends h enough small =
      let (hs, hl) = AllBytes-append (b ∷ buf) (left f') (subst AllBytes (sym e) h) in
      let count = length-append (b ∷ buf) (left f') in
      let fits : length (left f') < fuel = omega (arith, enough, count, ap length e) in
      subst
        (λ (l : List ℕ).
          Copied l before
            (copy_line (b ∷ buf) before (copy_to_c lib fuel f' (u64 (before + length (b ∷ buf))))))
        e
        (Copied-line b buf (left f') before
          (copy_to_c lib fuel f' (u64 (before + length (b ∷ buf)))) hs
          (go_on hl fits (u64 (before + length (b ∷ buf))) (omega arith)))

  -- With fuel for every byte, the text of the loop reads as the bytes that are left.
  pub copy_to_c-Copied :
      (fuel : ℕ) (f : F)
      → AllBytes (left f)
      → length (left f) < fuel
      → (before : ℕ) → before < 2 ^ 64
      → Copied (left f) before (copy_to_c lib fuel f before)
  unfolding copy_to_c
  copy_to_c-Copied zero f h enough before small = absurd (omega (arith, enough))
  copy_to_c-Copied (suc fuel) f h enough before small =
      Copied-pass (lib.fread f).0 (left f) (lib.fread f).1 fuel before
        (copy_to_c-Copied fuel (lib.fread f).1) (s.joins f) (s.ends f) h enough small
