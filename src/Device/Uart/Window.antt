-- ===== src/Device/Uart/Window.antt =====
-- The characters of a ring between its two indices.
use revive.Common.{
  ℕ, zero, suc, ◌+◌, ◌-◌, ◌%◌, ◌^◌, ◌≤◌, ◌<◌, ◌≡◌, refl, sym, ap, ◌∙◌, true, false, List, [], ◌∷◌,
  ◌++◌, arith, leb, ◌==◌, u64, length,
}
use revive.Hart.State.{update}
use revive.Device.Uart.{buf_size}

-- `n` characters from index `rd` on.
abbrev pub window : (ℕ → ℕ) → ℕ → ℕ → List ℕ
window buf rd zero = []
window buf rd (suc n) = buf (rd % buf_size) ∷ window buf (rd + 1) n

pub length-window : (buf : ℕ → ℕ) (rd n : ℕ) → length (window buf rd n) ≡ n
length-window buf rd zero = refl
length-window buf rd (suc n) = omega (arith, length-window buf (rd + 1) n)

-- A ring that is not full keeps its characters when the next one is stored.
pub window-update :
    (buf : ℕ → ℕ) (rd n wr ch : ℕ)
    → rd + n ≤ wr
    → wr < rd + buf_size
    → window (update buf (wr % buf_size) ch) rd n ≡ window buf rd n
window-update buf rd zero wr ch h b = refl
window-update buf rd (suc n) wr ch h b =
    let differs : (wr % buf_size == rd % buf_size) ≡ false = ground arith in
    rw differs (
      ap (λ xs. buf (rd % buf_size) ∷ xs)
        (window-update buf (rd + 1) n wr ch (omega (arith, h)) (omega (arith, b))))

pub window-append :
    (buf : ℕ → ℕ) (rd n : ℕ)
    → window buf rd (suc n) ≡ window buf rd n ++ buf ((rd + n) % buf_size) ∷ []
window-append buf rd zero = ap (λ i. buf (i % buf_size) ∷ []) (omega arith)
window-append buf rd (suc n) =
    let at : rd + 1 + n ≡ rd + suc n = omega arith in
    ap (λ xs. buf (rd % buf_size) ∷ xs) (window-append buf (rd + 1) n ∙ rw at refl)

-- A ring whose indices have not wrapped holds the characters `xs`, at most `buf_size` of them.
pub record Shows (buf : ℕ → ℕ) (rd wr : ℕ) (xs : List ℕ) : Type 0 where
  pub rd_le : rd ≤ wr
  pub room : wr ≤ rd + buf_size
  pub shown : window buf rd (wr - rd) ≡ xs

pub Shows-length :
    (buf : ℕ → ℕ) (rd wr : ℕ) (xs : List ℕ) → Shows buf rd wr xs → length xs ≡ wr - rd
Shows-length buf rd wr xs s = ap length (sym s.shown) ∙ length-window buf rd (wr - rd)

module _ (buf : ℕ → ℕ) (rd wr : ℕ) (b : wr + 1 < 2 ^ 64) where
  pub Shows-put :
      (xs : List ℕ) (ch : ℕ)
      → Shows buf rd wr xs
      → length xs < buf_size
      → Shows (update buf (wr % buf_size) ch) rd (u64 (wr + 1)) (xs ++ ch ∷ [])
  Shows-put xs ch s l =
      let n = wr - rd in
      let h = s.rd_le in
      let f = Shows-length buf rd wr xs s in
      let buf' = update buf (wr % buf_size) ch in
      let next : u64 (wr + 1) - rd ≡ suc n = omega arith in
      let at : rd + n ≡ wr = omega arith in
      let own : (wr % buf_size == wr % buf_size) ≡ true = ground arith in
      let kept = window-update buf rd n wr ch (omega arith) (omega (arith, l, f)) ∙ s.shown in
      let all : window buf' rd (suc n) ≡ xs ++ ch ∷ [] =
        window-append buf' rd n ∙ rw (at, own, kept) refl in
      record { rd_le = omega arith; room = omega (arith, l, f); shown = rw next all }

  pub Shows-take :
      (x : ℕ) (xs : List ℕ)
      → Shows buf rd wr (x ∷ xs)
      → (buf (rd % buf_size) ≡ x) × (Shows buf (u64 (rd + 1)) wr xs)
  Shows-take x xs s =
      let f = Shows-length buf rd wr (x ∷ xs) s in
      let m = wr - rd - 1 in
      let one : wr - rd ≡ suc m = omega (arith, f) in
      let next : u64 (rd + 1) ≡ rd + 1 = omega (arith, s.rd_le) in
      let less : wr - (rd + 1) ≡ m = omega arith in
      let shown : window buf rd (suc m) ≡ x ∷ xs = ap (window buf rd) (sym one) ∙ s.shown in
      let both : (buf (rd % buf_size) ≡ x) × (window buf (rd + 1) m ≡ xs) = (cc, cc) in
      (
        both.0,
        rw next record {
          rd_le = omega (arith, f);
          room = omega (arith, s.room);
          shown = rw less both.1;
        },
      )

  pub full_test :
      (xs : List ℕ)
      → Shows buf rd wr xs
      → leb buf_size (u64 (wr + 2 ^ 64 - rd)) ≡ leb buf_size (length xs)
  full_test xs s =
      let e : u64 (wr + 2 ^ 64 - rd) ≡ length xs =
        omega (arith, Shows-length buf rd wr xs s, s.rd_le, s.room) in
      ap (leb buf_size) e

  pub empty_test : Shows buf rd wr [] → leb wr rd ≡ true
  empty_test s = ground (arith, Shows-length buf rd wr [] s)

  pub filled_test : (x : ℕ) (xs : List ℕ) → Shows buf rd wr (x ∷ xs) → leb wr rd ≡ false
  filled_test x xs s = ground (arith, Shows-length buf rd wr (x ∷ xs) s)
