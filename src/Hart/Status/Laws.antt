-- ===== src/Hart/Status/Laws.antt =====
-- What an assignment to a bit-field of `CSRstatus` changes: the field itself, and neither the
-- other fields of its level nor the width of the word.
use revive.Common.{ℕ, ◌%◌, ◌^◌, ◌≡◌, ◌<◌, arith, field, set_field}
use revive.Hart.Status.{set_uie, set_sie, set_mie, set_upie, set_spie, set_mpie, set_spp, set_mpp}

pub set_uie_fields :
    (v x : ℕ)
    → x < 2 ^ 32
    → (field 0 1 (set_uie v x) ≡ v % 2)
      × (field 4 1 (set_uie v x) ≡ field 4 1 x)
      × (set_uie v x < 2 ^ 32)
unfolding set_field
set_uie_fields v x h = omega arith

pub set_upie_fields :
    (v x : ℕ)
    → x < 2 ^ 32
    → (field 0 1 (set_upie v x) ≡ field 0 1 x)
      × (field 4 1 (set_upie v x) ≡ v % 2)
      × (set_upie v x < 2 ^ 32)
unfolding set_field
set_upie_fields v x h = omega arith

pub set_sie_fields :
    (v x : ℕ)
    → x < 2 ^ 32
    → (field 1 1 (set_sie v x) ≡ v % 2)
      × (field 5 1 (set_sie v x) ≡ field 5 1 x)
      × (field 8 1 (set_sie v x) ≡ field 8 1 x)
      × (set_sie v x < 2 ^ 32)
unfolding set_field
set_sie_fields v x h = omega arith

pub set_spie_fields :
    (v x : ℕ)
    → x < 2 ^ 32
    → (field 1 1 (set_spie v x) ≡ field 1 1 x)
      × (field 5 1 (set_spie v x) ≡ v % 2)
      × (field 8 1 (set_spie v x) ≡ field 8 1 x)
      × (set_spie v x < 2 ^ 32)
unfolding set_field
set_spie_fields v x h = omega arith

pub set_spp_fields :
    (v x : ℕ)
    → x < 2 ^ 32
    → (field 1 1 (set_spp v x) ≡ field 1 1 x)
      × (field 5 1 (set_spp v x) ≡ field 5 1 x)
      × (field 8 1 (set_spp v x) ≡ v % 2)
      × (set_spp v x < 2 ^ 32)
unfolding set_field
set_spp_fields v x h = omega arith

pub set_mie_fields :
    (v x : ℕ)
    → x < 2 ^ 32
    → (field 3 1 (set_mie v x) ≡ v % 2)
      × (field 7 1 (set_mie v x) ≡ field 7 1 x)
      × (field 11 2 (set_mie v x) ≡ field 11 2 x)
      × (set_mie v x < 2 ^ 32)
unfolding set_field
set_mie_fields v x h = omega arith

pub set_mpie_fields :
    (v x : ℕ)
    → x < 2 ^ 32
    → (field 3 1 (set_mpie v x) ≡ field 3 1 x)
      × (field 7 1 (set_mpie v x) ≡ v % 2)
      × (field 11 2 (set_mpie v x) ≡ field 11 2 x)
      × (set_mpie v x < 2 ^ 32)
unfolding set_field
set_mpie_fields v x h = omega arith

pub set_mpp_fields :
    (v x : ℕ)
    → x < 2 ^ 32
    → (field 3 1 (set_mpp v x) ≡ field 3 1 x)
      × (field 7 1 (set_mpp v x) ≡ field 7 1 x)
      × (field 11 2 (set_mpp v x) ≡ v % 4)
      × (set_mpp v x < 2 ^ 32)
unfolding set_field
set_mpp_fields v x h = omega arith

-- The whole update that a trap into a level makes.
abbrev pub user_entry : ℕ → ℕ
user_entry x = set_uie 0 (set_upie (field 0 1 x) x)

abbrev pub supervisor_entry : ℕ → ℕ → ℕ
supervisor_entry priv x = let y = set_spp priv x in set_sie 0 (set_spie (field 1 1 y) y)

abbrev pub machine_entry : ℕ → ℕ → ℕ
machine_entry priv x = let y = set_mpp priv x in set_mie 0 (set_mpie (field 3 1 y) y)

pub user_entry_fields :
    (x : ℕ)
    → x < 2 ^ 32
    → (field 0 1 (user_entry x) ≡ 0)
      × (field 4 1 (user_entry x) ≡ field 0 1 x)
      × (user_entry x < 2 ^ 32)
user_entry_fields x h =
    let saved = set_upie_fields (field 0 1 x) x h in
    omega (arith, saved, set_uie_fields 0 (set_upie (field 0 1 x) x) saved.2)

pub supervisor_entry_fields :
    (priv x : ℕ)
    → x < 2 ^ 32
    → (field 1 1 (supervisor_entry priv x) ≡ 0)
      × (field 5 1 (supervisor_entry priv x) ≡ field 1 1 x)
      × (field 8 1 (supervisor_entry priv x) ≡ priv % 2)
      × (supervisor_entry priv x < 2 ^ 32)
supervisor_entry_fields priv x h =
    let y = set_spp priv x in
    let level = set_spp_fields priv x h in
    let saved = set_spie_fields (field 1 1 y) y level.3 in
    omega (arith, level, saved, set_sie_fields 0 (set_spie (field 1 1 y) y) saved.3)

pub machine_entry_fields :
    (priv x : ℕ)
    → x < 2 ^ 32
    → (field 3 1 (machine_entry priv x) ≡ 0)
      × (field 7 1 (machine_entry priv x) ≡ field 3 1 x)
      × (field 11 2 (machine_entry priv x) ≡ priv % 4)
      × (machine_entry priv x < 2 ^ 32)
machine_entry_fields priv x h =
    let y = set_mpp priv x in
    let level = set_mpp_fields priv x h in
    let saved = set_mpie_fields (field 3 1 y) y level.3 in
    omega (arith, level, saved, set_mie_fields 0 (set_mpie (field 3 1 y) y) saved.3)
