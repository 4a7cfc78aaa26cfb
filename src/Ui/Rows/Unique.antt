-- ===== src/Ui/Rows/Unique.antt =====
-- ui/src/main.rs: the rows of a model with keys, as a map.
use mesh_chat.Prelude.{
  ◌≡◌, refl, Text, Option, none, some, List, [], ◌∷◌, key_eq, key_eq_iff, if◌then◌else◌, arith,
}
use mesh_chat.Ui.Rows.{upsert}

module _ {ℓ} {A : Type ℓ} (key : A → Text) where
  -- The first row with a key.
  abbrev pub find_row : Text → List A → Option A
  find_row k [] = none
  find_row k (x ∷ xs) = if key_eq (key x) k then some x else find_row k xs

  -- No two rows with one key.
  abbrev pub HaveOneKey : List A → Type ℓ
  HaveOneKey [] = Unit {ℓ}
  HaveOneKey (x ∷ xs) = (find_row (key x) xs ≡ none) × HaveOneKey xs

  pub find_row-upsert :
      (k : Text) (row : A) (xs : List A)
      → find_row k (upsert key row xs) ≡ (if key_eq (key row) k then some row else find_row k xs)
  unfolding upsert
  find_row-upsert k row [] = refl
  find_row-upsert k row (x ∷ xs) = ground (
    arith,
    find_row-upsert k row xs,
    key_eq_iff (key x) (key row),
    key_eq_iff (key x) k,
    key_eq_iff (key row) k,
  )

  pub upsert-HaveOneKey : (row : A) (xs : List A) → HaveOneKey xs → HaveOneKey (upsert key row xs)
  unfolding upsert
  upsert-HaveOneKey row [] u = (refl, tt)
  upsert-HaveOneKey row (x ∷ xs) u = ground (
    arith,
    upsert-HaveOneKey row xs u.1,
    find_row-upsert (key x) row xs,
    key_eq_iff (key x) (key row),
    key_eq_iff (key row) (key x),
    u.0,
  )
