-- ===== src/Prelude/Assoc.antt =====
-- `HashMap` with text or byte keys, as an association list with one entry for each key. The order
-- of the entries stands for the map's order of iteration, which the source leaves open.
use mesh_chat.Prelude.Tests.{if◌then◌else◌, is_some}
use mesh_chat.Prelude.Keys.{key_eq, key_eq_iff, key_eq_refl}
use mesh_chat.Prelude.Lists.{keep, All}
use Prim.Native.Nat.{ℕ}
use mathlib.Core.Path.{◌≡◌, refl}
use mathlib.Core.Bool.{Bool}
use mathlib.Core.Option.{Option, none, some}
use mathlib.Core.List.{List, [], ◌∷◌}
use native.Mathlib.Omega.{arith}

abbrev pub Assoc {ℓ} : Type ℓ → Type ℓ
Assoc V = List (List ℕ × V)

module _ {ℓ} {V : Type ℓ} where
  unfoldable pub lookup : List ℕ → Assoc V → Option V
  lookup k [] = none
  lookup k ((j, v) ∷ m) = if key_eq j k then some v else lookup k m

  unfoldable pub remove : List ℕ → Assoc V → Assoc V
  remove k [] = []
  remove k ((j, v) ∷ m) = let rest = remove k m in if key_eq j k then rest else (j, v) ∷ rest

  unfoldable pub insert : List ℕ → V → Assoc V → Assoc V
  insert k v m = (k, v) ∷ remove k m

  abbrev pub contains_key : List ℕ → Assoc V → Bool
  contains_key k m = is_some (lookup k m)

  -- `values()`
  abbrev pub values : Assoc V → List V
  values [] = []
  values ((k, v) ∷ m) = v ∷ values m

  pub lookup-remove :
      (k j : List ℕ) (m : Assoc V)
      → lookup j (remove k m) ≡ (if key_eq k j then none else lookup j m)
  unfolding lookup remove
  lookup-remove k j [] = ground arith
  lookup-remove k j ((i, v) ∷ m) =
      ground (arith, lookup-remove k j m, key_eq_iff i k, key_eq_iff i j, key_eq_iff k j)

  pub lookup-insert :
      (k j : List ℕ) (v : V) (m : Assoc V)
      → lookup j (insert k v m) ≡ (if key_eq k j then some v else lookup j m)
  unfolding lookup insert
  lookup-insert k j v m = ground (arith, lookup-remove k j m)

-- `retain(|_, v| p(v))`
abbrev pub retain {ℓ} : {V : Type ℓ} → (V → Bool) → Assoc V → Assoc V
retain p = keep (λ h. p h.1)

abbrev pub filter_option {ℓ} : {V : Type ℓ} → (V → Bool) → Option V → Option V
filter_option p none = none
filter_option p (some v) = if p v then some v else none

-- One entry for each key.
abbrev pub Unique {ℓ} : {V : Type ℓ} → Assoc V → Type ℓ
Unique [] = Unit
Unique ((k, v) ∷ m) = (lookup k m ≡ none) × Unique m

module _ {ℓ} {V : Type ℓ} where
  pub remove-Unique : (k : List ℕ) (m : Assoc V) → Unique m → Unique (remove k m)
  unfolding remove
  remove-Unique k [] u = tt
  remove-Unique k ((j, v) ∷ m) u = ground (arith, remove-Unique k m u.1, lookup-remove k j m)

  pub insert-Unique : (k : List ℕ) (v : V) (m : Assoc V) → Unique m → Unique (insert k v m)
  unfolding insert
  insert-Unique k v m u = (rw (lookup-remove, key_eq_refl), remove-Unique k m u)

  pub lookup-retain :
      (p : V → Bool) (k : List ℕ) (m : Assoc V)
      → Unique m
      → lookup k (retain p m) ≡ filter_option p (lookup k m)
  unfolding lookup
  lookup-retain p k [] u = refl
  lookup-retain p k ((j, v) ∷ m) u = ground (arith, lookup-retain p k m u.1, key_eq_iff j k, u.0)

  pub retain-Unique : (p : V → Bool) (m : Assoc V) → Unique m → Unique (retain p m)
  retain-Unique p [] u = tt
  retain-Unique p ((j, v) ∷ m) u = ground (arith, retain-Unique p m u.1, lookup-retain p j m u.1)

pub lookup-nil {ℓ} : {V : Type ℓ} (k : List ℕ) → lookup {V = V} k [] ≡ none
unfolding lookup
lookup-nil k = refl

pub ruleset assoc_laws = (lookup-nil, lookup-remove, lookup-insert)

-- `All` of a map's entries.
module _ {ℓ κ} {V : Type ℓ} (P : List ℕ × V → Type κ) where
  pub All-remove : (k : List ℕ) (m : Assoc V) → All P m → All P (remove k m)
  unfolding remove
  All-remove k [] h = tt
  All-remove k ((j, v) ∷ m) h = ground (arith, All-remove k m h.1)

  pub All-insert : (k : List ℕ) (v : V) (m : Assoc V) → P (k, v) → All P m → All P (insert k v m)
  unfolding insert
  All-insert k v m p h = (p, All-remove k m h)

  pub All-lookup : (k : List ℕ) (v : V) (m : Assoc V) → All P m → lookup k m ≡ some v → P (k, v)
  unfolding lookup
  All-lookup k v [] h e = cc
  All-lookup k v ((j, w) ∷ m) h e = ground (arith, All-lookup k v m h.1, key_eq_iff j k, h.0)
