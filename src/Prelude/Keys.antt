-- ===== src/Prelude/Keys.antt =====
-- Texts as lists of Unicode code points and byte strings as lists of numbers. Both are keys of the
-- program's maps (`PeerId`, transfer ids), so they share one test.
use Prim.Native.Nat.{ℕ, ◌<◌}
use Prim.Native.Char.{code}
use Prim.Native.String.{String}
use mathlib.Core.Path.{◌≡◌, refl}
use mathlib.Core.Logic.{◌↔◌}
use mathlib.Core.Bool.{Bool, true, false, ◌&&◌}
use mathlib.Core.List.{List, [], ◌∷◌, ◌++◌}
use native.Mathlib.Omega.{arith}
use mesh_chat.Prelude.Tests.{◌==◌}

abbrev pub Text : Type 0
Text = List ℕ

abbrev pub Bytes : Type 0
Bytes = List ℕ

abbrev pub IsByte : ℕ → Type 0
IsByte b = b < 256

-- The code points of a literal.
unfoldable pub text : String → Text
text String.[] = []
text (String.◌∷◌ c s) = code c ∷ text s

-- `format!` with its pieces in order.
unfoldable pub cat : List Text → Text
cat [] = []
cat (t ∷ ts) = t ++ cat ts

unfoldable pub key_eq : List ℕ → List ℕ → Bool
key_eq [] [] = true
key_eq [] (y ∷ ys) = false
key_eq (x ∷ xs) [] = false
key_eq (x ∷ xs) (y ∷ ys) = x == y && key_eq xs ys

pub key_eq_refl : (k : List ℕ) → key_eq k k ≡ true
unfolding key_eq
key_eq_refl [] = refl
key_eq_refl (x ∷ xs) = ground (arith, key_eq_refl xs)

pub key_eq→eq : (j k : List ℕ) → key_eq j k ≡ true → j ≡ k
unfolding key_eq
key_eq→eq [] [] h = refl
key_eq→eq [] (y ∷ ys) h = ground arith
key_eq→eq (x ∷ xs) [] h = ground arith
key_eq→eq (x ∷ xs) (y ∷ ys) h = ground (arith, key_eq→eq xs ys)

pub key_eq_iff : (j k : List ℕ) → (key_eq j k ≡ true) ↔ (j ≡ k)
key_eq_iff j k = (key_eq→eq j k, λ e. subst_refl j k e)
  where
    subst_refl : (j k : List ℕ) → j ≡ k → key_eq j k ≡ true
    subst_refl j k e = rw e (key_eq_refl k)
