-- ===== src/Prelude/Lists.antt =====
-- Lists measured and cut by native numbers, under the library's names, and `All`.
use Prim.Native.Nat.{ℕ, zero, suc, ◌+◌, ◌-◌, ◌≤◌, min}
use mathlib.Core.Path.{◌≡◌, refl, ap, ◌∙◌}
use mathlib.Core.Bool.{Bool, true, false, ◌||◌}
use mathlib.Core.List.{List, [], ◌∷◌, ◌++◌}
use native.Mathlib.Omega.{arith}

module _ {ℓ} {A : Type ℓ} where
  abbrev pub length : List A → ℕ
  length [] = 0
  length (x ∷ xs) = suc (length xs)

  abbrev pub take : ℕ → List A → List A
  take zero xs = []
  take (suc n) [] = []
  take (suc n) (x ∷ xs) = x ∷ take n xs

  abbrev pub drop : ℕ → List A → List A
  drop zero xs = xs
  drop (suc n) [] = []
  drop (suc n) (x ∷ xs) = drop n xs

  -- `retain` and `filter` of the source, by a Boolean test.
  abbrev pub keep : (A → Bool) → List A → List A
  keep p [] = []
  keep p (x ∷ xs) = let rest = keep p xs in elim (p x) [ true ↦ x ∷ rest | false ↦ rest ]

  -- `iter().any(..)`
  abbrev pub any : (A → Bool) → List A → Bool
  any p [] = false
  any p (x ∷ xs) = p x || any p xs

  abbrev pub All {κ} : (A → Type κ) → List A → Type κ
  All P [] = Unit {κ}
  All P (x ∷ xs) = P x × All P xs

module _ {ℓ} {A : Type ℓ} where
  pub length-append : (xs ys : List A) → length (xs ++ ys) ≡ length xs + length ys
  length-append [] ys = omega arith
  length-append (x ∷ xs) ys = omega (arith, length-append xs ys)

  pub take-append-drop : (n : ℕ) (xs : List A) → take n xs ++ drop n xs ≡ xs
  take-append-drop zero xs = refl
  take-append-drop (suc n) [] = refl
  take-append-drop (suc n) (x ∷ xs) = ap (◌∷◌ x) (take-append-drop n xs)

  pub length-take : (n : ℕ) (xs : List A) → length (take n xs) ≡ min n (length xs)
  length-take zero xs = omega arith
  length-take (suc n) [] = omega arith
  length-take (suc n) (x ∷ xs) = omega (arith, length-take n xs)

  pub length-drop : (n : ℕ) (xs : List A) → length (drop n xs) ≡ length xs - n
  length-drop zero xs = omega arith
  length-drop (suc n) [] = omega arith
  length-drop (suc n) (x ∷ xs) = omega (arith, length-drop n xs)

  pub take_all : (n : ℕ) (xs : List A) → length xs ≤ n → take n xs ≡ xs
  take_all zero [] h = refl
  take_all zero (x ∷ xs) h = absurd (omega arith)
  take_all (suc n) [] h = refl
  take_all (suc n) (x ∷ xs) h = ap (◌∷◌ x) (take_all n xs (omega arith))

  -- Cutting a list at the length of its front part gives the two parts back.
  pub take-append : (xs ys : List A) → take (length xs) (xs ++ ys) ≡ xs
  take-append [] ys = refl
  take-append (x ∷ xs) ys = ap (◌∷◌ x) (take-append xs ys)

  pub drop-append : (xs ys : List A) → drop (length xs) (xs ++ ys) ≡ ys
  drop-append [] ys = refl
  drop-append (x ∷ xs) ys = drop-append xs ys

  -- What a short write took, and what is left to write.
  pub take-append-drop_taken :
      (k : ℕ) (xs : List A) → take k xs ++ drop (length (take k xs)) xs ≡ xs
  take-append-drop_taken zero xs = refl
  take-append-drop_taken (suc k) [] = refl
  take-append-drop_taken (suc k) (x ∷ xs) = ap (◌∷◌ x) (take-append-drop_taken k xs)

  pub append_cancel : (xs ys zs : List A) → xs ++ ys ≡ xs ++ zs → ys ≡ zs
  append_cancel [] ys zs h = h
  append_cancel (x ∷ xs) ys zs h = append_cancel xs ys zs (cc)

  pub take-append_ge :
      (n : ℕ) (xs ys : List A) → length xs ≤ n → take n (xs ++ ys) ≡ xs ++ take (n - length xs) ys
  take-append_ge n [] ys h = ap (λ k. take k ys) (omega arith)
  take-append_ge zero (x ∷ xs) ys h = absurd (omega arith)
  take-append_ge (suc n) (x ∷ xs) ys h =
      ap (◌∷◌ x) (take-append_ge n xs ys (omega arith) ∙ ap (λ k. xs ++ take k ys) (omega arith))

  pub drop-append_ge :
      (n : ℕ) (xs ys : List A) → length xs ≤ n → drop n (xs ++ ys) ≡ drop (n - length xs) ys
  drop-append_ge n [] ys h = ap (λ k. drop k ys) (omega arith)
  drop-append_ge zero (x ∷ xs) ys h = absurd (omega arith)
  drop-append_ge (suc n) (x ∷ xs) ys h =
      drop-append_ge n xs ys (omega arith) ∙ ap (λ k. drop k ys) (omega arith)

  pub take-append_le : (n : ℕ) (xs ys : List A) → n ≤ length xs → take n (xs ++ ys) ≡ take n xs
  take-append_le zero xs ys h = refl
  take-append_le (suc n) [] ys h = absurd (omega arith)
  take-append_le (suc n) (x ∷ xs) ys h = ap (◌∷◌ x) (take-append_le n xs ys (omega arith))

  pub drop-append_le :
      (n : ℕ) (xs ys : List A) → n ≤ length xs → drop n (xs ++ ys) ≡ drop n xs ++ ys
  drop-append_le zero xs ys h = refl
  drop-append_le (suc n) [] ys h = absurd (omega arith)
  drop-append_le (suc n) (x ∷ xs) ys h = drop-append_le n xs ys (omega arith)

  pub length-keep-le : (p : A → Bool) (xs : List A) → length (keep p xs) ≤ length xs
  length-keep-le p [] = omega arith
  length-keep-le p (x ∷ xs) = ground (arith, length-keep-le p xs)

module _ {ℓ κ} {A : Type ℓ} (P : A → Type κ) where
  pub All-append : (xs ys : List A) → All P xs → All P ys → All P (xs ++ ys)
  All-append [] ys hx hy = hy
  All-append (x ∷ xs) ys hx hy = (hx.0, All-append xs ys hx.1 hy)

  pub All-keep : (p : A → Bool) (xs : List A) → All P xs → All P (keep p xs)
  All-keep p [] h = tt
  All-keep p (x ∷ xs) h = go (p x) (All-keep p xs h.1)
    where
      go :
          (b : Bool)
          → All P (keep p xs)
          → All P (elim b [ true ↦ x ∷ keep p xs | false ↦ keep p xs ])
      go true r = (h.0, r)
      go false r = r

  pub All-take : (n : ℕ) (xs : List A) → All P xs → All P (take n xs)
  All-take zero xs h = tt
  All-take (suc n) [] h = tt
  All-take (suc n) (x ∷ xs) h = (h.0, All-take n xs h.1)

  pub All-drop : (n : ℕ) (xs : List A) → All P xs → All P (drop n xs)
  All-drop zero xs h = h
  All-drop (suc n) [] h = tt
  All-drop (suc n) (x ∷ xs) h = All-drop n xs h.1

-- What the test keeps passes the test.
pub keep-All {ℓ} : {A : Type ℓ} (p : A → Bool) (xs : List A) → All (λ x. p x ≡ true) (keep p xs)
keep-All p [] = tt
keep-All p (x ∷ xs) = ground (arith, keep-All p xs)

pub All-mono {ℓ κ λ'} :
    {A : Type ℓ} (P : A → Type κ) (Q : A → Type λ') (xs : List A)
    → ((x : A) → P x → Q x)
    → All P xs
    → All Q xs
All-mono P Q [] f h = tt
All-mono P Q (x ∷ xs) f h = (f x h.0, All-mono P Q xs f h.1)

module _ {ℓ} {A : Type ℓ} where
  pub keep-append : (p : A → Bool) (xs ys : List A) → keep p (xs ++ ys) ≡ keep p xs ++ keep p ys
  keep-append p [] ys = refl
  keep-append p (x ∷ xs) ys = ground (arith, keep-append p xs ys)

  -- An earlier filter by a weaker test is lost in a later one.
  pub keep-keep :
      (p q : A → Bool) (xs : List A)
      → ((x : A) → p x ≡ true → q x ≡ true)
      → keep p (keep q xs) ≡ keep p xs
  keep-keep p q [] h = refl
  keep-keep p q (x ∷ xs) h = ground (arith, keep-keep p q xs h, h x)
