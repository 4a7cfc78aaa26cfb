-- ===== src/Text/Trim.antt =====
-- `str::trim` and `str::trim_matches(c)`: both ends lose the characters that pass a test.
use mesh_chat.Prelude.{
  ℕ, ◌≤◌, ◌≡◌, refl, sym, ◌∙◌, ap, subst, inl, inr, Text, [], ◌∷◌, ◌++◌, length, All, Bool, false,
  if◌then◌else◌, arith, Bool-cases, ◌==◌, length-append,
}
use mathlib.Core.List.{reverse, reverse-append, reverse-reverse}
use mesh_chat.Text.{is_whitespace}

unfoldable pub trim_start_by : (ℕ → Bool) → Text → Text
trim_start_by p [] = []
trim_start_by p (c ∷ s) = if p c then trim_start_by p s else c ∷ s

unfoldable pub trim_by : (ℕ → Bool) → Text → Text
trim_by p s = reverse (trim_start_by p (reverse (trim_start_by p s)))

unfoldable pub trim : Text → Text
trim s = trim_by is_whitespace s

abbrev pub is_dot : ℕ → Bool
is_dot c = c == b'.'

-- `trim_matches('.')`
unfoldable pub trim_dots : Text → Text
trim_dots s = trim_by is_dot s

-- The first character fails the test, if there is one.
abbrev pub LeadFree : (ℕ → Bool) → Text → Type 0
LeadFree p [] = Unit
LeadFree p (c ∷ s) = p c ≡ false

-- Neither end passes the test.
abbrev pub IsTrimmed : (ℕ → Bool) → Text → Type 0
IsTrimmed p s = LeadFree p s × LeadFree p (reverse s)

trim_start_by-LeadFree : (p : ℕ → Bool) (s : Text) → LeadFree p (trim_start_by p s)
unfolding trim_start_by
trim_start_by-LeadFree p [] = tt
trim_start_by-LeadFree p (c ∷ s) = elim (Bool-cases (p c)) [
  | inl yes_ ↦ rw yes_ (trim_start_by-LeadFree p s)
  | inr no_ ↦ rw no_ no_
]

trim_start_by-split : (p : ℕ → Bool) (s : Text) → (front : Text) × (s ≡ front ++ trim_start_by p s)
unfolding trim_start_by
trim_start_by-split p [] = ([], refl)
trim_start_by-split p (c ∷ s) = elim (Bool-cases (p c)) [
  | inl yes_ ↦ let (front, e) = trim_start_by-split p s in (c ∷ front, rw yes_ (ap (◌∷◌ c) e))
  | inr no_ ↦ ([], rw no_)
]

trim_start_by_fixed : (p : ℕ → Bool) (s : Text) → LeadFree p s → trim_start_by p s ≡ s
unfolding trim_start_by
trim_start_by_fixed p [] h = refl
trim_start_by_fixed p (c ∷ s) h = rw h

LeadFree-front : (p : ℕ → Bool) (a b : Text) → LeadFree p (a ++ b) → LeadFree p a
LeadFree-front p [] b h = tt
LeadFree-front p (c ∷ a) b h = h

-- A trimmed text is a middle part of the text.
pub trim_by-split :
    (p : ℕ → Bool) (s : Text)
    → (front : Text) × (back : Text) × (s ≡ front ++ (trim_by p s ++ back))
unfolding trim_by
trim_by-split p s =
    let (front, e) = trim_start_by-split p s in
    let t : Text = trim_start_by p s in
    let (back, f) = trim_start_by-split p (reverse t) in
    (
      front,
      reverse back,
      e
          ∙ ap (◌++◌ front) (
              sym (reverse-reverse t)
              ∙ ap reverse f
              ∙ reverse-append back (trim_start_by p (reverse t))),
    )

pub trim_by-IsTrimmed : (p : ℕ → Bool) (s : Text) → IsTrimmed p (trim_by p s)
unfolding trim_by
trim_by-IsTrimmed p s =
    let t : Text = trim_start_by p s in
    let u : Text = trim_start_by p (reverse t) in
    let (back, f) = trim_start_by-split p (reverse t) in
    (
      LeadFree-front p (reverse u) (reverse back) (
          subst (LeadFree p) (sym (reverse-reverse t) ∙ ap reverse f ∙ reverse-append back u)
            (trim_start_by-LeadFree p s)),
      subst (LeadFree p) (sym (reverse-reverse u)) (trim_start_by-LeadFree p (reverse t)),
    )

pub trim_by_fixed : (p : ℕ → Bool) (s : Text) → IsTrimmed p s → trim_by p s ≡ s
unfolding trim_by
trim_by_fixed p s h =
    ap (λ (x : Text). reverse (trim_start_by p (reverse x))) (trim_start_by_fixed p s h.0)
    ∙ ap reverse (trim_start_by_fixed p (reverse s) h.1)
    ∙ reverse-reverse s

All-middle {κ} : (P : ℕ → Type κ) (a b c : Text) → All P (a ++ (b ++ c)) → All P b
All-middle P [] [] c h = tt
All-middle P [] (x ∷ b) c h = (h.0, All-middle P [] b c h.1)
All-middle P (x ∷ a) b c h = All-middle P a b c h.1

-- What holds of all characters holds of those that are left, and there are no more of them.
pub trim_by-All {κ} : (P : ℕ → Type κ) (p : ℕ → Bool) (s : Text) → All P s → All P (trim_by p s)
trim_by-All P p s h =
    let (front, back, e) = trim_by-split p s in
    All-middle P front (trim_by p s) back (subst (All P) e h)

pub length-trim_by-le : (p : ℕ → Bool) (s : Text) → length (trim_by p s) ≤ length s
length-trim_by-le p s =
    let (front, back, e) = trim_by-split p s in
    omega (
      arith,
      ap (λ (x : Text). length x) e,
      length-append front (trim_by p s ++ back),
      length-append (trim_by p s) back,
    )
