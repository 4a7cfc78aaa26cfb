-- ===== src/Text/Split.antt =====
-- `rsplit_once` cuts at the last separator.
use mesh_chat.Prelude.{ℕ, ◌≡◌, refl, Text, none, some, [], ◌∷◌, ◌++◌, All, ◌==◌, false, arith}
use mesh_chat.Text.{rsplit_once}

abbrev pub Lacks : ℕ → Text → Type 0
Lacks c = All λ x. (x == c) ≡ false

pub rsplit_once-none : (c : ℕ) (s : Text) → Lacks c s → rsplit_once c s ≡ none
unfolding rsplit_once
rsplit_once-none c [] h = refl
rsplit_once-none c (x ∷ s) h = ground (arith, rsplit_once-none c s h.1)

pub rsplit_once-append :
    (c : ℕ) (front back : Text)
    → Lacks c back
    → rsplit_once c (front ++ c ∷ back) ≡ some (front, back)
unfolding rsplit_once
rsplit_once-append c [] back h = ground (arith, rsplit_once-none c back h)
rsplit_once-append c (x ∷ front) back h = ground (arith, rsplit_once-append c front back h)
