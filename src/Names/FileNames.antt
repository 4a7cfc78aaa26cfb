-- ===== src/Names/FileNames.antt =====
-- core/src/files.rs: what `safe_file_name` makes of a name that a peer offers.
use mesh_chat.Prelude.{
  ℕ, ◌≤◌, ◌<◌, ◌≡◌, refl, Text, text, [], ◌∷◌, keep, take, length, length-take, All, All-take,
  All-keep, keep-All, any, not, ◌&&◌, ◌||◌, Bool, true, false, Bool-cases, inl, inr, arith,
}
use mesh_chat.Text.{is_control, is_whitespace}
use mesh_chat.Text.Trim.{
  trim, trim_by, trim_dots, is_dot, IsTrimmed, trim_by-IsTrimmed, trim_by-All, length-trim_by-le,
}
use mesh_chat.Names.{safe_file_name, base_name, is_separator, is_forbidden, or_default_name}

-- What a file name may have in it.
abbrev pub IsAllowed : ℕ → Type 0
IsAllowed c = (is_separator c ≡ false) × (is_control c ≡ false) × (is_forbidden c ≡ false)

-- A name that stays in its directory: not empty, of 120 characters at most, with no separator, no
-- control character and nothing that Windows forbids, and with no dot at either end, so that it is
-- neither `.` nor `..` and is not hidden.
pub record IsFileName (name : Text) : Type 0 where
  pub nonempty : 0 < length name
  pub short : length name ≤ 120
  pub allowed : All (λ c. IsAllowed c) name
  pub undotted : IsTrimmed is_dot name

base_name-All : (name : Text) → All (λ c. is_separator c ≡ false) (base_name name)
unfolding base_name
base_name-All [] = tt
base_name-All (c ∷ s) = elim (Bool-cases (is_separator c || any is_separator s)) [
  | inl later ↦ rw later (base_name-All s)
  | inr none_left ↦
      rw none_left (first_false c s none_left, rest_false s (later_false c s none_left))
]
  where
    first_false :
        (c : ℕ) (s : Text) → (is_separator c || any is_separator s) ≡ false → is_separator c ≡ false
    first_false c s h = ground (arith, h)

    later_false :
        (c : ℕ) (s : Text)
        → (is_separator c || any is_separator s) ≡ false
        → any is_separator s ≡ false
    later_false c s h = ground (arith, h)

    rest_false : (s : Text) → any is_separator s ≡ false → All (λ c. is_separator c ≡ false) s
    rest_false [] h = tt
    rest_false (c ∷ s) h = (ground (arith, h), rest_false s (ground (arith, h)))

-- The characters that `safe_file_name` keeps.
abbrev kept : ℕ → Bool
kept c = not (is_control c) && not (is_forbidden c)

kept-IsAllowed : (c : ℕ) → is_separator c ≡ false → kept c ≡ true → IsAllowed c
kept-IsAllowed c s k = (s, ground (arith, k), ground (arith, k))

All-both :
    (s : Text)
    → All (λ c. is_separator c ≡ false) s
    → All (λ c. kept c ≡ true) s
    → All (λ c. IsAllowed c) s
All-both [] h k = tt
All-both (c ∷ s) h k = (kept-IsAllowed c h.0 k.0, All-both s h.1 k.1)

received-IsFileName : IsFileName (text "received.bin")
unfolding text is_control
received-IsFileName = record {
  nonempty = omega arith;
  short = omega arith;
  allowed = (
    (refl, refl, refl),
    (
      (refl, refl, refl),
      (
        (refl, refl, refl),
        (
          (refl, refl, refl),
          (
            (refl, refl, refl),
            (
              (refl, refl, refl),
              (
                (refl, refl, refl),
                (
                  (refl, refl, refl),
                  (
                    (refl, refl, refl),
                    ((refl, refl, refl), ((refl, refl, refl), ((refl, refl, refl), tt))),
                  ),
                ),
              ),
            ),
          ),
        ),
      ),
    ),
  );
  undotted = (refl, refl);
}

or_default_name-IsFileName :
    (s : Text)
    → length s ≤ 120
    → All (λ c. IsAllowed c) s
    → IsTrimmed is_dot s
    → IsFileName (or_default_name (text "received.bin") s)
or_default_name-IsFileName [] l a t = received-IsFileName
or_default_name-IsFileName (c ∷ s) l a t = record {
  nonempty = omega arith;
  short = l;
  allowed = a;
  undotted = t;
}

-- Whatever a peer offers, the name it is saved under by default stays in its directory.
pub safe_file_name-IsFileName : (name : Text) → IsFileName (safe_file_name name)
unfolding safe_file_name trim trim_dots
safe_file_name-IsFileName name =
    let base : Text = base_name name in
    let cut : Text = take 120 (keep kept base) in
    let inner : Text = trim_by is_whitespace cut in
    or_default_name-IsFileName (trim_by is_dot inner)
      (omega (
        arith,
        length-trim_by-le is_dot inner,
        length-trim_by-le is_whitespace cut,
        length-take 120 (keep kept base),
      ))
      (trim_by-All (λ c. IsAllowed c) is_dot inner
        (trim_by-All (λ c. IsAllowed c) is_whitespace cut
          (All-take (λ c. IsAllowed c) 120 (keep kept base)
            (All-both (keep kept base)
              (All-keep (λ c. is_separator c ≡ false) kept base (base_name-All name))
              (keep-All kept base)))))
      (trim_by-IsTrimmed is_dot inner)
