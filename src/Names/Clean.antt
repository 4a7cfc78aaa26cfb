-- ===== src/Names/Clean.antt =====
-- What a peer can make of a name that is shown, and of a file name that is saved.
use mesh_chat.Prelude.{
  ℕ, ◌≤◌, ◌<◌, ◌≡◌, refl, Text, text, [], ◌∷◌, keep, take, length, length-take, take_all, All,
  All-take, keep-All, not, Bool, true, arith,
}
use mesh_chat.Text.{is_control, is_whitespace}
use mesh_chat.Text.Trim.{
  trim, trim_by, IsTrimmed, trim_by-IsTrimmed, trim_by_fixed, trim_by-All, length-trim_by-le,
}
use mesh_chat.Names.{sanitize_name, or_default_name}

-- A name that can be shown: not empty, at most 32 characters, none of them a control character,
-- and no blank at either end.
pub record IsDisplayName (name : Text) : Type 0 where
  pub nonempty : 0 < length name
  pub short : length name ≤ 32
  pub printable : All (λ c. not (is_control c) ≡ true) name
  pub trimmed : IsTrimmed is_whitespace name

anonymous-IsDisplayName : IsDisplayName (text "Anonymous")
unfolding text is_control is_whitespace
anonymous-IsDisplayName = record {
  nonempty = omega arith;
  short = omega arith;
  printable = (refl, (refl, (refl, (refl, (refl, (refl, (refl, (refl, (refl, tt)))))))));
  trimmed = (refl, refl);
}

or_default_name-IsDisplayName :
    (s : Text)
    → length s ≤ 32
    → All (λ c. not (is_control c) ≡ true) s
    → IsTrimmed is_whitespace s
    → IsDisplayName (or_default_name (text "Anonymous") s)
or_default_name-IsDisplayName [] l p t = anonymous-IsDisplayName
or_default_name-IsDisplayName (c ∷ s) l p t = record {
  nonempty = omega arith;
  short = l;
  printable = p;
  trimmed = t;
}

-- Whatever a peer sends as its name, what is shown is a display name.
pub sanitize_name-IsDisplayName : (name : Text) → IsDisplayName (sanitize_name name)
unfolding sanitize_name trim
sanitize_name-IsDisplayName name =
    let kept : Text = keep (λ c. not (is_control c)) name in
    or_default_name-IsDisplayName (trim_by is_whitespace (take 32 kept))
      (omega (arith, length-trim_by-le is_whitespace (take 32 kept), length-take 32 kept))
      (trim_by-All _ is_whitespace (take 32 kept)
        (All-take _ 32 kept (keep-All (λ c. not (is_control c)) name)))
      (trim_by-IsTrimmed is_whitespace (take 32 kept))

keep_full : (p : ℕ → Bool) (s : Text) → All (λ c. p c ≡ true) s → keep p s ≡ s
keep_full p [] h = refl
keep_full p (c ∷ s) h = ground (arith, keep_full p s h.1)

or_default_name_given : (d s : Text) → 0 < length s → or_default_name d s ≡ s
or_default_name_given d [] h = absurd (omega arith)
or_default_name_given d (c ∷ s) h = refl

-- A display name is left as it is, so that every peer shows a name in the same form.
pub sanitize_name_fixed : (name : Text) → IsDisplayName name → sanitize_name name ≡ name
unfolding sanitize_name trim
sanitize_name_fixed name h =
    rw
      (
        keep_full (λ c. not (is_control c)) name h.printable,
        take_all 32 name h.short,
        trim_by_fixed is_whitespace name h.trimmed,
      )
      (or_default_name_given (text "Anonymous") name h.nonempty)
