-- ===== src/RoomCode/Cleaning.antt =====
-- Formatting of a room code is ignored.
use mathlib.Core.List.{map-append}
use mesh_chat.Prelude.{
  ℕ, ◌≡◌, refl, sym, ◌∙◌, ap, Text, List, [], ◌∷◌, ◌++◌, append-nil, map, keep-append, All, true,
  false, arith,
}
use mesh_chat.Text.{is_ascii_alphanumeric, to_ascii_uppercase, to_ascii_lowercase}
use mesh_chat.RoomCode.{clean, split, chunks, join, pretty, decode}

-- A letter or digit that is not in lower case.
abbrev pub IsCodeChar : ℕ → Type 0
IsCodeChar c = (is_ascii_alphanumeric c ≡ true) × (to_ascii_uppercase c ≡ c)

clean-append : (a b : Text) → clean (a ++ b) ≡ clean a ++ clean b
unfolding clean
clean-append a b =
    ap (map to_ascii_uppercase) (keep-append is_ascii_alphanumeric a b) ∙ map-append _ _ _

clean_self : (s : Text) → All IsCodeChar s → clean s ≡ s
unfolding clean
clean_self [] h = refl
clean_self (c ∷ s) h = ground (arith, clean_self s h.1, h.0.0, h.0.1)

clean_dash : (s : Text) → clean (b'-' ∷ s) ≡ clean s
unfolding clean is_ascii_alphanumeric
clean_dash s = refl

clean-join : (x : Text) (cs : List Text) → clean (join (x ∷ cs)) ≡ clean x ++ clean (join cs)
unfolding join
clean-join x [] = sym (append-nil (clean x)) ∙ unfold clean in refl
clean-join x (y ∷ r) =
    clean-append x (b'-' ∷ join (y ∷ r)) ∙ ap (◌++◌ (clean x)) (clean_dash (join (y ∷ r)))

clean-join-chunks : (s : Text) → All IsCodeChar s → clean (join (chunks s)) ≡ s
unfolding chunks
clean-join-chunks [] h = unfold clean join in refl
clean-join-chunks (a ∷ []) h = unfold join in clean_self (a ∷ []) h
clean-join-chunks (a ∷ b ∷ []) h = unfold join in clean_self (a ∷ b ∷ []) h
clean-join-chunks (a ∷ b ∷ c ∷ []) h = unfold join in clean_self (a ∷ b ∷ c ∷ []) h
clean-join-chunks (a ∷ b ∷ c ∷ d ∷ []) h = unfold join in clean_self (a ∷ b ∷ c ∷ d ∷ []) h
clean-join-chunks (a ∷ b ∷ c ∷ d ∷ e ∷ s) (ha, (hb, (hc, (hd, (he, h))))) =
    clean-join (a ∷ b ∷ c ∷ d ∷ e ∷ []) (chunks s)
    ∙ ap (λ (x : Text). x ++ clean (join (chunks s)))
        (clean_self (a ∷ b ∷ c ∷ d ∷ e ∷ []) (ha, (hb, (hc, (hd, (he, tt))))))
    ∙ ap (λ (x : Text). a ∷ b ∷ c ∷ d ∷ e ∷ x) (clean-join-chunks s h)

-- What `pretty` adds is what `clean` takes away.
pub clean-pretty :
    (t : ℕ) (payload : Text)
    → IsCodeChar t
    → All IsCodeChar payload
    → clean (pretty t payload) ≡ t ∷ payload
unfolding pretty
clean-pretty t payload ht h =
    clean-append (t ∷ []) (b'-' ∷ join (chunks payload))
    ∙ ap (λ (x : Text). x ++ clean (b'-' ∷ join (chunks payload))) (clean_self (t ∷ []) (ht, tt))
    ∙ ap (◌∷◌ t) (clean_dash (join (chunks payload)) ∙ clean-join-chunks payload h)

-- How a person may type a code: with other characters put in or left out, and in either case.
pub data Retyped : Text → Text → Type 0 where
  empty : Retyped [] []
  same : (c : ℕ) {s t : Text} → Retyped s t → Retyped (c ∷ s) (c ∷ t)
  lowered : (c : ℕ) {s t : Text} → Retyped s t → Retyped (c ∷ s) (to_ascii_lowercase c ∷ t)
  added : (c : ℕ) {s t : Text} → is_ascii_alphanumeric c ≡ false → Retyped s t → Retyped s (c ∷ t)
  left_out :
      (c : ℕ) {s t : Text} → is_ascii_alphanumeric c ≡ false → Retyped s t → Retyped (c ∷ s) t

lowered_char :
    (c : ℕ)
    → (is_ascii_alphanumeric (to_ascii_lowercase c) ≡ is_ascii_alphanumeric c)
      × (to_ascii_uppercase (to_ascii_lowercase c) ≡ to_ascii_uppercase c)
unfolding is_ascii_alphanumeric to_ascii_lowercase to_ascii_uppercase
lowered_char c = ground arith

clean-Retyped : {s t : Text} → Retyped s t → clean t ≡ clean s
unfolding clean
clean-Retyped empty = refl
clean-Retyped (same c r) = ground (arith, clean-Retyped r)
clean-Retyped (lowered c r) = ground (arith, clean-Retyped r, lowered_char c)
clean-Retyped (added c h r) = ground (arith, clean-Retyped r)
clean-Retyped (left_out c h r) = ground (arith, clean-Retyped r)

-- A code typed with other separators, spaces or case is decoded like the code itself.
pub decode-Retyped : {s t : Text} → Retyped s t → decode t ≡ decode s
unfolding decode split
decode-Retyped r = rw (clean-Retyped r)
