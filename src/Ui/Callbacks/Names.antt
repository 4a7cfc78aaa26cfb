-- ===== src/Ui/Callbacks/Names.antt =====
-- ui/src/main.rs: the name that the save dialog starts with is the one that the sender gave.
use mesh_chat.Prelude.{
  ℕ, ◌≡◌, refl, ap, ◌∙◌, Text, text, cat, some, none, List, [], ◌∷◌, ◌++◌, All, All-append, key_eq,
  key_eq_refl, false, arith,
}
use mesh_chat.Text.Split.{Lacks}
use mesh_chat.Node.Events.{Event}
use mesh_chat.Ui.{Ui, Desk}
use mesh_chat.Ui.Events.{handle_event, offer_text}
use mesh_chat.Ui.Events.Engine.{show_next_offer-SameRows}
use mesh_chat.Ui.Callbacks.{before_last, whole_or, suggested_name, save_name}

before_last-none : (s : Text) → Lacks b'(' s → before_last s ≡ none
unfolding before_last key_eq text
before_last-none [] h = refl
before_last-none (c ∷ []) h = refl
before_last-none (c ∷ d ∷ s) h = ground (arith, before_last-none (d ∷ s) h.1, h.1.0)

-- The text is cut at the last " (".
before_last-append :
    (front back : Text) → Lacks b'(' back → before_last (front ++ b' ' ∷ b'(' ∷ back) ≡ some front
unfolding before_last key_eq text
before_last-append [] [] h = refl
before_last-append [] (d ∷ back) h = ground (arith, before_last-none (d ∷ back) h, h.0)
before_last-append (c ∷ []) back h = ground (arith, before_last-append [] back h)
before_last-append (c ∷ d ∷ front) back h = ground (arith, before_last-append (d ∷ front) back h)

suggested_name-offer_text :
    (desk : Desk) (name : Text) (size : ℕ)
    → Lacks b'(' (desk.human_size size)
    → suggested_name (offer_text desk name size) ≡ name
unfolding suggested_name text cat
suggested_name-offer_text desk name size h =
    ap (λ o. whole_or (offer_text desk name size) o)
      (before_last-append name (desk.human_size size ++ b')' ∷ [])
        (All-append _ (desk.human_size size) (b')' ∷ []) h (refl, tt)))

-- No offer with this id.
abbrev pub NotOffered : Text → List (Text × Text) → Type 0
NotOffered transfer = All λ o. key_eq o.0 transfer ≡ false

save_name-append :
    (transfer t : Text) (offers : List (Text × Text))
    → NotOffered transfer offers
    → save_name transfer (offers ++ (transfer, t) ∷ []) ≡ suggested_name t
unfolding save_name
save_name-append transfer t [] h = rw (key_eq_refl transfer) refl
save_name-append transfer t ((id, s) ∷ offers) h = rw h.0 (save_name-append transfer t offers h.1)

-- When a size is displayed without an opening parenthesis and no offer waits under the id of a new
-- one, the save dialog for the new offer starts with the file name of the offer, whatever
-- parentheses and spaces the name holds.
pub save_name-handle_event :
    (desk : Desk) (transfer from name : Text) (size : ℕ) (u : Ui)
    → Lacks b'(' (desk.human_size size)
    → NotOffered transfer u.models.offers
    → save_name transfer
        (handle_event desk (Event.file_offer transfer from name size) u).1.models.offers
      ≡ name
unfolding handle_event
save_name-handle_event desk transfer from name size u h o =
    ap (λ m. save_name transfer m.offers) (show_next_offer-SameRows _).models
    ∙ save_name-append transfer (offer_text desk name size) u.models.offers o
    ∙ suggested_name-offer_text desk name size h
