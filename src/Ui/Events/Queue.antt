-- ===== src/Ui/Events/Queue.antt =====
-- ui/src/main.rs: an event is handled alike whatever waits behind it in the queue.
use mesh_chat.Prelude.{
  ◌≡◌, refl, ap, Text, Option, none, some, List, [], ◌∷◌, not, Bool, true, false, if◌then◌else◌,
  ◌&&◌,
}
use mesh_chat.Text.{is_empty}
use mesh_chat.Node.{Node}
use mesh_chat.Node.Events.{Event}
use mesh_chat.Ui.{Ui, Desk, show_next_offer, set_error}
use mesh_chat.Ui.Events.{handle_event, on_room_opened, on_joined, is_failed, show_fingerprint}

abbrev pub set_queue : Option (List Event) → Ui → Ui
set_queue q u = record u { rx = q }

-- Handling reads and changes no queue.
module _ (q : Option (List Event)) where
  fingerprint-set_queue :
      (n : Option Node) (u : Ui)
      → show_fingerprint n (set_queue q u) ≡ set_queue q (show_fingerprint n u)
  fingerprint-set_queue none u = refl
  fingerprint-set_queue (some n) u = refl

  prompt-set_queue :
      (offers : List (Text × Text)) (u : Ui)
      → show_next_offer (set_queue q (record u { models = record u.models { offers = offers } }))
        ≡ set_queue q (show_next_offer (record u { models = record u.models { offers = offers } }))
  unfolding show_next_offer
  prompt-set_queue [] u = refl
  prompt-set_queue ((id, t) ∷ offers) u = refl

  error-set_queue :
      (b : Bool) (t : Text) (u : Ui)
      → (if b then set_error t (set_queue q u) else set_queue q u)
        ≡ set_queue q (if b then set_error t u else u)
  error-set_queue true t u = refl
  error-set_queue false t u = refl

  pub handle_event-set_queue :
      (desk : Desk) (e : Event) (u : Ui)
      → handle_event desk e (set_queue q u)
        ≡ ((handle_event desk e u).0, set_queue q (handle_event desk e u).1)
  unfolding handle_event on_room_opened on_joined
  handle_event-set_queue desk (Event.status t) u = refl
  handle_event-set_queue desk (Event.system t) u = refl
  handle_event-set_queue desk (Event.room_opened code transport dial expires_secs) u =
      ap (λ (w : Ui). (false, w)) (fingerprint-set_queue u.node _)
  handle_event-set_queue desk (Event.joined room transport) u =
      ap (λ (w : Ui). (false, w)) (fingerprint-set_queue u.node _)
  handle_event-set_queue desk (Event.join_request req name addr fingerprint) u = refl
  handle_event-set_queue desk (Event.join_resolved req accepted) u = refl
  handle_event-set_queue desk (Event.peer id name state detail) u =
      ap (λ (w : Ui). (false, w)) (error-set_queue (is_failed state && not (is_empty detail)) _ _)
  handle_event-set_queue desk (Event.chat from name ts body mine) u = refl
  handle_event-set_queue desk (Event.file_offer transfer from name size) u =
      ap (λ (w : Ui). (false, w)) (prompt-set_queue _ u)
  handle_event-set_queue desk (Event.file_progress transfer name peer done total incoming) u = refl
  handle_event-set_queue desk (Event.file_finished transfer name incoming ok detail) u = refl
  handle_event-set_queue desk (Event.error t) u = refl
  handle_event-set_queue desk (Event.room_closed reason) u = refl
