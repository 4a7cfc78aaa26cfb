-- ===== src/Ui/Events/Spec.antt =====
-- ui/src/main.rs: what events do to the rows, without the window: the specification that
-- `handle_event` is held against.
use mesh_chat.Prelude.{
  ◌≤◌, ◌≡◌, refl, sym, ap, ◌∙◌, text, cat, List, [], ◌∷◌, ◌++◌, length, not, Bool, true, false,
  ◌&&◌, arith, append-nil, length-drop, ◌-◌,
}
use mesh_chat.Protocol.{ℤ}
use mesh_chat.Text.{is_empty}
use mesh_chat.Node.Events.{Event, as_str}
use mesh_chat.Ui.{Ui, Models, MessageRow, Desk, max_visible_messages}
use mesh_chat.Ui.Rows.{system_row, push_system, upsert_peer, remove_request, upsert_transfer}
use mesh_chat.Ui.Rows.Transcript.{latest, latest_all, push_message-latest}
use mesh_chat.Ui.Events.{
  handle_event, on_room_opened, on_joined, chat_row, request_row, finished_line, is_failed,
  offer_text, progress_label, progress_of, progress_state, finished_label, finished_progress,
  finished_state,
}
use mesh_chat.Ui.Events.Engine.{fingerprint-SameRows, show_next_offer-SameRows, error-SameRows}

-- The lines that an event adds to the transcript.
abbrev pub lines : Desk → ℤ → Event → List MessageRow
lines desk wall (Event.status t) = []
lines desk wall (Event.system t) = system_row desk wall t ∷ []
lines desk wall (Event.room_opened code transport dial expires_secs) = []
lines desk wall (Event.joined room transport) = []
lines desk wall (Event.join_request req name addr fingerprint) = []
lines desk wall (Event.join_resolved req accepted) = []
lines desk wall (Event.peer id name state detail) = []
lines desk wall (Event.chat from name ts body mine) =
    chat_row name (desk.fmt_clock ts) body mine ∷ []
lines desk wall (Event.file_offer transfer from name size) = []
lines desk wall (Event.file_progress transfer name peer done total incoming) = []
lines desk wall (Event.file_finished transfer name incoming ok detail) =
    system_row desk wall (finished_line name incoming ok detail) ∷ []
lines desk wall (Event.error t) = []
lines desk wall (Event.room_closed reason) =
    system_row desk wall (cat (text "Room closed: " ∷ reason ∷ [])) ∷ []

abbrev pub all_lines : Desk → ℤ → List Event → List MessageRow
all_lines desk wall [] = []
all_lines desk wall (e ∷ es) = lines desk wall e ++ all_lines desk wall es

abbrev pub gains : List MessageRow → Bool
gains [] = false
gains (row ∷ rows) = true

-- What an event makes of the rows, with a view of the messages that has no bound.
abbrev pub with_messages : List MessageRow → Models → Models
with_messages rows m = record m { messages = rows }

abbrev pub next_rows : Desk → Event → Models → Models
next_rows desk (Event.join_request req name addr fingerprint) m = record m {
  requests = m.requests ++ request_row req name addr fingerprint ∷ [];
}
next_rows desk (Event.join_resolved req accepted) m = record m {
  requests = remove_request req m.requests;
}
next_rows desk (Event.peer id name state detail) m = record m {
  peers = upsert_peer id name (as_str state) detail m.peers;
}
next_rows desk (Event.file_offer transfer from name size) m = record m {
  offers = m.offers ++ (transfer, offer_text desk name size) ∷ [];
}
next_rows desk (Event.file_progress transfer name peer done total incoming) m = record m {
  transfers =
      upsert_transfer transfer (progress_label name incoming peer) (progress_of done total)
        (progress_state desk done total) m.transfers;
}
next_rows desk (Event.file_finished transfer name incoming ok detail) m = record m {
  transfers =
      upsert_transfer transfer (finished_label name incoming) (finished_progress ok)
        (finished_state ok detail) m.transfers;
}
next_rows desk (Event.room_closed reason) m = record m { peers = []; requests = [] }
next_rows desk (Event.status t) m = m
next_rows desk (Event.system t) m = m
next_rows desk (Event.room_opened code transport dial expires_secs) m = m
next_rows desk (Event.joined room transport) m = m
next_rows desk (Event.chat from name ts body mine) m = m
next_rows desk (Event.error t) m = m

-- A tick's share of the queue at the level of the rows.
abbrev pub shown : Desk → ℤ → Event → Models → Models
shown desk wall e m =
    with_messages (latest max_visible_messages (m.messages ++ lines desk wall e))
      (next_rows desk e m)

-- An event without a line leaves a bounded view.
quiet :
    (m : Models)
    → length m.messages ≤ max_visible_messages
    → with_messages (latest max_visible_messages (m.messages ++ [])) m ≡ m
quiet m h =
    ap (λ rows. with_messages rows m)
      (ap (λ (rows : List MessageRow). latest max_visible_messages rows) (append-nil m.messages)
        ∙ latest_all max_visible_messages m.messages h)

-- Handling an event does to the rows what the specification says.
pub models-handle_event :
    (desk : Desk) (e : Event) (u : Ui)
    → length u.models.messages ≤ max_visible_messages
    → (handle_event desk e u).1.models ≡ shown desk u.wall e u.models
unfolding handle_event on_room_opened on_joined push_system
models-handle_event desk (Event.status t) u h = sym (quiet u.models h)
models-handle_event desk (Event.system t) u h =
    ap (λ rows. with_messages rows u.models) (push_message-latest _ u.models.messages h)
models-handle_event desk (Event.room_opened code transport dial expires_secs) u h =
    (fingerprint-SameRows u.node _).models ∙ sym (quiet u.models h)
models-handle_event desk (Event.joined room transport) u h =
    (fingerprint-SameRows u.node _).models ∙ sym (quiet u.models h)
models-handle_event desk (Event.join_request req name addr fingerprint) u h =
    sym (quiet (record u.models { requests = _ }) h)
models-handle_event desk (Event.join_resolved req accepted) u h =
    sym (quiet (record u.models { requests = _ }) h)
models-handle_event desk (Event.peer id name state detail) u h =
    (error-SameRows (is_failed state && not (is_empty detail)) _ _).models
    ∙ sym (quiet (record u.models { peers = _ }) h)
models-handle_event desk (Event.chat from name ts body mine) u h =
    ap (λ rows. with_messages rows u.models) (push_message-latest _ u.models.messages h)
models-handle_event desk (Event.file_offer transfer from name size) u h =
    (show_next_offer-SameRows _).models ∙ sym (quiet (record u.models { offers = _ }) h)
models-handle_event desk (Event.file_progress transfer name peer done total incoming) u h =
    sym (quiet (record u.models { transfers = _ }) h)
models-handle_event desk (Event.file_finished transfer name incoming ok detail) u h =
    ap
      (λ rows.
        with_messages rows
          (next_rows desk (Event.file_finished transfer name incoming ok detail) u.models))
      (push_message-latest _ u.models.messages h)
models-handle_event desk (Event.error t) u h = sym (quiet u.models h)
models-handle_event desk (Event.room_closed reason) u h =
    ap (λ rows. with_messages rows (record u.models { peers = []; requests = [] }))
      (push_message-latest _ u.models.messages h)

-- The flag is true just when a line came.
pub flag-handle_event :
    (desk : Desk) (e : Event) (u : Ui) → (handle_event desk e u).0 ≡ gains (lines desk u.wall e)
unfolding handle_event
flag-handle_event desk (Event.status t) u = refl
flag-handle_event desk (Event.system t) u = refl
flag-handle_event desk (Event.room_opened code transport dial expires_secs) u = refl
flag-handle_event desk (Event.joined room transport) u = refl
flag-handle_event desk (Event.join_request req name addr fingerprint) u = refl
flag-handle_event desk (Event.join_resolved req accepted) u = refl
flag-handle_event desk (Event.peer id name state detail) u = refl
flag-handle_event desk (Event.chat from name ts body mine) u = refl
flag-handle_event desk (Event.file_offer transfer from name size) u = refl
flag-handle_event desk (Event.file_progress transfer name peer done total incoming) u = refl
flag-handle_event desk (Event.file_finished transfer name incoming ok detail) u = refl
flag-handle_event desk (Event.error t) u = refl
flag-handle_event desk (Event.room_closed reason) u = refl

-- The rows that an event makes stay within the view.
pub shown-bounded :
    (desk : Desk) (wall : ℤ) (e : Event) (m : Models)
    → length (shown desk wall e m).messages ≤ max_visible_messages
shown-bounded desk wall e m =
    let rows : List MessageRow = m.messages ++ lines desk wall e in
    omega (arith, length-drop (length rows - max_visible_messages) rows)
