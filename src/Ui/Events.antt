-- ===== src/Ui/Events.antt =====
-- ui/src/main.rs: what an event of the engine does to the window.
pub mod Queue
pub mod Engine
pub mod Spec
use mesh_chat.Prelude.{
  ℕ, ◌+◌, ◌*◌, Text, text, cat, Option, none, some, [], ◌∷◌, ◌++◌, ◌==◌, ◌&&◌, not, Bool, true,
  false, if◌then◌else◌,
}
use mesh_chat.Text.{is_empty}
use mesh_chat.Node.{Node}
use mesh_chat.Node.Events.{Event, PeerState, connecting, connected, disconnected, failed, as_str}
use mesh_chat.Ui.{
  Ui, Models, MessageRow, RequestRow, Fraction, Desk, set_status, set_error, show_next_offer,
}
use mesh_chat.Ui.Rows.{push_message, push_system, upsert_peer, remove_request, upsert_transfer}

abbrev pub is_failed : PeerState → Bool
is_failed failed = true
is_failed connecting = false
is_failed connected = false
is_failed disconnected = false

-- `if let Some(node) = ... { ui.set_my_fingerprint(node.fingerprint()) }`
abbrev pub show_fingerprint : Option Node → Ui → Ui
show_fingerprint none u = u
show_fingerprint (some n) u = record u {
  window = record u.window { my_fingerprint = n.me.fingerprint };
}

unfoldable pub on_room_opened : Text → Text → Text → ℕ → Ui → Ui
on_room_opened code transport dial expires_secs u = show_fingerprint u.node (record u {
  expires_at = some (u.now + expires_secs * 1000);
  window = record u.window {
    is_host = true;
    room_code = code;
    room_addr = dial;
    transport_label = transport;
    screen = text "room";
    busy = false;
    status_line = text "Room open. Share the code; every joiner needs your approval.";
  };
})

unfoldable pub on_joined : Text → Text → Ui → Ui
on_joined room transport u = show_fingerprint u.node (record u {
  window = record u.window {
    is_host = false;
    room_code = room;
    transport_label = transport;
    screen = text "room";
    busy = false;
    expiry_note = [];
    status_line = text "Approved - you are in the room.";
  };
})

abbrev pub request_row : Text → Text → Text → Text → RequestRow
request_row req name addr fingerprint = record {
  req = req;
  name = name;
  addr = addr;
  fingerprint = fingerprint;
}

abbrev pub chat_row : Text → Text → Text → Bool → MessageRow
chat_row who time body mine = record {
  who = who;
  time = time;
  body = body;
  mine = mine;
  system = false;
}

abbrev pub fraction : ℕ → ℕ → Fraction
fraction done total = record { done = done; total = total }

-- `if total == 0 { 0.0 } else { done / total }`
abbrev pub progress_of : ℕ → ℕ → Fraction
progress_of done total = if total == 0 then fraction 0 1 else fraction done total

abbrev pub received_or_sent : Bool → Text
received_or_sent incoming = if incoming then text "received" else text "sent"

abbrev pub progress_label : Text → Bool → Text → Text
progress_label name incoming peer =
    cat (name ∷ text " " ∷ (if incoming then text "from" else text "to") ∷ text " " ∷ peer ∷ [])

abbrev pub progress_state : Desk → ℕ → ℕ → Text
progress_state desk done total =
    cat (desk.human_size done ∷ text " / " ∷ desk.human_size total ∷ [])

abbrev pub finished_label : Text → Bool → Text
finished_label name incoming = cat (name ∷ text " (" ∷ received_or_sent incoming ∷ text ")" ∷ [])

abbrev pub finished_progress : Bool → Fraction
finished_progress ok = if ok then fraction 1 1 else fraction 0 1

abbrev pub finished_state : Bool → Text → Text
finished_state ok detail =
    if is_empty detail then (if ok then text "Done" else text "Failed") else detail

abbrev pub finished_line : Text → Bool → Bool → Text → Text
finished_line name incoming ok detail =
    if ok
    then cat (text "File " ∷ received_or_sent incoming ∷ text ": " ∷ name ∷ text ". " ∷ detail ∷ [])
    else cat (text "File transfer failed: " ∷ name ∷ text ". " ∷ detail ∷ [])

abbrev pub offer_text : Desk → Text → ℕ → Text
offer_text desk name size = cat (name ∷ text " (" ∷ desk.human_size size ∷ text ")" ∷ [])

-- `handle_event`: true when the transcript gained a line.
unfoldable pub handle_event : Desk → Event → Ui → Bool × Ui
handle_event desk (Event.status t) u = (false, set_status t u)
handle_event desk (Event.system t) u = (
  true,
  record u { models = record u.models { messages = push_system desk u.wall t u.models.messages } },
)
handle_event desk (Event.room_opened code transport dial expires_secs) u =
    (false, on_room_opened code transport dial expires_secs u)
handle_event desk (Event.joined room transport) u = (false, on_joined room transport u)
handle_event desk (Event.join_request req name addr fingerprint) u = (
  false,
  set_status (cat (name ∷ text " wants to join - accept or decline below." ∷ [])) (record u {
    models = record u.models {
      requests = u.models.requests ++ request_row req name addr fingerprint ∷ [];
    };
  }),
)
handle_event desk (Event.join_resolved req accepted) u = (
  false,
  set_status (if accepted then text "Joiner accepted." else text "Joiner declined.")
      (record u { models = record u.models { requests = remove_request req u.models.requests } }),
)
handle_event desk (Event.peer id name state detail) u =
    let w : Ui = record u {
      models = record u.models { peers = upsert_peer id name (as_str state) detail u.models.peers };
    } in
    (
      false,
      if is_failed state && not (is_empty detail)
          then set_error (cat (name ∷ text ": " ∷ detail ∷ [])) w
          else w,
    )
handle_event desk (Event.chat from name ts body mine) u = (
  true,
  record u {
    models = record u.models {
      messages = push_message (chat_row name (desk.fmt_clock ts) body mine) u.models.messages;
    };
  },
)
handle_event desk (Event.file_offer transfer from name size) u = (
  false,
  show_next_offer (record u {
    models = record u.models {
      offers = u.models.offers ++ (transfer, offer_text desk name size) ∷ [];
    };
  }),
)
handle_event desk (Event.file_progress transfer name peer done total incoming) u = (
  false,
  record u {
    models = record u.models {
      transfers =
          upsert_transfer transfer (progress_label name incoming peer) (progress_of done total)
            (progress_state desk done total) u.models.transfers;
    };
  },
)
handle_event desk (Event.file_finished transfer name incoming ok detail) u = (
  true,
  record u {
    models = record u.models {
      transfers =
          upsert_transfer transfer (finished_label name incoming) (finished_progress ok)
            (finished_state ok detail) u.models.transfers;
      messages = push_system desk u.wall (finished_line name incoming ok detail) u.models.messages;
    };
  },
)
handle_event desk (Event.error t) u = (false, set_error t u)
handle_event desk (Event.room_closed reason) u = (
  true,
  record u {
    models = record u.models {
      messages =
          push_system desk u.wall (cat (text "Room closed: " ∷ reason ∷ [])) u.models.messages;
      peers = [];
      requests = [];
    };
    expires_at = none;
    window = record u.window { expiry_note = []; status_line = reason };
  },
)
