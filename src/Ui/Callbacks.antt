-- ===== src/Ui/Callbacks.antt =====
-- ui/src/main.rs: the callbacks of the window. What the system answers (a new identity, the file
-- dialogs, the disk, the clipboard) comes with the call. A call of the node adds the events that the
-- node told to the queue; the blocking calls are handed to threads.
pub mod Names
use mesh_chat.Prelude.{
  ℕ, ◌+◌, Text, Bytes, text, cat, Option, none, some, List, [], ◌∷◌, ◌++◌, keep, drop, length, not,
  key_eq, Bool, true, false, if◌then◌else◌,
}
use mesh_chat.Error.{Error, IoError, Result, ok, err, display}
use mesh_chat.Text.{is_empty}
use mesh_chat.Text.Trim.{trim}
use mesh_chat.Transport.{TransportKind}
use mesh_chat.Transport
use mesh_chat.Protocol.{Checked, returns, panics}
use mesh_chat.History.{Exporter}
use mesh_chat.Node.{Node, Env, Effect, tells}
use mesh_chat.Node
use mesh_chat.Node.Events.{Event}
use mesh_chat.Mesh.{send_chat}
use mesh_chat.Mesh.Rooms.{reopen_joining}
use mesh_chat.Files.Answering
use mesh_chat.Files.Outgoing.{Metadata, Read}
use mesh_chat.Files.Outgoing
use mesh_chat.Ui.{
  Ui, Started, hosts, joins, approves, set_status, set_error, set_offer, show_next_offer,
  default_code_ttl,
}
use mesh_chat.Ui.Rows.{remove_request}
use mesh_chat.Ui.Pump.{drop_node}

abbrev pub events_of : List Effect → List Event
events_of [] = []
events_of (tells e ∷ es) = e ∷ events_of es
events_of (_ ∷ es) = events_of es

-- What a node that went from `n` to `m` told.
unfoldable pub told : Node → Node → List Event
told n m = events_of (drop (length n.out) m.out)

abbrev pub queued : Option (List Event) → List Event → Option (List Event)
queued none es = none
queued (some q) es = some (q ++ es)

-- The node of the interface goes on to `m`.
unfoldable pub advance : Node → Node → Ui → Ui
advance n m u = record u { node = some m; rx = queued u.rx (told n m) }

abbrev pub start : Started → Ui → Ui
start t u = record u { started = u.started ++ t ∷ [] }

abbrev pub no_mode : Option TransportKind → Ui → Ui
no_mode none u = set_error (text "Choose LAN or Bluetooth first.") u
no_mode (some kind) u = u

unfoldable pub mode_of : Ui → Option TransportKind × Ui
mode_of u = let kind = Transport.parse u.window.mode in (kind, no_mode kind u)

-- `Node::new` made an identity (id and fingerprint), or failed.
abbrev pub install : Env → Text → Result Error (Text × Text) → Ui → Bool × Ui
install env name (err e) u = (false, set_error (display e) u)
install env name (ok (id, fingerprint)) u =
    let w = drop_node env u in
    (
      true,
      record w {
        node = some (Node.new id name fingerprint);
        rx = some [];
        window = record w.window { my_fingerprint = fingerprint; offer_id = []; offer_text = [] };
      },
    )

-- True when there is a new node.
unfoldable pub start_node : Env → Result Error (Text × Text) → Ui → Bool × Ui
start_node env identity u =
    let name = trim u.window.display_name in
    if is_empty name
    then (false, set_error (text "Enter a display name first.") u)
    else install env name identity u

abbrev pub waiting : Text → Started → Bool × Ui → Ui
waiting t thread (true, u) =
    start thread
      (record u { window = record u.window { error_line = []; status_line = t; busy = true } })
waiting t thread (false, u) = u

abbrev pub host_kind : Env → Result Error (Text × Text) → Option TransportKind × Ui → Ui
host_kind env identity (none, u) = u
host_kind env identity (some kind, u) =
    waiting (text "Opening the room...") (hosts kind default_code_ttl) (start_node env identity u)

unfoldable pub host_room : Env → Result Error (Text × Text) → Ui → Ui
host_room env identity u = host_kind env identity (mode_of u)

abbrev pub join_kind : Env → Result Error (Text × Text) → Option TransportKind × Ui → Ui
join_kind env identity (none, u) = u
join_kind env identity (some kind, u) =
    let code = trim u.window.join_code in
    if is_empty code
    then set_error (text "Enter the room code the host gave you.") u
    else waiting (text "Contacting the host...") (joins kind code) (start_node env identity u)

unfoldable pub join_room : Env → Result Error (Text × Text) → Ui → Ui
join_room env identity u = join_kind env identity (mode_of u)

-- `match app.borrow().node.clone() { Some(n) => n, None => return }`
abbrev pub with_node : Option Node → (Node → Ui → Ui) → Ui → Ui
with_node none f u = u
with_node (some n) f u = f n u

unfoldable pub approve : Text → Bool → Ui → Ui
approve req accept u =
    with_node u.node
      (λ n w.
        start (approves req accept) (record w {
          models = record w.models { requests = remove_request req w.models.requests };
        }))
      u

abbrev pub chat_sent : Result Error (Unit {0}) → Ui → Ui
chat_sent (ok _) u = record u { window = record u.window { draft = []; error_line = [] } }
chat_sent (err e) u = set_error (display e) u

unfoldable pub send_message : Env → Text → Ui → Ui
send_message env id u =
    let body = trim u.window.draft in
    if is_empty body
    then u
    else with_node u.node
        (λ n w. let (r, m) = send_chat env id body n in chat_sent r (advance n m w)) u

abbrev pub shown_error : Result Error (Unit {0}) → Ui → Ui
shown_error (ok _) u = set_error [] u
shown_error (err e) u = set_error (display e) u

-- The file that the dialog gave, with what the system answers about it.
pub record Picked : Type 0 where
  pub path : Text
  pub file_name : Option Text
  pub metadata : Result IoError Metadata
  pub opened : Result IoError (List Read)

abbrev pub file_picked : Env → Option Picked → Node → Ui → Ui
file_picked env none n u = u
file_picked env (some p) n u =
    let (r, m) = Outgoing.send_file env p.path p.file_name p.metadata p.opened n in
    shown_error r (advance n m u)

unfoldable pub send_file : Env → Option Picked → Ui → Ui
send_file env picked u = with_node u.node (file_picked env picked) u

-- What stands before the last " (", which is `rfind` and the cut.
unfoldable pub before_last : Text → Option Text
before_last [] = none
before_last (c ∷ []) = none
before_last (c ∷ d ∷ s) = elim (before_last (d ∷ s)) [
  | some front ↦ some (c ∷ front)
  | none ↦ if key_eq (c ∷ d ∷ []) (text " (") then some [] else none
]

abbrev pub whole_or : Text → Option Text → Text
whole_or t none = t
whole_or t (some front) = front

unfoldable pub suggested_name : Text → Text
suggested_name t = whole_or t (before_last t)

-- The name that the save dialog starts with.
unfoldable pub save_name : Text → List (Text × Text) → Text
save_name transfer [] = text "received-file"
save_name transfer ((id, t) ∷ offers) =
    if key_eq id transfer then suggested_name t else save_name transfer offers

-- The dialog's answer to a suggested name: a path, with what the disk answers to its creation.
abbrev pub SaveDialog : Type 0
SaveDialog = Text → Option (Text × Result IoError (Unit {0}))

abbrev pub offer_answered : Node → Ui → Checked (Result Error (Unit {0}) × Node) → Checked Ui
offer_answered n u panics = panics
offer_answered n u (returns (ok _, m)) = returns (advance n m u)
offer_answered n u (returns (err e, m)) = returns (set_error (display e) (advance n m u))

abbrev pub without_offer : Text → Ui → Ui
without_offer transfer u = show_next_offer (record u {
  models = record u.models { offers = keep (λ o. not (key_eq o.0 transfer)) u.models.offers };
})

abbrev pub answer : Env → Text → Option (Text × Result IoError (Unit {0})) → Node → Ui → Checked Ui
answer env transfer save_to n u =
    offer_answered n (without_offer transfer u) (Answering.respond_offer env transfer save_to n)

abbrev pub accepted :
    Env → Text → Option (Text × Result IoError (Unit {0})) → Node → Ui → Checked Ui
accepted env transfer none n u = returns u
accepted env transfer (some file) n u = answer env transfer (some file) n u

abbrev pub respond : Env → Text → Bool → SaveDialog → Option Node → Ui → Checked Ui
respond env transfer accept save none u = returns u
respond env transfer true save (some n) u =
    accepted env transfer (save (save_name transfer u.models.offers)) n u
respond env transfer false save (some n) u = answer env transfer none n u

unfoldable pub respond_offer : Env → Text → Bool → SaveDialog → Ui → Checked Ui
respond_offer env transfer accept save u = respond env transfer accept save u.node u

abbrev pub exported : Text → Result Error Bytes → Ui → Ui
exported path (ok _) u = set_status (cat (text "Transcript saved to " ∷ path ∷ [])) (set_error [] u)
exported path (err e) u = set_error (display e) u

abbrev pub export_to : Exporter → Option (Text × Option Text) → Node → Ui → Ui
export_to x none n u = u
export_to x (some (path, file_name)) n u = exported path (Node.export_history x path file_name n) u

-- The dialog gives a path, whose file name comes with it.
unfoldable pub export_history : Exporter → Option (Text × Option Text) → Ui → Ui
export_history x picked u = with_node u.node (export_to x picked) u

abbrev pub copied : Result Text (Unit {0}) → Ui → Ui
copied (ok _) u = set_status (text "Room code copied to clipboard.") u
copied (err e) u = set_error (cat (text "Could not use the clipboard: " ∷ e ∷ [])) u

unfoldable pub copy_code : (Text → Result Text (Unit {0})) → Ui → Ui
copy_code clipboard u =
    if is_empty u.window.room_code then u else copied (clipboard u.window.room_code) u

abbrev pub reopened : Result Error (Unit {0}) → Ui → Ui
reopened (ok _) u = set_error [] (record u { expires_at = some (u.now + default_code_ttl) })
reopened (err e) u = set_error (display e) u

unfoldable pub reopen : Ui → Ui
reopen u =
    with_node u.node
      (λ n w. let (r, m) = reopen_joining default_code_ttl n in reopened r (advance n m w)) u

unfoldable pub leave_room : Env → Ui → Ui
leave_room env u =
    let w = drop_node env u in
    record w {
      window = record w.window {
        screen = text "setup";
        busy = false;
        is_host = false;
        room_code = [];
        room_addr = [];
        expiry_note = [];
        offer_id = [];
        offer_text = [];
        error_line = [];
        status_line = text "You left the room.";
      };
    }
