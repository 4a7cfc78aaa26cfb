-- ===== src/Ui/Session.antt =====
-- ui/src/main.rs: everything that can happen to the interface, as a list of happenings that are run
-- in order: callbacks of the window, edits of its fields, ticks of the timer, time, notices of the
-- worker threads, and whatever the engine's threads do to the node meanwhile.
pub mod WellFormed
pub mod Starting
pub mod Calls
pub mod Reachable
pub mod Busy
use mesh_chat.Prelude.{ℕ, ◌+◌, Text, Bool, Option, none, some, List, [], ◌∷◌, ◌++◌}
use mesh_chat.Error.{Error, IoError, Result}
use mesh_chat.Protocol.{ℤ, Checked, returns, panics}
use mesh_chat.History.{Exporter}
use mesh_chat.Node.{Node, Env}
use mesh_chat.Mesh.{leave}
use mesh_chat.Ui.{Ui, UiMsg, Desk, Window}
use mesh_chat.Ui.Pump.{pump}
use mesh_chat.Ui.Callbacks
use mesh_chat.Ui.Callbacks.{Picked, SaveDialog, advance, with_node}

pub data Happening : Type 0 where
  ticks : Happening
  passes : (ms : ℕ) (wall : ℤ) → Happening
  notifies : UiMsg → Happening
  works : (f : Node → Node) → Happening
  edits : (display_name mode join_code draft : Text) → Happening
  clicks_host clicks_join : (identity : Result Error (Text × Text)) → Happening
  clicks_approve : (req : Text) (accept : Bool) → Happening
  clicks_send : (id : Text) → Happening
  clicks_send_file : Option Picked → Happening
  clicks_respond : (transfer : Text) (accept : Bool) (save : SaveDialog) → Happening
  clicks_export : Exporter → Option (Text × Option Text) → Happening
  clicks_copy : (clipboard : Text → Result Text (Unit {0})) → Happening
  clicks_reopen clicks_leave : Happening

-- A panic ends the program, so the interface stays as it was.
abbrev pub settled : Checked Ui → Ui → Ui
settled (returns w) u = w
settled panics u = u

unfoldable pub happen : Env → Desk → Happening → Ui → Ui
happen env desk ticks u = pump env desk u
happen env desk (passes ms wall) u = record u { now = u.now + ms; wall = wall }
happen env desk (notifies m) u = record u { ui_rx = u.ui_rx ++ m ∷ [] }
happen env desk (works f) u = with_node u.node (λ n. advance n (f n)) u
happen env desk (edits display_name mode join_code draft) u = record u {
  window = record u.window {
    display_name = display_name;
    mode = mode;
    join_code = join_code;
    draft = draft;
  };
}
happen env desk (clicks_host identity) u = Callbacks.host_room env identity u
happen env desk (clicks_join identity) u = Callbacks.join_room env identity u
happen env desk (clicks_approve req accept) u = Callbacks.approve req accept u
happen env desk (clicks_send id) u = Callbacks.send_message env id u
happen env desk (clicks_send_file picked) u = Callbacks.send_file env picked u
happen env desk (clicks_respond transfer accept save) u =
    settled (Callbacks.respond_offer env transfer accept save u) u
happen env desk (clicks_export x picked) u = Callbacks.export_history x picked u
happen env desk (clicks_copy clipboard) u = Callbacks.copy_code clipboard u
happen env desk clicks_reopen u = Callbacks.reopen u
happen env desk clicks_leave u = Callbacks.leave_room env u

unfoldable pub session : Env → Desk → List Happening → Ui → Ui
session env desk [] u = u
session env desk (h ∷ hs) u = session env desk hs (happen env desk h u)

-- The end of `main`: the node leaves.
unfoldable pub close_window : Env → Ui → Ui
close_window env u = with_node u.node (λ n. advance n (leave env n)) u
