-- ===== src/Ui.antt =====
-- ui/src/main.rs: what the window shows and what the callbacks and the timer share. `App` and the
-- properties of the window are one record `Ui`; the four list models are a record of their own. The
-- nodes that the interface let go and the threads that it started are kept in two logs.
pub mod Rows
pub mod Events
pub mod Pump
pub mod Callbacks
pub mod Session
pub mod Runs
use mesh_chat.Prelude.{ℕ, Text, text, Option, none, some, List, [], ◌∷◌, Bool, false}
use mesh_chat.Protocol.{ℤ}
use mesh_chat.Transport.{TransportKind}
use mesh_chat.Node.{Node}
use mesh_chat.Node.Events.{Event}

-- The rows of the list models, as app.slint declares them.
pub record MessageRow : Type 0 where
  pub who : Text
  pub time : Text
  pub body : Text
  pub mine : Bool
  pub system : Bool

pub record PeerRow : Type 0 where
  pub id : Text
  pub name : Text
  pub status : Text
  pub detail : Text

pub record RequestRow : Type 0 where
  pub req : Text
  pub name : Text
  pub addr : Text
  pub fingerprint : Text

-- The exact quotient in place of an `f32`.
pub record Fraction : Type 0 where
  pub done : ℕ
  pub total : ℕ

pub record TransferRow : Type 0 where
  pub id : Text
  pub label : Text
  pub progress : Fraction
  pub state : Text

pub data UiMsg : Type 0 where
  start_failed note : Text → UiMsg

-- The rows, and the offers that wait for an answer (id and text), oldest first.
pub record Models : Type 0 where
  pub messages : List MessageRow
  pub peers : List PeerRow
  pub requests : List RequestRow
  pub transfers : List TransferRow
  pub offers : List (Text × Text)

-- `AppWindow`: the properties that main.rs reads or sets.
pub record Window : Type 0 where
  pub screen : Text
  pub display_name : Text
  pub mode : Text
  pub join_code : Text
  pub draft : Text
  pub is_host : Bool
  pub room_code : Text
  pub room_addr : Text
  pub transport_label : Text
  pub my_fingerprint : Text
  pub status_line : Text
  pub error_line : Text
  pub expiry_note : Text
  pub busy : Bool
  pub offer_id : Text
  pub offer_text : Text
  pub scroll_tick : ℕ

-- The blocking calls that a callback moves to a thread.
pub data Started : Type 0 where
  hosts : (kind : TransportKind) (ttl : ℕ) → Started
  joins : (kind : TransportKind) (code : Text) → Started
  approves : (req : Text) (accept : Bool) → Started

-- `rx` and `ui_rx` are what their channels hold, oldest first. Times are milliseconds.
pub record Ui : Type 0 where
  pub node : Option Node
  pub rx : Option (List Event)
  pub ui_rx : List UiMsg
  pub models : Models
  pub expires_at : Option ℕ
  pub last_expiry : Text
  pub window : Window
  pub let_go : List Node
  pub started : List Started
  pub now : ℕ
  pub wall : ℤ

-- What the display of a time and of a size make of them.
pub record Desk : Type 0 where
  pub fmt_clock : ℤ → Text
  pub human_size : ℕ → Text

abbrev pub tick : ℕ
tick = 50

abbrev pub max_events_per_tick : ℕ
max_events_per_tick = 256

abbrev pub max_visible_messages : ℕ
max_visible_messages = 2_000

abbrev pub default_code_ttl : ℕ
default_code_ttl = 600_000

abbrev pub no_rows : Models
no_rows = record { messages = []; peers = []; requests = []; transfers = []; offers = [] }

-- The window that app.slint declares, with the status line that `main` sets.
abbrev pub first_window : Window
first_window = record {
  screen = text "setup";
  display_name = [];
  mode = text "LAN";
  join_code = [];
  draft = [];
  is_host = false;
  room_code = [];
  room_addr = [];
  transport_label = [];
  my_fingerprint = [];
  status_line = text "Pick a connection mode, then host or join a room.";
  error_line = [];
  expiry_note = [];
  busy = false;
  offer_id = [];
  offer_text = [];
  scroll_tick = 0;
}

-- `App::new` beside the first window.
unfoldable pub new : ℕ → ℤ → Ui
new now wall = record {
  node = none;
  rx = none;
  ui_rx = [];
  models = no_rows;
  expires_at = none;
  last_expiry = [];
  window = first_window;
  let_go = [];
  started = [];
  now = now;
  wall = wall;
}

unfoldable pub reset_models : Ui → Ui
reset_models u = record u { models = no_rows; expires_at = none; last_expiry = [] }

abbrev pub set_status : Text → Ui → Ui
set_status t u = record u { window = record u.window { status_line = t } }

abbrev pub set_error : Text → Ui → Ui
set_error t u = record u { window = record u.window { error_line = t } }

abbrev pub set_offer : Text → Text → Ui → Ui
set_offer id t u = record u { window = record u.window { offer_id = id; offer_text = t } }

-- Show the oldest queued offer, or clear the prompt.
abbrev pub prompt_head : List (Text × Text) → Ui → Ui
prompt_head [] u = set_offer [] [] u
prompt_head ((id, t) ∷ rest) u = set_offer id t u

unfoldable pub show_next_offer : Ui → Ui
show_next_offer u = prompt_head u.models.offers u
