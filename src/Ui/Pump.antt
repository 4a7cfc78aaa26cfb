-- ===== src/Ui/Pump.antt =====
-- ui/src/main.rs: the timer's work. It takes the notices of the worker threads, then events of the
-- engine up to a bound, and keeps the countdown of the room code current.
pub mod Handling
pub mod Draining
pub mod Busy
use mesh_chat.Prelude.{
  ℕ, zero, suc, ◌+◌, ◌-◌, ◌/◌, ◌%◌, ◌^◌, Text, text, cat, Option, none, some, List, [], ◌∷◌, ◌++◌,
  leb, ◌==◌, ◌||◌, key_eq, Bool, true, false, if◌then◌else◌,
}
use mesh_chat.Text.Decimal.{decimal}
use mesh_chat.Node.{Node, Env}
use mesh_chat.Node.Events.{Event}
use mesh_chat.Mesh.{leave}
use mesh_chat.Ui.{
  Ui, UiMsg, start_failed, note, Desk, reset_models, set_status, max_events_per_tick,
}
use mesh_chat.Ui.Events.{handle_event}

-- `if let Some(node) = a.node.take() { node.leave(); }`
abbrev pub left_node : Env → Option Node → List Node → List Node
left_node env none nodes = nodes
left_node env (some n) nodes = nodes ++ leave env n ∷ []

-- The node left, its queue dropped, the models empty.
unfoldable pub drop_node : Env → Ui → Ui
unfolding reset_models
drop_node env u =
    reset_models (record u { node = none; rx = none; let_go = left_node env u.node u.let_go })

unfoldable pub handle_notice : Env → UiMsg → Ui → Ui
handle_notice env (start_failed reason) u =
    let w = drop_node env u in
    record w {
      window = record w.window {
        busy = false;
        screen = text "setup";
        status_line = text "Not connected.";
        error_line = reason;
      };
    }
handle_notice env (note t) u = set_status t u

unfoldable pub handle_notices : Env → List UiMsg → Ui → Ui
handle_notices env [] u = u
handle_notices env (m ∷ ms) u = handle_notices env ms (handle_notice env m u)

abbrev pub set_rx : Option (List Event) → Ui → Ui
set_rx q u = record u { rx = q }

-- What `try_recv` finds, and the turns that are left; the flag says whether a line came.
abbrev pub turn : Desk → (Bool → Ui → Bool × Ui) → Bool → Option (List Event) → Ui → Bool × Ui
turn desk next gained none u = (gained, u)
turn desk next gained (some []) u = (gained, u)
turn desk next gained (some (e ∷ es)) u =
    let (line, w) = handle_event desk e (set_rx (some es) u) in next (line || gained) w

unfoldable pub handle_events : Desk → ℕ → Bool → Ui → Bool × Ui
handle_events desk zero gained u = (gained, u)
handle_events desk (suc k) gained u = turn desk (handle_events desk k) gained u.rx u

-- `wrapping_add(1)` of an `i32`, by its 32 bits.
abbrev pub next_tick : ℕ → ℕ
next_tick t = (t + 1) % 2 ^ 32

abbrev pub scrolled : Bool × Ui → Ui
scrolled (true, u) = record u {
  window = record u.window { scroll_tick = next_tick u.window.scroll_tick };
}
scrolled (false, u) = u

abbrev pub seconds_left : ℕ → ℕ → Text
seconds_left left now =
    let s = (left - now) / 1000 in
    if s == 0
    then text "Code expired - new joiners are refused. Press Reopen to accept more."
    else if leb 60 s
    then cat (text "Code accepts joiners for another " ∷ decimal ((s + 59) / 60) ∷ text " min" ∷ [])
    else cat (text "Code accepts joiners for another " ∷ decimal s ∷ text "s" ∷ [])

unfoldable pub expiry_text : Option ℕ → ℕ → Text
expiry_text none now = []
expiry_text (some t) now = seconds_left t now

-- The property is set only when its text changed.
unfoldable pub update_expiry : Ui → Ui
update_expiry u =
    let t = expiry_text u.expires_at u.now in
    if key_eq u.last_expiry t
    then u
    else record u { last_expiry = t; window = record u.window { expiry_note = t } }

unfoldable pub pump : Env → Desk → Ui → Ui
pump env desk u = update_expiry (
    scrolled (
      handle_events desk max_events_per_tick false
        (handle_notices env u.ui_rx (record u { ui_rx = [] }))))
