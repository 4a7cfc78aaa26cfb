-- ===== src/Ui/Events/Engine.antt =====
-- ui/src/main.rs: what the handling of an event leaves as it was.
use mesh_chat.Prelude.{
  ◌≡◌, refl, ◌∙◌, Text, Option, none, some, List, [], ◌∷◌, not, Bool, true, false, if◌then◌else◌,
  ◌&&◌,
}
use mesh_chat.Text.{is_empty}
use mesh_chat.Node.{Node}
use mesh_chat.Node.Events.{Event}
use mesh_chat.Ui.{Ui, Desk, show_next_offer, prompt_head, set_error}
use mesh_chat.Ui.Events.{handle_event, on_room_opened, on_joined, is_failed, show_fingerprint}

-- The window is apart from the rows: both have the same rows, time, queue and nodes.
pub record SameRows (u w : Ui) : Type 0 where
  pub models : w.models ≡ u.models
  pub wall : w.wall ≡ u.wall
  pub rx : w.rx ≡ u.rx
  pub node : w.node ≡ u.node
  pub let_go : w.let_go ≡ u.let_go
  pub ui_rx : w.ui_rx ≡ u.ui_rx
  pub scroll : w.window.scroll_tick ≡ u.window.scroll_tick

abbrev pub same_rows : (u : Ui) → SameRows u u
same_rows u = record {
  models = refl;
  wall = refl;
  rx = refl;
  node = refl;
  let_go = refl;
  ui_rx = refl;
  scroll = refl;
}

pub fingerprint-SameRows : (n : Option Node) (u : Ui) → SameRows u (show_fingerprint n u)
fingerprint-SameRows none u = same_rows u
fingerprint-SameRows (some n) u = record {
  models = refl;
  wall = refl;
  rx = refl;
  node = refl;
  let_go = refl;
  ui_rx = refl;
  scroll = refl;
}

pub show_next_offer-SameRows : (u : Ui) → SameRows u (show_next_offer u)
unfolding show_next_offer
show_next_offer-SameRows u = go u.models.offers
  where
    go : (offers : List (Text × Text)) → SameRows u (prompt_head offers u)
    go [] = record {
      models = refl;
      wall = refl;
      rx = refl;
      node = refl;
      let_go = refl;
      ui_rx = refl;
      scroll = refl;
    }
    go ((id, t) ∷ offers) = record {
      models = refl;
      wall = refl;
      rx = refl;
      node = refl;
      let_go = refl;
      ui_rx = refl;
      scroll = refl;
    }

pub error-SameRows : (b : Bool) (t : Text) (u : Ui) → SameRows u (if b then set_error t u else u)
error-SameRows true t u = record {
  models = refl;
  wall = refl;
  rx = refl;
  node = refl;
  let_go = refl;
  ui_rx = refl;
  scroll = refl;
}
error-SameRows false t u = same_rows u

-- Handling leaves the time, the queue and the nodes.
pub record SameEngine (u w : Ui) : Type 0 where
  pub wall : w.wall ≡ u.wall
  pub rx : w.rx ≡ u.rx
  pub node : w.node ≡ u.node
  pub let_go : w.let_go ≡ u.let_go
  pub ui_rx : w.ui_rx ≡ u.ui_rx
  pub scroll : w.window.scroll_tick ≡ u.window.scroll_tick

abbrev engine_of : (u v w : Ui) → SameEngine u v → SameRows v w → SameEngine u w
engine_of u v w a b = record {
  wall = b.wall ∙ a.wall;
  rx = b.rx ∙ a.rx;
  node = b.node ∙ a.node;
  let_go = b.let_go ∙ a.let_go;
  ui_rx = b.ui_rx ∙ a.ui_rx;
  scroll = b.scroll ∙ a.scroll;
}

abbrev pub same_engine : (u : Ui) → SameEngine u u
same_engine u = record {
  wall = refl;
  rx = refl;
  node = refl;
  let_go = refl;
  ui_rx = refl;
  scroll = refl;
}

pub handle_event-SameEngine :
    (desk : Desk) (e : Event) (u : Ui) → SameEngine u (handle_event desk e u).1
unfolding handle_event on_room_opened on_joined
handle_event-SameEngine desk (Event.status t) u = record {
  wall = refl;
  rx = refl;
  node = refl;
  let_go = refl;
  ui_rx = refl;
  scroll = refl;
}
handle_event-SameEngine desk (Event.system t) u = record {
  wall = refl;
  rx = refl;
  node = refl;
  let_go = refl;
  ui_rx = refl;
  scroll = refl;
}
handle_event-SameEngine desk (Event.room_opened code transport dial expires_secs) u =
    engine_of u _ _
      (record { wall = refl; rx = refl; node = refl; let_go = refl; ui_rx = refl; scroll = refl })
      (fingerprint-SameRows u.node _)
handle_event-SameEngine desk (Event.joined room transport) u =
    engine_of u _ _
      (record { wall = refl; rx = refl; node = refl; let_go = refl; ui_rx = refl; scroll = refl })
      (fingerprint-SameRows u.node _)
handle_event-SameEngine desk (Event.join_request req name addr fingerprint) u = record {
  wall = refl;
  rx = refl;
  node = refl;
  let_go = refl;
  ui_rx = refl;
  scroll = refl;
}
handle_event-SameEngine desk (Event.join_resolved req accepted) u = record {
  wall = refl;
  rx = refl;
  node = refl;
  let_go = refl;
  ui_rx = refl;
  scroll = refl;
}
handle_event-SameEngine desk (Event.peer id name state detail) u =
    engine_of u _ _
      (record { wall = refl; rx = refl; node = refl; let_go = refl; ui_rx = refl; scroll = refl })
      (error-SameRows (is_failed state && not (is_empty detail)) _ _)
handle_event-SameEngine desk (Event.chat from name ts body mine) u = record {
  wall = refl;
  rx = refl;
  node = refl;
  let_go = refl;
  ui_rx = refl;
  scroll = refl;
}
handle_event-SameEngine desk (Event.file_offer transfer from name size) u =
    engine_of u _ _
      (record { wall = refl; rx = refl; node = refl; let_go = refl; ui_rx = refl; scroll = refl })
      (show_next_offer-SameRows _)
handle_event-SameEngine desk (Event.file_progress transfer name peer done total incoming) u =
    record { wall = refl; rx = refl; node = refl; let_go = refl; ui_rx = refl; scroll = refl }
handle_event-SameEngine desk (Event.file_finished transfer name incoming ok detail) u = record {
  wall = refl;
  rx = refl;
  node = refl;
  let_go = refl;
  ui_rx = refl;
  scroll = refl;
}
handle_event-SameEngine desk (Event.error t) u = record {
  wall = refl;
  rx = refl;
  node = refl;
  let_go = refl;
  ui_rx = refl;
  scroll = refl;
}
handle_event-SameEngine desk (Event.room_closed reason) u = record {
  wall = refl;
  rx = refl;
  node = refl;
  let_go = refl;
  ui_rx = refl;
  scroll = refl;
}

pub SameEngine-trans : (u v w : Ui) → SameEngine u v → SameEngine v w → SameEngine u w
SameEngine-trans u v w a b = record {
  wall = b.wall ∙ a.wall;
  rx = b.rx ∙ a.rx;
  node = b.node ∙ a.node;
  let_go = b.let_go ∙ a.let_go;
  ui_rx = b.ui_rx ∙ a.ui_rx;
  scroll = b.scroll ∙ a.scroll;
}
