-- ===== src/Ui/Session/Starting.antt =====
-- ui/src/main.rs: the callbacks that make a node.
use mesh_chat.Prelude.{refl, Text, Option, none, some, [], text, Bool, true, false, if◌then◌else◌}
use mesh_chat.Error.{Error, Result, ok, err}
use mesh_chat.Text.{is_empty}
use mesh_chat.Text.Trim.{trim}
use mesh_chat.Transport.{TransportKind, parse}
use mesh_chat.Node.{Env}
use mesh_chat.Ui.{Ui, Started, reset_models, set_error}
use mesh_chat.Ui.Pump.{drop_node}
use mesh_chat.Ui.Callbacks.{
  mode_of, no_mode, install, start_node, waiting, host_kind, host_room, join_kind, join_room,
}
use mesh_chat.Ui.Session.WellFormed.{IsWell, dropped-Well}

mode_of-IsWell : (u : Ui) → IsWell u → IsWell (mode_of u).1
unfolding mode_of
mode_of-IsWell u h = go (parse u.window.mode)
  where
    go : (kind : Option TransportKind) → IsWell (no_mode kind u)
    go none = h
    go (some kind) = h

install-IsWell :
    (env : Env) (name : Text) (r : Result Error (Text × Text)) (u : Ui)
    → IsWell u
    → IsWell (install env name r u).1
unfolding drop_node reset_models
install-IsWell env name (err e) u h = h
install-IsWell env name (ok (id, fingerprint)) u h =
    let d = dropped-Well env u [] [] h in
    record {
      bounded = d.bounded;
      peers = d.peers;
      transfers = d.transfers;
      coupled = refl;
      prompted = λ q. (refl, refl);
      left = d.left;
    }

start_node-IsWell :
    (env : Env) (r : Result Error (Text × Text)) (u : Ui) → IsWell u → IsWell (start_node env r u).1
unfolding start_node
start_node-IsWell env r u h = go (is_empty (trim u.window.display_name))
  where
    go :
        (b : Bool)
        → IsWell
            (if b
              then (false, set_error (text "Enter a display name first.") u)
              else install env (trim u.window.display_name) r u).1
    go true = h
    go false = install-IsWell env (trim u.window.display_name) r u h

waiting-IsWell : (t : Text) (s : Started) (r : Bool × Ui) → IsWell r.1 → IsWell (waiting t s r)
waiting-IsWell t s (true, u) h = h
waiting-IsWell t s (false, u) h = h

pub host_room-IsWell :
    (env : Env) (r : Result Error (Text × Text)) (u : Ui) → IsWell u → IsWell (host_room env r u)
unfolding host_room
host_room-IsWell env r u h = go (mode_of u) (mode_of-IsWell u h)
  where
    go : (k : Option TransportKind × Ui) → IsWell k.1 → IsWell (host_kind env r k)
    go (none, w) g = g
    go (some kind, w) g = waiting-IsWell _ _ (start_node env r w) (start_node-IsWell env r w g)

pub join_room-IsWell :
    (env : Env) (r : Result Error (Text × Text)) (u : Ui) → IsWell u → IsWell (join_room env r u)
unfolding join_room
join_room-IsWell env r u h = go (mode_of u) (mode_of-IsWell u h)
  where
    code_given :
        (kind : TransportKind) (b : Bool) (w : Ui)
        → IsWell w
        → IsWell (
            if b
            then set_error (text "Enter the room code the host gave you.") w
            else waiting
                (text "Contacting the host...")
                (Started.joins kind (trim w.window.join_code))
                (start_node env r w))
    code_given kind true w g = g
    code_given kind false w g =
        waiting-IsWell _ _ (start_node env r w) (start_node-IsWell env r w g)

    go : (k : Option TransportKind × Ui) → IsWell k.1 → IsWell (join_kind env r k)
    go (none, w) g = g
    go (some kind, w) g = code_given kind (is_empty (trim w.window.join_code)) w g
