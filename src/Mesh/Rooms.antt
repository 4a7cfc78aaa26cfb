-- ===== src/Mesh/Rooms.antt =====
-- core/src/mesh.rs: opening a room, joining one, and dialling its members. What the transport
-- answers (a listener with its address, a stream, a handshake, a reply) comes with the call.
pub mod Attempts
pub mod Linked
pub mod Dialling
use mesh_chat.Prelude.{
  ℕ, ◌+◌, ◌/◌, Text, Bytes, text, cat, Option, none, some, List, [], ◌∷◌, ◌++◌, map, not, Bool,
  true, false, if◌then◌else◌, is_some,
}
use mesh_chat.Prelude.Assoc.{Assoc, insert}
use mesh_chat.Error.{
  Error, protocol, config, closed, display, Result, ok, err, ◌>>=◌, protocol_version,
}
use mesh_chat.Text.{to_ascii_uppercase}
use mesh_chat.Text.Trim.{trim}
use mesh_chat.Transport.{TransportKind, as_str, kind_eq}
use mesh_chat.RoomCode
use mesh_chat.Protocol.{
  PeerInfo, Control, Frame, hello, mesh_hello, mesh_ack, rejected, welcome, decode, encode_control,
}
use mesh_chat.History.{system_record}
use mesh_chat.RateLimit.{default_policy}
use mesh_chat.Node.{
  Node, Env, Peer, Link, Role, host, joiner, closes, spawns, accepts, awaits_welcome, dials, say,
  emit, push_record, is_host_role, ensure_idle, link_send, send, transport_name,
}
use mesh_chat.Node.Events.{
  Event, PeerState, connecting, failed, status, room_opened, joined, room_closed,
}
use mesh_chat.Mesh.{attach_peer, shutdown_internal}

-- A listener and its dial address.
abbrev pub Listening : Type 0
Listening = ℕ × Text

pub open_room : TransportKind → ℕ → ℕ → Text → Text → Node → Node
open_room kind ttl listener dial code n = emit (room_opened code (as_str kind) dial (ttl / 1000)) (
    push_record
      (system_record n.wall
        (cat (text "Room opened over " ∷ as_str kind ∷ text " with code " ∷ code ∷ [])))
      (say (spawns (accepts listener)) (record n {
        role = some host;
        kind = some kind;
        room = code;
        me = record n.me { addr = dial };
        listener = some listener;
        open_until = some (n.clock + ttl);
        limiter = default_policy;
        history = [];
        roster = [];
        peers = [];
        pending = [];
        running = true;
      })))

pub opened : TransportKind → ℕ → ℕ → Text → Result Error Text → Node → Result Error Text × Node
unfolding open_room
opened kind ttl listener dial (err e) n = (err e, n)
opened kind ttl listener dial (ok code) n = (ok code, open_room kind ttl listener dial code n)

pub listening :
    (Text → Bool) → TransportKind → ℕ → Result Error Listening → Node → Result Error Text × Node
unfolding opened
listening is_v6 kind ttl (err e) n = (err e, n)
listening is_v6 kind ttl (ok (listener, dial)) n =
    opened kind ttl listener dial (RoomCode.encode is_v6 kind dial) n

-- `Node::host`; times are milliseconds.
unfoldable pub host_room :
    (Text → Bool) → TransportKind → ℕ → Result Error Listening → Node → Result Error Text × Node
unfolding listening
host_room is_v6 kind ttl listener n =
    if n.running
    then (err (config (text "you are already in a room - leave it first")), n)
    else listening is_v6 kind ttl listener n

unfoldable pub reopen_joining : ℕ → Node → Result Error (Unit {0}) × Node
reopen_joining ttl n =
    if not (is_host_role n.role)
    then (err (config (text "only the host can reopen joining")), n)
    else (
      ok tt,
      emit (status (text "The room is accepting joiners again"))
          (record n { open_until = some (n.clock + ttl); limiter = default_policy }),
    )

-- The state of a joiner that starts.
pub start_joining : TransportKind → Text → ℕ → Text → Node → Node
start_joining kind code listener addr n =
    emit (status (cat (text "Contacting the host over " ∷ as_str kind ∷ text "..." ∷ []))) (
      say (spawns (accepts listener)) (record n {
        role = some joiner;
        kind = some kind;
        room = map to_ascii_uppercase (trim code);
        me = record n.me { addr = addr };
        listener = some listener;
        open_until = none;
        limiter = default_policy;
        history = [];
        roster = [];
        peers = [];
        pending = [];
        running = true;
      }))

pub hello_sent : Link → Result Error (Unit {0}) × Node → Result Error (Unit {0}) × Node
hello_sent link (err e, n) = (err e, shutdown_internal n)
hello_sent link (ok u, n) = (
  ok tt,
  say (spawns (awaits_welcome link))
      (emit (status (text "Request sent - waiting for the host to approve it...")) n),
)

-- An error of the encoder returns before the teardown.
pub hello_encoded : Env → Link → Result Error Bytes → Node → Result Error (Unit {0}) × Node
unfolding hello_sent
hello_encoded env link (err e) n = (err e, n)
hello_encoded env link (ok bytes) n = hello_sent link (link_send env link bytes n)

-- The stream with its handshake.
pub connected_to : Env → Result Error Link → Node → Result Error (Unit {0}) × Node
unfolding hello_encoded
connected_to env (err e) n = (err e, shutdown_internal n)
connected_to env (ok link) n =
    hello_encoded env link (encode_control env.json (hello protocol_version n.room n.me)) n

-- A code for another transport is refused.
pub wrong_kind : TransportKind → Error
wrong_kind code_kind = config (
    cat (
      text "that room code is a "
      ∷ as_str code_kind
      ∷ text " code - switch the connection mode to "
      ∷ as_str code_kind
      ∷ text " and try again"
      ∷ []))

pub join_listening :
    Env
    → TransportKind
    → Text
    → Result Error Listening
    → Result Error Link
    → Node
    → Result Error (Unit {0}) × Node
unfolding connected_to start_joining
join_listening env kind code (err e) link n = (err e, n)
join_listening env kind code (ok (listener, addr)) link n =
    connected_to env link (start_joining kind code listener addr n)

pub join_decoded :
    Env
    → TransportKind
    → Text
    → Result Error (TransportKind × Text)
    → Result Error Listening
    → (Text → Result Error Link)
    → Node
    → Result Error (Unit {0}) × Node
unfolding join_listening wrong_kind
join_decoded env kind code (err e) listener connect n = (err e, n)
join_decoded env kind code (ok (code_kind, dial)) listener connect n =
    if not (kind_eq code_kind kind)
    then (err (wrong_kind code_kind), n)
    else join_listening env kind code listener (connect dial) n

unfoldable pub join :
    Env
    → TransportKind
    → Text
    → Result Error Listening
    → (Text → Result Error Link)
    → Node
    → Result Error (Unit {0}) × Node
unfolding join_decoded
join env kind code listener connect n =
    if n.running
    then (err (config (text "you are already in a room - leave it first")), n)
    else join_decoded env kind code (RoomCode.decode code) listener connect n

pub add_all : List PeerInfo → Assoc PeerInfo → Assoc PeerInfo
add_all [] roster = roster
add_all (p ∷ peers) roster = add_all peers (insert p.id p roster)

pub dial_all : List PeerInfo → Node → Node
dial_all [] n = n
dial_all (p ∷ peers) n = dial_all peers (say (spawns (dials p)) n)

-- The host let us in.
pub enter : Env → Link → Text → PeerInfo → List PeerInfo → Node → Node
unfolding add_all dial_all
enter env link room host_info peers n =
    let m = record n {
      room = room;
      roster = add_all peers (insert host_info.id host_info n.roster);
    } in
    dial_all peers (
      emit (joined room (transport_name m)) (
        attach_peer env host_info link (
          push_record
            (system_record m.wall
              (cat (text "Joined room " ∷ room ∷ text " over " ∷ transport_name m ∷ [])))
            m)))

pub turned_away : Link → Text → Node → Node
turned_away link reason n = shutdown_internal (emit (room_closed reason) (say (closes link) n))

pub first_reply : Env → Link → Result Error Frame → Node → Node
unfolding enter turned_away
first_reply env link (ok (Frame.control (welcome room host_info peers))) n =
    enter env link room host_info peers n
first_reply env link (ok (Frame.control (rejected reason))) n = turned_away link reason n
first_reply env link (ok _) n =
    turned_away link (text "the host sent an unexpected reply - version mismatch?") n
first_reply env link (err e) n =
    turned_away link (cat (text "bad reply from the host: " ∷ display e ∷ [])) n

unfoldable pub await_welcome : Env → Link → Result Error Bytes → Node → Node
unfolding first_reply
await_welcome env link (err e) n =
    shutdown_internal
      (emit (room_closed (cat (text "the connection to the host was lost: " ∷ display e ∷ []))) n)
await_welcome env link (ok first) n = first_reply env link (decode env.json first) n
