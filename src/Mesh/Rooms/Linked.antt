-- ===== src/Mesh/Rooms/Linked.antt =====
-- core/src/mesh.rs: opening, joining and dialling keep the map of peers in order.
use mesh_chat.Prelude.{
  ℕ, Text, Bytes, text, cat, some, List, [], ◌∷◌, Bool, true, false, not, refl, if◌then◌else◌, ◌+◌,
}
use mesh_chat.Prelude.Assoc.{insert}
use mesh_chat.Error.{Error, Result, ok, err, display, config, protocol_version}
use mesh_chat.Transport.{TransportKind, kind_eq}
use mesh_chat.RoomCode
use mesh_chat.Protocol.{PeerInfo, Control, Frame, hello, decode, encode_control}
use mesh_chat.History.{system_record}
use mesh_chat.RateLimit.{default_policy}
use mesh_chat.Node.{
  Node, Env, Link, closes, dials, spawns, say, emit, push_record, link_send, is_host_role,
  transport_name,
}
use mesh_chat.Node.Events.{joined, room_closed, status}
use mesh_chat.Node.Quiet.{link_send-Quiet}
use mesh_chat.Mesh.{attach_peer}
use mesh_chat.Mesh.Linked.{AreLinked, AreLinked-Quiet, attach_peer-AreLinked}
use mesh_chat.Mesh.Teardown.{shutdown_internal-AreLinked}
use mesh_chat.Mesh.Admission.Linked.{Keeps}
use mesh_chat.Mesh.Rooms.{
  Listening, open_room, opened, listening, host_room, reopen_joining, start_joining, hello_sent,
  hello_encoded, connected_to, join_listening, join_decoded, join, add_all, dial_all, enter,
  turned_away, first_reply, await_welcome, wrong_kind,
}

opened-AreLinked :
    (kind : TransportKind) (ttl listener : ℕ) (dial : Text) (code : Result Error Text) (n : Node)
    → AreLinked n
    → AreLinked (opened kind ttl listener dial code n).1
unfolding opened open_room
opened-AreLinked kind ttl listener dial (err e) n h = h
opened-AreLinked kind ttl listener dial (ok code) n h = (tt, tt, λ down. refl)

listening-AreLinked :
    (is_v6 : Text → Bool) (kind : TransportKind) (ttl : ℕ) (l : Result Error Listening) (n : Node)
    → AreLinked n
    → AreLinked (listening is_v6 kind ttl l n).1
unfolding listening
listening-AreLinked is_v6 kind ttl (err e) n h = h
listening-AreLinked is_v6 kind ttl (ok (listener, dial)) n h =
    opened-AreLinked kind ttl listener dial (RoomCode.encode is_v6 kind dial) n h

-- A call that is refused leaves the node as it was.
refused-AreLinked {ℓ} :
    {A : Type ℓ} (b : Bool) (e : Error) (n : Node) (r : Result Error A × Node)
    → AreLinked n
    → AreLinked r.1
    → AreLinked (if b then (err e, n) else r).1
refused-AreLinked true e n r h k = h
refused-AreLinked false e n r h k = k

pub host_room-Keeps :
    (is_v6 : Text → Bool) (kind : TransportKind) (ttl : ℕ) (l : Result Error Listening)
    → Keeps (λ n. (host_room is_v6 kind ttl l n).1)
unfolding host_room
host_room-Keeps is_v6 kind ttl l n h =
    refused-AreLinked n.running (config (text "you are already in a room - leave it first")) n
      (listening is_v6 kind ttl l n) h (listening-AreLinked is_v6 kind ttl l n h)

pub reopen_joining-Keeps : (ttl : ℕ) → Keeps (λ n. (reopen_joining ttl n).1)
unfolding reopen_joining
reopen_joining-Keeps ttl n h =
    refused-AreLinked (not (is_host_role n.role)) (config (text "only the host can reopen joining"))
      n
      (
        ok tt,
        emit (status (text "The room is accepting joiners again"))
            (record n { open_until = some (n.clock + ttl); limiter = default_policy }),
      )
      h h

hello_sent-AreLinked :
    (link : Link) (r : Result Error (Unit {0}) × Node)
    → AreLinked r.1
    → AreLinked (hello_sent link r).1
unfolding hello_sent
hello_sent-AreLinked link (err e, n) h = shutdown_internal-AreLinked n
hello_sent-AreLinked link (ok u, n) h = h

hello_encoded-AreLinked :
    (env : Env) (link : Link) (r : Result Error Bytes) (n : Node)
    → AreLinked n
    → AreLinked (hello_encoded env link r n).1
unfolding hello_encoded
hello_encoded-AreLinked env link (err e) n h = h
hello_encoded-AreLinked env link (ok bytes) n h =
    hello_sent-AreLinked link (link_send env link bytes n)
      (AreLinked-Quiet n (link_send env link bytes n).1 (link_send-Quiet env link bytes n) h)

connected_to-AreLinked :
    (env : Env) (link : Result Error Link) (n : Node)
    → AreLinked n
    → AreLinked (connected_to env link n).1
unfolding connected_to
connected_to-AreLinked env (err e) n h = shutdown_internal-AreLinked n
connected_to-AreLinked env (ok link) n h =
    hello_encoded-AreLinked env link (encode_control env.json (hello protocol_version n.room n.me))
      n h

join_listening-AreLinked :
    (env : Env) (kind : TransportKind) (code : Text) (l : Result Error Listening)
    (link : Result Error Link) (n : Node)
    → AreLinked n
    → AreLinked (join_listening env kind code l link n).1
unfolding join_listening start_joining
join_listening-AreLinked env kind code (err e) link n h = h
join_listening-AreLinked env kind code (ok (listener, addr)) link n h =
    connected_to-AreLinked env link (start_joining kind code listener addr n) (tt, tt, λ down. refl)

join_decoded-AreLinked :
    (env : Env) (kind : TransportKind) (code : Text) (d : Result Error (TransportKind × Text))
    (l : Result Error Listening) (connect : Text → Result Error Link) (n : Node)
    → AreLinked n
    → AreLinked (join_decoded env kind code d l connect n).1
unfolding join_decoded
join_decoded-AreLinked env kind code (err e) l connect n h = h
join_decoded-AreLinked env kind code (ok (code_kind, dial)) l connect n h =
    refused-AreLinked (not (kind_eq code_kind kind)) (wrong_kind code_kind) n
      (join_listening env kind code l (connect dial) n) h
      (join_listening-AreLinked env kind code l (connect dial) n h)

pub join-Keeps :
    (env : Env) (kind : TransportKind) (code : Text) (l : Result Error Listening)
    (connect : Text → Result Error Link)
    → Keeps (λ n. (join env kind code l connect n).1)
unfolding join
join-Keeps env kind code l connect n h =
    refused-AreLinked n.running (config (text "you are already in a room - leave it first")) n
      (join_decoded env kind code (RoomCode.decode code) l connect n) h
      (join_decoded-AreLinked env kind code (RoomCode.decode code) l connect n h)

dial_all-AreLinked : (peers : List PeerInfo) (n : Node) → AreLinked n → AreLinked (dial_all peers n)
unfolding dial_all
dial_all-AreLinked [] n h = h
dial_all-AreLinked (p ∷ peers) n h = dial_all-AreLinked peers (say (spawns (dials p)) n) h

enter-AreLinked :
    (env : Env) (link : Link) (room : Text) (host_info : PeerInfo) (peers : List PeerInfo)
    (n : Node)
    → AreLinked n
    → AreLinked (enter env link room host_info peers n)
unfolding enter
enter-AreLinked env link room host_info peers n h =
    let m = record n {
      room = room;
      roster = add_all peers (insert host_info.id host_info n.roster);
    } in
    let m' =
      push_record
        (system_record m.wall
          (cat (text "Joined room " ∷ room ∷ text " over " ∷ transport_name m ∷ [])))
        m in
    dial_all-AreLinked peers
      (emit (joined room (transport_name m)) (attach_peer env host_info link m'))
      (attach_peer-AreLinked env host_info link m' h)

turned_away-AreLinked :
    (link : Link) (reason : Text) (n : Node) → AreLinked (turned_away link reason n)
unfolding turned_away
turned_away-AreLinked link reason n =
    shutdown_internal-AreLinked (emit (room_closed reason) (say (closes link) n))

abbrev unexpected_text : Text
unexpected_text = text "the host sent an unexpected reply - version mismatch?"

first_reply-AreLinked :
    (env : Env) (link : Link) (r : Result Error Frame) (n : Node)
    → AreLinked n
    → AreLinked (first_reply env link r n)
unfolding first_reply
first_reply-AreLinked env link (ok (Frame.control (Control.welcome r p ps))) n h =
    enter-AreLinked env link r p ps n h
first_reply-AreLinked env link (ok (Frame.control (Control.rejected r))) n h =
    turned_away-AreLinked link r n
first_reply-AreLinked env link (ok (Frame.control (Control.hello v r p))) n h =
    turned_away-AreLinked link unexpected_text n
first_reply-AreLinked env link (ok (Frame.control (Control.mesh_hello v r p))) n h =
    turned_away-AreLinked link unexpected_text n
first_reply-AreLinked env link (ok (Frame.control (Control.mesh_ack p))) n h =
    turned_away-AreLinked link unexpected_text n
first_reply-AreLinked env link (ok (Frame.control (Control.peer_joined p))) n h =
    turned_away-AreLinked link unexpected_text n
first_reply-AreLinked env link (ok (Frame.control (Control.peer_left i m))) n h =
    turned_away-AreLinked link unexpected_text n
first_reply-AreLinked env link (ok (Frame.control (Control.chat i f m t b))) n h =
    turned_away-AreLinked link unexpected_text n
first_reply-AreLinked env link (ok (Frame.control (Control.file_offer t m s d))) n h =
    turned_away-AreLinked link unexpected_text n
first_reply-AreLinked env link (ok (Frame.control (Control.file_accept t))) n h =
    turned_away-AreLinked link unexpected_text n
first_reply-AreLinked env link (ok (Frame.control (Control.file_decline t r))) n h =
    turned_away-AreLinked link unexpected_text n
first_reply-AreLinked env link (ok (Frame.control (Control.file_done t))) n h =
    turned_away-AreLinked link unexpected_text n
first_reply-AreLinked env link (ok (Frame.control (Control.file_abort t r))) n h =
    turned_away-AreLinked link unexpected_text n
first_reply-AreLinked env link (ok (Frame.control Control.bye)) n h =
    turned_away-AreLinked link unexpected_text n
first_reply-AreLinked env link (ok (Frame.chunk i s b)) n h =
    turned_away-AreLinked link unexpected_text n
first_reply-AreLinked env link (err e) n h =
    turned_away-AreLinked link (cat (text "bad reply from the host: " ∷ display e ∷ [])) n

pub await_welcome-Keeps :
    (env : Env) (link : Link) (reply : Result Error Bytes) → Keeps (await_welcome env link reply)
unfolding await_welcome
await_welcome-Keeps env link (err e) n h =
    shutdown_internal-AreLinked
      (emit (room_closed (cat (text "the connection to the host was lost: " ∷ display e ∷ []))) n)
await_welcome-Keeps env link (ok first) n h =
    first_reply-AreLinked env link (decode env.json first) n h
