-- ===== src/Mesh/Admission.antt =====
-- core/src/mesh.rs: inbound connections and the host's approval. What a stream or a link answers
-- (its label, its handshake, its first message) comes with the call.
pub mod Answering
pub mod Linked
pub mod Incoming
pub mod Hello
pub mod Approval
use mesh_chat.Prelude.{
  ℕ, suc, ◌+◌, Text, Bytes, text, cat, Option, none, some, List, [], ◌∷◌, ◌++◌, map, ltb, leb, ◌==◌,
  ◌||◌, not, Bool, true, false, if◌then◌else◌, key_eq, is_some,
}
use mesh_chat.Prelude.Assoc.{Assoc, lookup, insert, remove, contains_key}
use mesh_chat.Error.{Error, protocol, display, Result, ok, err, protocol_version}
use mesh_chat.Text.{is_empty, rsplit_once}
use mesh_chat.Text.Decimal.{decimal}
use mesh_chat.Protocol.{
  PeerInfo, Control, Frame, hello, mesh_hello, mesh_ack, rejected, welcome, peer_joined, decode,
  encode_control,
}
use mesh_chat.History.{system_record}
use mesh_chat.RateLimit.{allow, RateLimiter}
use mesh_chat.Names.{sanitize_name, normalize_code}
use mesh_chat.Node.{
  Node, Env, Peer, Pending, Link, Role, Effect, closes, say, emit, push_record, is_host_role,
  connected_peers, send, link_send,
}
use mesh_chat.Node.Events.{Event, status, join_request, join_resolved}
use mesh_chat.Mesh.{attach_peer, report_failure}

unfoldable pub reject : Env → Link → Text → Node → Node
reject env link reason n = say (closes link) (send env link (rejected reason) n).1

-- `st.open_until.map(|t| Instant::now() > t).unwrap_or(false)`
abbrev pub expired : ℕ → Option ℕ → Bool
expired clock none = false
expired clock (some t) = ltb t clock

abbrev pub known : Text → Node → Bool
known id n = contains_key id n.roster || key_eq n.me.id id

pub addr_or : Text → Text → Text
addr_or [] source = source
addr_or (c ∷ addr) source = c ∷ addr

-- The request is kept until the operator decides.
pub park : Env → Link → PeerInfo → Text → Node → Node
unfolding addr_or
park env link peer source n =
    let name = sanitize_name peer.name in
    emit (join_request (decimal n.req_seq) name (addr_or peer.addr source) (env.fingerprint link))
      (record n {
        req_seq = n.req_seq + 1;
        pending =
            insert (decimal n.req_seq) (record { info = record peer { name = name }; link = link })
              n.pending;
      })

-- Why a hello is refused.
unfoldable pub hello_problem : ℕ → Text → PeerInfo → Node → Option Text
hello_problem version room peer n =
    if not (version == protocol_version)
    then some (
        cat (
          text "the host runs protocol v"
          ∷ decimal protocol_version
          ∷ text ", you run v"
          ∷ decimal version
          ∷ []))
    else if not (is_host_role n.role)
    then some (text "this peer is not the host of that room")
    else if not (key_eq (normalize_code room) (normalize_code n.room))
    then some (text "that room code does not match this room")
    else if expired n.clock n.open_until
    then some (text "this room code has expired - ask the host to reopen joining")
    else if known peer.id n
    then some (text "a peer with that id is already in the room")
    else none

pub reject_or_park : Env → Link → PeerInfo → Text → Option Text → Node → Node
unfolding park
reject_or_park env link peer source (some reason) n = reject env link reason n
reject_or_park env link peer source none n = park env link peer source n

unfoldable pub on_hello : Env → Link → ℕ → Text → PeerInfo → Text → Node → Node
unfolding reject_or_park
on_hello env link version room peer source n =
    reject_or_park env link peer source (hello_problem version room peer n) n

abbrev pub roster_grace : ℕ
roster_grace = 8000

-- The acknowledgement, and the link if it went out or was not encoded at all.
pub ack_sent : Env → PeerInfo → Link → Result Error (Unit {0}) × Node → Node
ack_sent env peer link (ok u, n) = attach_peer env peer link n
ack_sent env peer link (err e, n) = say (closes link) n

pub ack_encoded : Env → PeerInfo → Link → Result Error Bytes → Node → Node
unfolding ack_sent
ack_encoded env peer link (ok bytes) n = ack_sent env peer link (link_send env link bytes n)
ack_encoded env peer link (err e) n = attach_peer env peer link n

-- The peer is on the roster.
pub link_approved : Env → Link → PeerInfo → Node → Node
unfolding ack_encoded
link_approved env link peer n =
    if contains_key peer.id n.peers
    then reject env link (text "already linked to that peer") n
    else ack_encoded env peer link (encode_control env.json (mesh_ack n.me)) n

-- One look at the roster, and `later` if the wait goes on.
pub look : Env → Link → PeerInfo → ℕ → (Node → Node) → Node → Node
unfolding link_approved
look env link peer deadline later n =
    if contains_key peer.id n.roster
    then link_approved env link peer n
    else if leb deadline n.clock
    then reject env link
        (text "you are not on this room's approved list (ask the host to approve you first)") n
    else later n

-- The loop: what other threads do between two looks at the roster comes with each round. When the
-- list ends the call is still held.
unfoldable pub await_roster : Env → Link → PeerInfo → ℕ → List (Node → Node) → Node → Node
unfolding look
await_roster env link peer deadline [] n = look env link peer deadline (λ m. m) n
await_roster env link peer deadline (meanwhile ∷ rounds) n =
    let rest = await_roster env link peer deadline rounds in
    look env link peer deadline (λ m. rest (meanwhile m)) n

unfoldable pub on_mesh_hello : Env → Link → ℕ → Text → PeerInfo → List (Node → Node) → Node → Node
on_mesh_hello env link version room peer rounds n =
    if not (version == protocol_version)
    then reject env link (text "protocol version mismatch") n
    else if not (key_eq (normalize_code room) (normalize_code n.room))
    then reject env link (text "that room code does not match this room") n
    else await_roster env link (record peer { name = sanitize_name peer.name })
        (n.clock + roster_grace) rounds n

-- `unwrap_or_default()`
abbrev pub or_default : Result Error Bytes → Bytes
or_default (ok bytes) = bytes
or_default (err e) = []

-- The first message on a link that was accepted.
pub first_message : Env → Link → Text → List (Node → Node) → Result Error Frame → Node → Node
first_message env link source rounds (ok (Frame.control (hello version room peer))) n =
    on_hello env link version room peer source n
first_message env link source rounds (ok (Frame.control (mesh_hello version room peer))) n =
    on_mesh_hello env link version room peer rounds n
first_message env link source rounds _ n =
    say (closes link)
      (link_send env link
        (or_default (encode_control env.json (rejected (text "unexpected first message")))) n).1

pub first_received : Env → Link → Text → List (Node → Node) → Result Error Bytes → Node → Node
unfolding first_message
first_received env link source rounds (err e) n = say (closes link) n
first_received env link source rounds (ok buf) n =
    first_message env link source rounds (decode env.json buf) n

-- The link, which has the number of its stream, after the handshake.
pub handshaken :
    Env
    → Link
    → Text
    → List (Node → Node)
    → Result Error (Unit {0})
    → Result Error Bytes
    → Node
    → Node
unfolding first_received
handshaken env link source rounds (err e) first n = say (closes link) (
    emit
      (status
        (cat (text "a connection from " ∷ source ∷ text " failed to handshake: " ∷ display e ∷ [])))
      n)
handshaken env link source rounds (ok u) first n = first_received env link source rounds first n

pub host_part : Text → Option (Text × Text) → Text
host_part label none = label
host_part label (some (h, port)) = h

-- Where a connection comes from: its label without a port.
unfoldable pub source_of : Text → Text
unfolding host_part
source_of label = host_part label (rsplit_once b':' label)

unfoldable pub handle_incoming :
    Env
    → Link
    → Text
    → List (Node → Node)
    → Result Error (Unit {0})
    → Result Error Bytes
    → Node
    → Node
unfolding handshaken
handle_incoming env link label rounds handshake first n =
    let verdict = allow n.clock (source_of label) n.limiter in
    let m = record n { limiter = verdict.1 } in
    if verdict.0
    then handshaken env link (source_of label) rounds handshake first m
    else say (closes link) (
        emit
          (status (
            cat (
              text "ignored a connection attempt from "
              ∷ source_of label
              ∷ text " (too many attempts)"
              ∷ [])))
          m)

unfoldable pub pending_requests : Node → List (Text × Text)
pending_requests n = map (λ h. (h.0, h.1.info.name)) n.pending
