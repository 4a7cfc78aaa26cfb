-- ===== src/Mesh/Rooms/Attempts.antt =====
-- core/src/mesh.rs: dialling the members of a room.
use mesh_chat.Prelude.{Text, Bytes, text, List, [], ◌∷◌, if◌then◌else◌, is_some}
use mesh_chat.Error.{Error, protocol, closed, display, Result, ok, err, protocol_version}
use mesh_chat.Protocol.{PeerInfo, Frame, mesh_hello, mesh_ack, rejected, decode}
use mesh_chat.Node.{Node, Env, Link, closes, say, emit, send}
use mesh_chat.Node.Events.{Event, PeerState, connecting, failed}
use mesh_chat.Mesh.{attach_peer}

unfoldable pub mesh_reply : Env → Link → Frame → Node → Result Error (Unit {0}) × Node
mesh_reply env link (Frame.control (mesh_ack peer)) n = (ok tt, attach_peer env peer link n)
mesh_reply env link (Frame.control (rejected reason)) n = (err (closed reason), say (closes link) n)
mesh_reply env link _ n =
    (err (protocol (text "unexpected reply to mesh hello")), say (closes link) n)

unfoldable pub mesh_decoded :
    Env → Link → Result Error Frame → Node → Result Error (Unit {0}) × Node
unfolding mesh_reply
mesh_decoded env link (err e) n = (err e, n)
mesh_decoded env link (ok frame) n = mesh_reply env link frame n

unfoldable pub mesh_sent :
    Env
    → Link
    → (Node → Node)
    → Result Error Bytes
    → Result Error (Unit {0}) × Node
    → Result Error (Unit {0}) × Node
unfolding mesh_decoded
mesh_sent env link meanwhile reply (err e, n) = (err e, n)
mesh_sent env link meanwhile (err e) (ok u, n) = (err e, meanwhile n)
mesh_sent env link meanwhile (ok buf) (ok u, n) =
    mesh_decoded env link (decode env.json buf) (meanwhile n)

-- One attempt: the link that was made, what other threads do until the reply, and the reply.
pub record Attempt : Type 0 where
  pub before : Node → Node
  pub link : Result Error Link
  pub meanwhile : Node → Node
  pub reply : Result Error Bytes

unfoldable pub dialled : Env → Attempt → Result Error Link → Node → Result Error (Unit {0}) × Node
unfolding mesh_sent
dialled env t (err e) n = (err e, n)
dialled env t (ok link) n =
    mesh_sent env link t.meanwhile t.reply
      (send env link (mesh_hello protocol_version n.room n.me) n)

unfoldable pub try_dial : Env → Attempt → Node → Result Error (Unit {0}) × Node
unfolding dialled
try_dial env t n = dialled env t t.link n

unfoldable pub peer_event : PeerInfo → PeerState → Text → Event
peer_event info state detail = Event.peer info.id info.name state detail

unfoldable pub tried : PeerInfo → (Text → Node → Node) → Result Error (Unit {0}) × Node → Node
tried info next (ok u, n) = n
tried info next (err e, n) = next (display e) n

-- The attempts that are left (three at first), with the last error.
unfoldable pub dial_attempts : Env → PeerInfo → List Attempt → Text → Node → Node
unfolding tried peer_event
dial_attempts env info [] last n = emit (peer_event info failed last) n
dial_attempts env info (t ∷ ts) last n =
    let next = dial_attempts env info ts in
    let m = t.before n in if m.running then tried info next (try_dial env t m) else m

unfoldable pub dial_peer : Env → PeerInfo → Attempt → Attempt → Attempt → Node → Node
unfolding peer_event
dial_peer env info first second third n =
    if is_some n.kind
    then dial_attempts env info (first ∷ second ∷ third ∷ []) (text "unknown error")
        (emit (peer_event info connecting info.addr) n)
    else n
