-- ===== src/Mesh/Admission/Incoming.antt =====
-- core/src/mesh.rs: `handle_incoming` and `approve` keep the map of peers in order.
use mesh_chat.Prelude.{
  Text, Bytes, text, cat, Option, none, some, List, [], ◌∷◌, map, Bool, true, false, All,
}
use mesh_chat.Prelude.Assoc.{lookup, insert, remove}
use mesh_chat.Error.{Error, Result, ok, err}
use mesh_chat.Protocol.{
  PeerInfo, Control, Frame, rejected, welcome, peer_joined, decode, encode_control,
}
use mesh_chat.RateLimit.{allow}
use mesh_chat.Node.{
  Node, Env, Peer, Pending, Link, closes, say, emit, send, link_send, connected_peers,
}
use mesh_chat.Node.Events.{join_resolved, status}
use mesh_chat.Node.Quiet.{Quiet, Quiet-trans, send-Quiet, link_send-Quiet, Quiet-refl}
use mesh_chat.Mesh.{report_failure}
use mesh_chat.Mesh.Effects.{report_failure-Quiet}
use mesh_chat.Mesh.Linked.{AreLinked, AreLinked-Quiet, attach_peer-AreLinked}
use mesh_chat.Mesh.Admission.{
  reject, first_message, first_received, handshaken, handle_incoming, source_of, or_default,
}
use mesh_chat.Mesh.Admission.Answering.{announce, welcomed, accept, decline, decide, approve}
use mesh_chat.Mesh.Admission.Linked.{
  Keeps, reject-Quiet, on_hello-Keeps, on_mesh_hello-Keeps, if-AreLinked,
}

abbrev unexpected_reply : Env → Bytes
unexpected_reply env =
    or_default (encode_control env.json (rejected (text "unexpected first message")))

unexpected-AreLinked :
    (env : Env) (link : Link) (payload : Bytes) (n : Node)
    → AreLinked n
    → AreLinked (say (closes link) (link_send env link payload n).1)
unexpected-AreLinked env link payload n h =
    AreLinked-Quiet n (link_send env link payload n).1 (link_send-Quiet env link payload n) h

first_message-Keeps :
    (env : Env) (link : Link) (source : Text) (rounds : List (Node → Node))
    (first : Result Error Frame)
    → All (λ f. Keeps f) rounds
    → Keeps (first_message env link source rounds first)
unfolding first_message
first_message-Keeps env link source rounds (ok (Frame.control (Control.hello v r p))) k n h =
    on_hello-Keeps env link v r p source n h
first_message-Keeps env link source rounds (ok (Frame.control (Control.mesh_hello v r p))) k n h =
    on_mesh_hello-Keeps env link v r p rounds k n h
first_message-Keeps env link source rounds (ok (Frame.control (Control.welcome r p ps))) k n h =
    unexpected-AreLinked env link (unexpected_reply env) n h
first_message-Keeps env link source rounds (ok (Frame.control (Control.mesh_ack p))) k n h =
    unexpected-AreLinked env link (unexpected_reply env) n h
first_message-Keeps env link source rounds (ok (Frame.control (Control.rejected r))) k n h =
    unexpected-AreLinked env link (unexpected_reply env) n h
first_message-Keeps env link source rounds (ok (Frame.control (Control.peer_joined p))) k n h =
    unexpected-AreLinked env link (unexpected_reply env) n h
first_message-Keeps env link source rounds (ok (Frame.control (Control.peer_left i m))) k n h =
    unexpected-AreLinked env link (unexpected_reply env) n h
first_message-Keeps env link source rounds (ok (Frame.control (Control.chat i f m t b))) k n h =
    unexpected-AreLinked env link (unexpected_reply env) n h
first_message-Keeps env link source rounds (ok (Frame.control (Control.file_offer t m s d))) k n h =
    unexpected-AreLinked env link (unexpected_reply env) n h
first_message-Keeps env link source rounds (ok (Frame.control (Control.file_accept t))) k n h =
    unexpected-AreLinked env link (unexpected_reply env) n h
first_message-Keeps env link source rounds (ok (Frame.control (Control.file_decline t r))) k n h =
    unexpected-AreLinked env link (unexpected_reply env) n h
first_message-Keeps env link source rounds (ok (Frame.control (Control.file_done t))) k n h =
    unexpected-AreLinked env link (unexpected_reply env) n h
first_message-Keeps env link source rounds (ok (Frame.control (Control.file_abort t r))) k n h =
    unexpected-AreLinked env link (unexpected_reply env) n h
first_message-Keeps env link source rounds (ok (Frame.control Control.bye)) k n h =
    unexpected-AreLinked env link (unexpected_reply env) n h
first_message-Keeps env link source rounds (ok (Frame.chunk i s b)) k n h =
    unexpected-AreLinked env link (unexpected_reply env) n h
first_message-Keeps env link source rounds (err e) k n h =
    unexpected-AreLinked env link (unexpected_reply env) n h

handshaken-Keeps :
    (env : Env) (link : Link) (source : Text) (rounds : List (Node → Node))
    (handshake : Result Error (Unit {0})) (first : Result Error Bytes)
    → All (λ f. Keeps f) rounds
    → Keeps (handshaken env link source rounds handshake first)
unfolding handshaken first_received
handshaken-Keeps env link source rounds (err e) first k n h = h
handshaken-Keeps env link source rounds (ok u) (err e) k n h = h
handshaken-Keeps env link source rounds (ok u) (ok buf) k n h =
    first_message-Keeps env link source rounds (decode env.json buf) k n h

pub handle_incoming-Keeps :
    (env : Env) (link : Link) (label : Text) (rounds : List (Node → Node))
    (handshake : Result Error (Unit {0})) (first : Result Error Bytes)
    → All (λ f. Keeps f) rounds
    → Keeps (handle_incoming env link label rounds handshake first)
unfolding handle_incoming
handle_incoming-Keeps env link label rounds handshake first k n h =
    let verdict = allow n.clock (source_of label) n.limiter in
    let m = record n { limiter = verdict.1 } in
    let ignored = say (closes link) (
      emit
        (status (
          cat (
            text "ignored a connection attempt from "
            ∷ source_of label
            ∷ text " (too many attempts)"
            ∷ [])))
        m) in
    if-AreLinked verdict.0 (handshaken env link (source_of label) rounds handshake first m) ignored
      (handshaken-Keeps env link (source_of label) rounds handshake first k m h) h

pub announce-Quiet :
    (env : Env) (info : PeerInfo) (peers : List Peer) (n : Node)
    → Quiet n (announce env info peers n)
unfolding announce
announce-Quiet env info [] n = Quiet-refl n
announce-Quiet env info (p ∷ peers) n =
    let before = cat (text "could not tell " ∷ p.info.name ∷ text " about the new peer: " ∷ []) in
    let m = report_failure before (send env p.link (peer_joined info) n) in
    Quiet-trans n m (announce env info peers m)
      (report_failure-Quiet before n (send env p.link (peer_joined info) n)
        (send-Quiet env p.link (peer_joined info) n))
      (announce-Quiet env info peers m)

welcomed-AreLinked :
    (env : Env) (req : Text) (p : Pending) (r : Result Error (Unit {0}) × Node)
    → AreLinked r.1
    → AreLinked (welcomed env req p r).1
unfolding welcomed
welcomed-AreLinked env req p (err e, n) h = h
welcomed-AreLinked env req p (ok u, n) h =
    attach_peer-AreLinked env p.info p.link (emit (join_resolved req true) n) h

decide-AreLinked :
    (env : Env) (req : Text) (accepted : Bool) (request : Option Pending) (n : Node)
    → AreLinked n
    → AreLinked (decide env req accepted request n).1
unfolding decide accept decline
decide-AreLinked env req accepted none n h = h
decide-AreLinked env req false (some p) n h =
    AreLinked-Quiet n (reject env p.link (text "the host declined your request to join") n)
      (reject-Quiet env p.link (text "the host declined your request to join") n) h
decide-AreLinked env req true (some p) n h =
    let m = announce env p.info (connected_peers n) n in
    let m' = record m { roster = insert p.info.id p.info m.roster } in
    let c = welcome m'.room m'.me (map (λ (q : Peer). q.info) (connected_peers n)) in
    welcomed-AreLinked env req p (send env p.link c m') (
      AreLinked-Quiet m' (send env p.link c m').1 (send-Quiet env p.link c m')
        (AreLinked-Quiet n m (announce-Quiet env p.info (connected_peers n) n) h))

pub approve-Keeps :
    (env : Env) (req : Text) (accepted : Bool) → Keeps (λ n. (approve env req accepted n).1)
unfolding approve
approve-Keeps env req accepted n h =
    decide-AreLinked env req accepted (lookup req n.pending)
      (record n { pending = remove req n.pending }) h
