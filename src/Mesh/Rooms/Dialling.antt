-- ===== src/Mesh/Rooms/Dialling.antt =====
-- core/src/mesh.rs: dialling the members of a room keeps the map of peers in order.
use mesh_chat.Prelude.{Text, Bytes, text, List, [], ◌∷◌, is_some, All}
use mesh_chat.Error.{Error, Result, ok, err, display, protocol_version}
use mesh_chat.Protocol.{PeerInfo, Control, Frame, mesh_hello, decode}
use mesh_chat.Node.{Node, Env, Link, emit, send}
use mesh_chat.Node.Events.{connecting}
use mesh_chat.Node.Quiet.{send-Quiet}
use mesh_chat.Mesh.Linked.{AreLinked, AreLinked-Quiet, attach_peer-AreLinked}
use mesh_chat.Mesh.Admission.Linked.{Keeps, if-AreLinked}
use mesh_chat.Mesh.Rooms.Attempts.{
  Attempt, mesh_reply, mesh_decoded, mesh_sent, dialled, try_dial, peer_event, tried, dial_attempts,
  dial_peer,
}

mesh_reply-AreLinked :
    (env : Env) (link : Link) (f : Frame) (n : Node)
    → AreLinked n
    → AreLinked (mesh_reply env link f n).1
unfolding mesh_reply
mesh_reply-AreLinked env link (Frame.control (Control.mesh_ack p)) n h =
    attach_peer-AreLinked env p link n h
mesh_reply-AreLinked env link (Frame.control (Control.hello v r p)) n h = h
mesh_reply-AreLinked env link (Frame.control (Control.mesh_hello v r p)) n h = h
mesh_reply-AreLinked env link (Frame.control (Control.welcome r p ps)) n h = h
mesh_reply-AreLinked env link (Frame.control (Control.rejected r)) n h = h
mesh_reply-AreLinked env link (Frame.control (Control.peer_joined p)) n h = h
mesh_reply-AreLinked env link (Frame.control (Control.peer_left i m)) n h = h
mesh_reply-AreLinked env link (Frame.control (Control.chat i f m t b)) n h = h
mesh_reply-AreLinked env link (Frame.control (Control.file_offer t m s d)) n h = h
mesh_reply-AreLinked env link (Frame.control (Control.file_accept t)) n h = h
mesh_reply-AreLinked env link (Frame.control (Control.file_decline t r)) n h = h
mesh_reply-AreLinked env link (Frame.control (Control.file_done t)) n h = h
mesh_reply-AreLinked env link (Frame.control (Control.file_abort t r)) n h = h
mesh_reply-AreLinked env link (Frame.control Control.bye) n h = h
mesh_reply-AreLinked env link (Frame.chunk i s b) n h = h

mesh_decoded-AreLinked :
    (env : Env) (link : Link) (r : Result Error Frame) (n : Node)
    → AreLinked n
    → AreLinked (mesh_decoded env link r n).1
unfolding mesh_decoded
mesh_decoded-AreLinked env link (err e) n h = h
mesh_decoded-AreLinked env link (ok f) n h = mesh_reply-AreLinked env link f n h

mesh_sent-AreLinked :
    (env : Env) (link : Link) (meanwhile : Node → Node) (reply : Result Error Bytes)
    (r : Result Error (Unit {0}) × Node)
    → Keeps meanwhile
    → AreLinked r.1
    → AreLinked (mesh_sent env link meanwhile reply r).1
unfolding mesh_sent
mesh_sent-AreLinked env link meanwhile reply (err e, n) k h = h
mesh_sent-AreLinked env link meanwhile (err e) (ok u, n) k h = k n h
mesh_sent-AreLinked env link meanwhile (ok buf) (ok u, n) k h =
    mesh_decoded-AreLinked env link (decode env.json buf) (meanwhile n) (k n h)

-- The other threads' part of an attempt.
abbrev pub AttemptKeeps : Attempt → Type 0
AttemptKeeps t = Keeps t.before × Keeps t.meanwhile

dialled-AreLinked :
    (env : Env) (t : Attempt) (link : Result Error Link) (n : Node)
    → AttemptKeeps t
    → AreLinked n
    → AreLinked (dialled env t link n).1
unfolding dialled
dialled-AreLinked env t (err e) n k h = h
dialled-AreLinked env t (ok link) n k h =
    let c = mesh_hello protocol_version n.room n.me in
    mesh_sent-AreLinked env link t.meanwhile t.reply (send env link c n) k.1
      (AreLinked-Quiet n (send env link c n).1 (send-Quiet env link c n) h)

tried-AreLinked :
    (info : PeerInfo) (next : Text → Node → Node) (r : Result Error (Unit {0}) × Node)
    → ((last : Text) → Keeps (next last))
    → AreLinked r.1
    → AreLinked (tried info next r)
unfolding tried
tried-AreLinked info next (ok u, n) k h = h
tried-AreLinked info next (err e, n) k h = k (display e) n h

dial_attempts-Keeps :
    (env : Env) (info : PeerInfo) (ts : List Attempt) (last : Text)
    → All (λ t. AttemptKeeps t) ts
    → Keeps (dial_attempts env info ts last)
unfolding dial_attempts try_dial
dial_attempts-Keeps env info [] last k n h = h
dial_attempts-Keeps env info (t ∷ ts) last k n h =
    let m = t.before n in
    if-AreLinked m.running (tried info (dial_attempts env info ts) (dialled env t t.link m)) m
      (tried-AreLinked info (dial_attempts env info ts) (dialled env t t.link m)
        (λ l. dial_attempts-Keeps env info ts l k.1)
        (dialled-AreLinked env t t.link m k.0 (k.0.0 n h)))
      (k.0.0 n h)

pub dial_peer-Keeps :
    (env : Env) (info : PeerInfo) (first second third : Attempt)
    → All (λ t. AttemptKeeps t) (first ∷ second ∷ third ∷ [])
    → Keeps (dial_peer env info first second third)
unfolding dial_peer
dial_peer-Keeps env info first second third k n h =
    let m = emit (peer_event info connecting info.addr) n in
    if-AreLinked (is_some n.kind)
      (dial_attempts env info (first ∷ second ∷ third ∷ []) (text "unknown error") m) n
      (dial_attempts-Keeps env info (first ∷ second ∷ third ∷ []) (text "unknown error") k m h) h
