-- ===== src/Mesh/Admission/Linked.antt =====
-- core/src/mesh.rs: inbound connections and approval keep the map of peers in order.
use mesh_chat.Prelude.{
  ℕ, Text, Bytes, text, Option, none, some, List, [], ◌∷◌, leb, Bool, true, false, key_eq, not,
  ◌==◌, ◌+◌, All, if◌then◌else◌,
}
use mesh_chat.Prelude.Assoc.{contains_key}
use mesh_chat.Error.{Error, Result, ok, err, protocol_version}
use mesh_chat.Names.{normalize_code, sanitize_name}
use mesh_chat.Protocol.{PeerInfo, mesh_ack, rejected, encode_control}
use mesh_chat.Node.{Node, Env, Link, closes, say, send, link_send}
use mesh_chat.Node.Quiet.{Quiet, Quiet-trans, say-Quiet, send-Quiet, link_send-Quiet}
use mesh_chat.Mesh.Linked.{AreLinked, AreLinked-Quiet, attach_peer-AreLinked}
use mesh_chat.Mesh.Admission.{
  reject, park, reject_or_park, hello_problem, on_hello, ack_sent, ack_encoded, link_approved, look,
  await_roster, on_mesh_hello, roster_grace,
}

pub reject-Quiet :
    (env : Env) (link : Link) (reason : Text) (n : Node) → Quiet n (reject env link reason n)
unfolding reject
reject-Quiet env link reason n =
    let m = (send env link (rejected reason) n).1 in
    Quiet-trans n m (say (closes link) m) (send-Quiet env link (rejected reason) n)
      (say-Quiet (closes link) m)

-- What a handler that waits lets the other threads do.
abbrev pub Keeps : (Node → Node) → Type 0
Keeps f = (n : Node) → AreLinked n → AreLinked (f n)

reject-Keeps : (env : Env) (link : Link) (reason : Text) → Keeps (reject env link reason)
reject-Keeps env link reason n h =
    AreLinked-Quiet n (reject env link reason n) (reject-Quiet env link reason n) h

reject_or_park-Keeps :
    (env : Env) (link : Link) (peer : PeerInfo) (source : Text) (problem : Option Text)
    → Keeps (reject_or_park env link peer source problem)
unfolding reject_or_park park
reject_or_park-Keeps env link peer source (some reason) n h = reject-Keeps env link reason n h
reject_or_park-Keeps env link peer source none n h = h

pub on_hello-Keeps :
    (env : Env) (link : Link) (version : ℕ) (room : Text) (peer : PeerInfo) (source : Text)
    → Keeps (on_hello env link version room peer source)
unfolding on_hello
on_hello-Keeps env link version room peer source n h =
    reject_or_park-Keeps env link peer source (hello_problem version room peer n) n h

ack_sent-AreLinked :
    (env : Env) (peer : PeerInfo) (link : Link) (r : Result Error (Unit {0}) × Node)
    → AreLinked r.1
    → AreLinked (ack_sent env peer link r)
unfolding ack_sent
ack_sent-AreLinked env peer link (ok u, n) h = attach_peer-AreLinked env peer link n h
ack_sent-AreLinked env peer link (err e, n) h = h

ack_encoded-Keeps :
    (env : Env) (peer : PeerInfo) (link : Link) (r : Result Error Bytes)
    → Keeps (ack_encoded env peer link r)
unfolding ack_encoded
ack_encoded-Keeps env peer link (ok bytes) n h =
    ack_sent-AreLinked env peer link (link_send env link bytes n)
      (AreLinked-Quiet n (link_send env link bytes n).1 (link_send-Quiet env link bytes n) h)
ack_encoded-Keeps env peer link (err e) n h = attach_peer-AreLinked env peer link n h

pub if-AreLinked :
    (b : Bool) (n m : Node) → AreLinked n → AreLinked m → AreLinked (if b then n else m)
if-AreLinked true n m h k = h
if-AreLinked false n m h k = k

link_approved-Keeps :
    (env : Env) (link : Link) (peer : PeerInfo) → Keeps (link_approved env link peer)
unfolding link_approved
link_approved-Keeps env link peer n h =
    if-AreLinked (contains_key peer.id n.peers)
      (reject env link (text "already linked to that peer") n)
      (ack_encoded env peer link (encode_control env.json (mesh_ack n.me)) n)
      (reject-Keeps env link (text "already linked to that peer") n h)
      (ack_encoded-Keeps env peer link (encode_control env.json (mesh_ack n.me)) n h)

look-Keeps :
    (env : Env) (link : Link) (peer : PeerInfo) (deadline : ℕ) (later : Node → Node)
    → Keeps later
    → Keeps (look env link peer deadline later)
unfolding look
look-Keeps env link peer deadline later k n h =
    let refuse =
      reject env link
        (text "you are not on this room's approved list (ask the host to approve you first)") n in
    if-AreLinked (contains_key peer.id n.roster) (link_approved env link peer n)
      (if leb deadline n.clock then refuse else later n) (link_approved-Keeps env link peer n h)
      (if-AreLinked (leb deadline n.clock) refuse (later n)
        (reject-Keeps env link
          (text "you are not on this room's approved list (ask the host to approve you first)") n h)
        (k n h))

await_roster-Keeps :
    (env : Env) (link : Link) (peer : PeerInfo) (deadline : ℕ) (rounds : List (Node → Node))
    → All (λ f. Keeps f) rounds
    → Keeps (await_roster env link peer deadline rounds)
unfolding await_roster
await_roster-Keeps env link peer deadline [] k n h =
    look-Keeps env link peer deadline (λ m. m) (λ m i. i) n h
await_roster-Keeps env link peer deadline (f ∷ rounds) k n h =
    look-Keeps env link peer deadline (λ m. await_roster env link peer deadline rounds (f m))
      (λ m i. await_roster-Keeps env link peer deadline rounds k.1 (f m) (k.0 m i)) n h

pub on_mesh_hello-Keeps :
    (env : Env) (link : Link) (version : ℕ) (room : Text) (peer : PeerInfo)
    (rounds : List (Node → Node))
    → All (λ f. Keeps f) rounds
    → Keeps (on_mesh_hello env link version room peer rounds)
unfolding on_mesh_hello
on_mesh_hello-Keeps env link version room peer rounds k n h =
    let named = record peer { name = sanitize_name peer.name } in
    let refuse = reject env link (text "that room code does not match this room") n in
    let wait = await_roster env link named (n.clock + roster_grace) rounds n in
    if-AreLinked (not (version == protocol_version))
      (reject env link (text "protocol version mismatch") n)
      (if not (key_eq (normalize_code room) (normalize_code n.room)) then refuse else wait)
      (reject-Keeps env link (text "protocol version mismatch") n h)
      (if-AreLinked (not (key_eq (normalize_code room) (normalize_code n.room))) refuse wait
        (reject-Keeps env link (text "that room code does not match this room") n h)
        (await_roster-Keeps env link named (n.clock + roster_grace) rounds k n h))
