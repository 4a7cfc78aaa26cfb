-- ===== src/Mesh/Linked.antt =====
-- core/src/mesh.rs: the map of peers. It has one entry for each peer, under the peer's own id, and
-- none while the node is in no room, so that `leave` finds every link there is and `attach_peer`
-- adds none after it.
use mesh_chat.Prelude.{
  ℕ, ◌≡◌, Text, Bytes, text, Option, none, some, List, [], ◌∷◌, Bool, true, false, Bool-cases,
  key_eq, refl, sym, subst, ap, ◌∙◌, not, if◌then◌else◌, inl, inr, All,
}
use mesh_chat.Prelude.Assoc.{
  Assoc, lookup, remove, contains_key, retain, Unique, remove-Unique, insert-Unique, All-remove,
  All-insert,
}
use mesh_chat.Protocol.{PeerInfo, peer_left, hex}
use mesh_chat.Node.{Node, Env, Peer, Link, closes, marks, say, emit, is_host_role, connected_peers}
use mesh_chat.Node.Events.{disconnected, file_finished}
use mesh_chat.Node.TransferState.{ActiveIn}
use mesh_chat.Node.Quiet.{Quiet}
use mesh_chat.Files.{
  set_active, set_offers, from_peer, finish_cancelled, cancel_waiting, cancel_outgoing, drop_out,
  cancel_transfers_with,
}
use mesh_chat.Mesh.{taken_out, attach_peer, linked, gone, peer_gone, send_each}
use mesh_chat.Mesh.Effects.{send_each-Quiet}

abbrev pub IsKeyed : Assoc Peer → Type 0
IsKeyed peers = All (λ h. h.0 ≡ h.1.info.id) peers

abbrev pub AreLinked : Node → Type 0
AreLinked n = Unique n.peers × IsKeyed n.peers × (n.running ≡ false → n.peers ≡ [])

pub AreLinked-Quiet : (n m : Node) → Quiet n m → AreLinked n → AreLinked m
AreLinked-Quiet n m (es, e) h = subst (λ (k : Node). AreLinked k) (sym e) h

pub attach_peer-AreLinked :
    (env : Env) (info : PeerInfo) (link : Link) (n : Node)
    → AreLinked n
    → AreLinked (attach_peer env info link n)
unfolding attach_peer
attach_peer-AreLinked env info link n (u, k, stopped) = elim (Bool-cases n.running) [
  | inl up ↦ rw up (
    insert-Unique info.id (linked info link) n.peers u,
    All-insert (λ h. h.0 ≡ h.1.info.id) info.id (linked info link) n.peers refl k,
    λ down. cc down,
  )
  | inr down ↦ rw down (u, k, λ e. stopped down)
]

-- A change that leaves the peers, the flag and the roster alone.
abbrev pub SameLinks : Node → Node → Type 0
SameLinks n m = (m.peers ≡ n.peers) × (m.running ≡ n.running) × (m.roster ≡ n.roster)

pub AreLinked-SameLinks : (n m : Node) → SameLinks n m → AreLinked n → AreLinked m
AreLinked-SameLinks n m (p, r, s) h = rw (p, r) h

pub SameLinks-Quiet : (n m : Node) → Quiet n m → SameLinks n m
SameLinks-Quiet n m (es, e) =
    (ap (λ (k : Node). k.peers) e, ap (λ (k : Node). k.running) e, ap (λ (k : Node). k.roster) e)

pub SameLinks-trans : (n m k : Node) → SameLinks n m → SameLinks m k → SameLinks n k
SameLinks-trans n m k (p, r, s) (p', r', s') = (p' ∙ p, r' ∙ r, s' ∙ s)

finish_cancelled-SameLinks :
    (m : List (Bytes × ActiveIn)) (n : Node) → SameLinks n (finish_cancelled m n)
unfolding finish_cancelled
finish_cancelled-SameLinks [] n = (refl, refl, refl)
finish_cancelled-SameLinks ((id, a) ∷ m) n =
    finish_cancelled-SameLinks m
      (emit (file_finished (hex id) a.name true false (text "the sender disconnected")) n)

cancel_waiting-SameLinks :
    (id : Bytes) (waiter : Option (Unit {0})) (n : Node) → SameLinks n (cancel_waiting id waiter n)
unfolding cancel_waiting
cancel_waiting-SameLinks id none n = (refl, refl, refl)
cancel_waiting-SameLinks id (some u) n = (refl, refl, refl)

cancel_outgoing-SameLinks : (m : List (Bytes × Text)) (n : Node) → SameLinks n (cancel_outgoing m n)
unfolding cancel_outgoing
cancel_outgoing-SameLinks [] n = (refl, refl, refl)
cancel_outgoing-SameLinks ((id, peer_id) ∷ m) n =
    let n' = cancel_waiting id (lookup id n.transfers.waiters) n in
    let k = drop_out id n' in
    SameLinks-trans n k (cancel_outgoing m k)
      (cancel_waiting-SameLinks id (lookup id n.transfers.waiters) n)
      (cancel_outgoing-SameLinks m k)

pub cancel_transfers_with-SameLinks :
    (peer_id : Text) (n : Node) → SameLinks n (cancel_transfers_with peer_id n)
unfolding cancel_transfers_with
cancel_transfers_with-SameLinks peer_id n =
    let m = set_active (retain (λ a. not (from_peer peer_id a)) n.transfers.active) n in
    let m' = set_offers (retain (λ o. not (key_eq o.peer_id peer_id)) m.transfers.offers) m in
    let k = cancel_outgoing (retain (λ p. key_eq p peer_id) m'.transfers.out_peer) m' in
    SameLinks-trans n k (finish_cancelled (retain (from_peer peer_id) n.transfers.active) k)
      (cancel_outgoing-SameLinks (retain (λ p. key_eq p peer_id) m'.transfers.out_peer) m')
      (finish_cancelled-SameLinks (retain (from_peer peer_id) n.transfers.active) k)

told_left :
    (env : Env) (p : Peer) (host : Bool) (m : Node)
    → SameLinks m
        (if host then send_each env (peer_left p.info.id p.info.name) (connected_peers m) m else m)
told_left env p true m =
    SameLinks-Quiet m (send_each env (peer_left p.info.id p.info.name) (connected_peers m) m)
      (send_each-Quiet env (peer_left p.info.id p.info.name) (connected_peers m) m)
told_left env p false m = (refl, refl, refl)

pub gone-SameLinks :
    (env : Env) (p : Peer) (reason : Text) (n : Node) → SameLinks n (gone env p reason n)
unfolding gone
gone-SameLinks env p reason n =
    let shut = say (closes p.link) (say (marks p.link disconnected) n) in
    let m = cancel_transfers_with p.info.id shut in
    SameLinks-trans n m
      (if is_host_role n.role
        then send_each env (peer_left p.info.id p.info.name) (connected_peers m) m
        else m)
      (cancel_transfers_with-SameLinks p.info.id shut) (told_left env p (is_host_role n.role) m)

remove-nil : (k : List ℕ) (m : Assoc Peer) → m ≡ [] → remove k m ≡ []
unfolding remove
remove-nil k m e = rw e refl

pub peer_gone-AreLinked :
    (env : Env) (p : Peer) (reason : Text) (n : Node)
    → AreLinked n
    → AreLinked (peer_gone env p reason n)
unfolding peer_gone
peer_gone-AreLinked env p reason n (u, k, stopped) =
    elim (Bool-cases (contains_key p.info.id n.peers)) [
      | inl found ↦ rw found (
          AreLinked-SameLinks (taken_out p n) (gone env p reason (taken_out p n))
            (gone-SameLinks env p reason (taken_out p n))
            (
              remove-Unique p.info.id n.peers u,
              All-remove (λ h. h.0 ≡ h.1.info.id) p.info.id n.peers k,
              λ down. remove-nil p.info.id n.peers (stopped down),
            ))
      | inr missing ↦ rw missing (u, k, stopped)
    ]
