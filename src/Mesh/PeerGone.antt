-- ===== src/Mesh/PeerGone.antt =====
-- core/src/mesh.rs: a peer that goes away (`peer_gone`).
use mesh_chat.Prelude.{
  ◌≡◌, Text, Option, none, some, true, false, Bool-cases, ◌⊎◌, inl, inr, refl, sym, ◌∙◌, ap,
  if_true, if_false, if◌then◌else◌, key_eq, key_eq→eq, key_eq_refl, is_some, ◌&&◌, Bool,
}
use mesh_chat.Prelude.Assoc.{Assoc, lookup, remove, contains_key, lookup-remove}
use mesh_chat.Protocol.{PeerInfo}
use mesh_chat.Node.{Node, Env, Peer, is_host_role}
use mesh_chat.Mesh.{peer_gone, gone, taken_out}
use mesh_chat.Mesh.Linked.{gone-SameLinks}

not_found {ℓ} : {A : Type ℓ} (o : Option A) → is_some o ≡ false → o ≡ none
not_found none e = refl
not_found (some a) e = cc e

-- A key that is missing is not found.
absent :
    (k id : Text) (m : Assoc Peer)
    → contains_key k m ≡ false
    → lookup id m ≡ (if key_eq k id then none else lookup id m)
absent k id m e = by_cases (Bool-cases (key_eq k id))
  where
    by_cases :
        ((key_eq k id ≡ true) ⊎ (key_eq k id ≡ false))
        → lookup id m ≡ (if key_eq k id then none else lookup id m)
    by_cases (inl h) =
        rw h (sym (ap (λ (j : Text). lookup j m) (key_eq→eq k id h)) ∙ not_found (lookup k m) e)
    by_cases (inr h) = rw h refl

peer_gone_missing :
    (env : Env) (p : Peer) (reason : Text) (n : Node)
    → contains_key p.info.id n.peers ≡ false
    → peer_gone env p reason n ≡ n
unfolding peer_gone
peer_gone_missing env p reason n e =
    if_false (contains_key p.info.id n.peers) (gone env p reason (taken_out p n)) n e

peer_gone_peers :
    (env : Env) (p : Peer) (reason : Text) (n : Node)
    → contains_key p.info.id n.peers ≡ true
    → (peer_gone env p reason n).peers ≡ remove p.info.id n.peers
unfolding peer_gone
peer_gone_peers env p reason n e =
    ap (λ (k : Node). k.peers)
      (if_true (contains_key p.info.id n.peers) (gone env p reason (taken_out p n)) n e)
    ∙ (gone-SameLinks env p reason (taken_out p n)).0

peer_gone_roster :
    (env : Env) (p : Peer) (reason : Text) (n : Node)
    → contains_key p.info.id n.peers ≡ true
    → (peer_gone env p reason n).roster
      ≡ (if is_host_role n.role then remove p.info.id n.roster else n.roster)
unfolding peer_gone
peer_gone_roster env p reason n e =
    ap (λ (k : Node). k.roster)
      (if_true (contains_key p.info.id n.peers) (gone env p reason (taken_out p n)) n e)
    ∙ (gone-SameLinks env p reason (taken_out p n)).2

lookup-taken_out :
    (host : Bool) (k id : Text) (roster : Assoc PeerInfo)
    → lookup id (if host then remove k roster else roster)
      ≡ (if host && key_eq k id then none else lookup id roster)
lookup-taken_out true k id roster = lookup-remove k id roster
lookup-taken_out false k id roster = refl

roster-peer_gone :
    (env : Env) (p : Peer) (reason : Text) (n : Node) (id : Text)
    → lookup id (peer_gone env p reason n).roster ≡ (
        if contains_key p.info.id n.peers && (is_host_role n.role && key_eq p.info.id id)
        then none
        else lookup id n.roster)
roster-peer_gone env p reason n id = elim (Bool-cases (contains_key p.info.id n.peers)) [
  | inl e ↦
      ap (λ (m : Assoc PeerInfo). lookup id m) (peer_gone_roster env p reason n e)
      ∙ rw e (lookup-taken_out (is_host_role n.role) p.info.id id n.roster)
  | inr e ↦ rw e (ap (λ (k : Node). lookup id k.roster) (peer_gone_missing env p reason n e))
]

-- After `peer_gone` the peer is not in the map of peers, and off the roster if it was in that map and
-- we are the host (a joiner's roster keeps it); every other peer is as it was in both, and a second
-- call for the same peer (the reader's after a `Bye`, say) does nothing.
pub peer_gone_once :
    (env : Env) (p : Peer) (reason again : Text) (n : Node)
    → ((id : Text)
        → lookup id (peer_gone env p reason n).peers
          ≡ (if key_eq p.info.id id then none else lookup id n.peers))
      × ((id : Text)
          → lookup id (peer_gone env p reason n).roster ≡ (
              if contains_key p.info.id n.peers && (is_host_role n.role && key_eq p.info.id id)
              then none
              else lookup id n.roster))
      × (peer_gone env p again (peer_gone env p reason n) ≡ peer_gone env p reason n)
peer_gone_once env p reason again n = (
  others,
  roster-peer_gone env p reason n,
  peer_gone_missing env p again (peer_gone env p reason n)
      (rw (others p.info.id, key_eq_refl) refl),
)
  where
    others :
        (id : Text)
        → lookup id (peer_gone env p reason n).peers
          ≡ (if key_eq p.info.id id then none else lookup id n.peers)
    others id = elim (Bool-cases (contains_key p.info.id n.peers)) [
      | inl e ↦
          ap (λ (ps : Assoc Peer). lookup id ps) (peer_gone_peers env p reason n e)
          ∙ lookup-remove p.info.id id n.peers
      | inr e ↦
          ap (λ (k : Node). lookup id k.peers) (peer_gone_missing env p reason n e)
          ∙ absent p.info.id id n.peers e
    ]
