-- ===== src/Mesh/Departures.antt =====
-- core/src/mesh.rs: a link that attaches while the room is left.
use mesh_chat.Prelude.{
  ◌≡◌, text, List, [], ◌∷◌, ◌++◌, true, false, Bool-cases, inl, inr, refl, sym, ◌∙◌, ap, subst,
  if_true, if_false, All, All-mono, append_assoc,
}
use mesh_chat.Prelude.Assoc.{Assoc, remove, insert, values}
use mesh_chat.Protocol.{PeerInfo, bye}
use mesh_chat.Node.{Node, Env, Peer, Link, Pending, Effect, closes, tells, say, send}
use mesh_chat.Mesh.{
  attach_peer, linked, leave, drained, say_bye, closing, close_links, pending_links,
}
use mesh_chat.Node.Events.{Event}
use mesh_chat.Node.Quiet.{Quiet, say-Quiet}
use mesh_chat.Mesh.Effects.{say_bye-Quiet, close_links-Quiet, close_listener-Quiet}
use mesh_chat.Mesh.Teardown.{leave_up}

-- Links that nothing closed and that are not in the map of peers would dangle.
abbrev pub IsClosed : Link → Node → Type 0
IsClosed link n = (before after : List Effect) × (n.out ≡ before ++ closes link ∷ after)

attach_down :
    (env : Env) (info : PeerInfo) (link : Link) (n : Node)
    → n.running ≡ false
    → attach_peer env info link n ≡ say (closes link) n
unfolding attach_peer
attach_down env info link n down = if_false n.running _ (say (closes link) n) down

pub leave_down : (env : Env) (n : Node) → (leave env n).running ≡ false
unfolding leave
leave_down env n = elim (Bool-cases n.running) [
  | inl up ↦ ap (λ (k : Node). k.running) (leave_up env n up).1
  | inr down ↦ ap (λ (k : Node). k.running) (if_false n.running _ n down) ∙ down
]

IsClosed-Quiet : (link : Link) (n m : Node) → Quiet n m → IsClosed link n → IsClosed link m
IsClosed-Quiet link n m (es, e) (before, after, c) = (
  before,
  after ++ es,
  ap (λ (k : Node). k.out) e
      ∙ ap (λ (o : List Effect). o ++ es) c
      ∙ append_assoc before (closes link ∷ after) es,
)

say-IsClosed : (link : Link) (n : Node) → IsClosed link (say (closes link) n)
say-IsClosed link n = (n.out, [], refl)

say_bye-IsClosed :
    (env : Env) (peers : List Peer) (n : Node)
    → All (λ p. IsClosed p.link (say_bye env peers n)) peers
unfolding say_bye
say_bye-IsClosed env [] n = tt
say_bye-IsClosed env (p ∷ peers) n =
    let m = say (closes p.link) (send env p.link bye n).1 in
    (
      IsClosed-Quiet p.link m (say_bye env peers m) (say_bye-Quiet env peers m)
          (say-IsClosed p.link (send env p.link bye n).1),
      say_bye-IsClosed env peers m,
    )

close_links-IsClosed :
    (requests : List Pending) (n : Node)
    → All (λ p. IsClosed p.link (close_links (pending_links requests) n)) requests
unfolding close_links pending_links
close_links-IsClosed [] n = tt
close_links-IsClosed (p ∷ requests) n =
    let m = say (closes p.link) n in
    (
      IsClosed-Quiet p.link m (close_links (pending_links requests) m)
          (close_links-Quiet (pending_links requests) m) (say-IsClosed p.link n),
      close_links-IsClosed requests m,
    )

farewell-IsClosed :
    (env : Env) (link : Link) (n : Node)
    → n.running ≡ true
    → IsClosed link (closing env n)
    → IsClosed link (leave env n)
unfolding leave
farewell-IsClosed env link n up c =
    subst (λ (k : Node). IsClosed link k) (sym (if_true n.running _ n up))
      (IsClosed-Quiet link (closing env n)
        (say (tells (Event.room_closed (text "you left the room"))) (closing env n))
        (say-Quiet (tells (Event.room_closed (text "you left the room"))) (closing env n)) c)

-- Leaving closes the link of every peer and of every request that waits.
pub leave-IsClosed :
    (env : Env) (n : Node)
    → n.running ≡ true
    → All (λ p. IsClosed p.link (leave env n)) (values n.peers)
      × All (λ p. IsClosed p.link (leave env n)) (values n.pending)
unfolding closing
leave-IsClosed env n up =
    let said = say_bye env (values n.peers) (drained n) in
    let closed = close_links (pending_links (values n.pending)) said in
    let last = close_listener-Quiet n.listener closed in
    (
      All-mono (λ p. IsClosed p.link said) (λ p. IsClosed p.link (leave env n)) (values n.peers)
          (λ p c. farewell-IsClosed env p.link n up (
            IsClosed-Quiet p.link closed (closing env n) last (
              IsClosed-Quiet p.link said closed
                (close_links-Quiet (pending_links (values n.pending)) said) c)))
          (say_bye-IsClosed env (values n.peers) (drained n)),
      All-mono (λ p. IsClosed p.link closed) (λ p. IsClosed p.link (leave env n)) (values n.pending)
          (λ p c.
            farewell-IsClosed env p.link n up (IsClosed-Quiet p.link closed (closing env n) last c))
          (close_links-IsClosed (values n.pending) said),
    )

attach_up :
    (env : Env) (info : PeerInfo) (link : Link) (n : Node)
    → n.running ≡ true
    → ((attach_peer env info link n).running ≡ true)
      × ((attach_peer env info link n).peers ≡ insert info.id (linked info link) n.peers)
unfolding attach_peer
attach_up env info link n up = (
  ap (λ (k : Node). k.running) (if_true n.running _ (say (closes link) n) up) ∙ up,
  ap (λ (k : Node). k.peers) (if_true n.running _ (say (closes link) n) up),
)

-- A link that comes up while the room is being left does not dangle, whichever is first: it is
-- closed, and the map of peers is empty.
pub attach_peer-leave :
    (env : Env) (info : PeerInfo) (link : Link) (n : Node)
    → n.running ≡ true
    → (IsClosed link (leave env (attach_peer env info link n))
        × ((leave env (attach_peer env info link n)).peers ≡ []))
      × (IsClosed link (attach_peer env info link (leave env n))
          × ((attach_peer env info link (leave env n)).peers ≡ []))
unfolding insert
attach_peer-leave env info link n up =
    let m = attach_peer env info link n in
    let up' = attach_up env info link n up in
    let late = attach_down env info link (leave env n) (leave_down env n) in
    (
      (
        first_closed m (remove info.id n.peers) up'.0 up'.1 (leave-IsClosed env m up'.0).0,
        ap (λ (k : Node). k.peers) (leave_up env m up'.0).1,
      ),
      (
        subst (λ (k : Node). IsClosed link k) (sym late) (say-IsClosed link (leave env n)),
        ap (λ (k : Node). k.peers) late ∙ ap (λ (k : Node). k.peers) (leave_up env n up).1,
      ),
    )
  where
    first_closed :
        (m : Node) (rest : Assoc Peer)
        → m.running ≡ true
        → m.peers ≡ (info.id, linked info link) ∷ rest
        → All (λ p. IsClosed p.link (leave env m)) (values m.peers)
        → IsClosed link (leave env m)
    first_closed m rest up e h =
        (subst (λ (ps : Assoc Peer). All (λ p. IsClosed p.link (leave env m)) (values ps)) e h).0
