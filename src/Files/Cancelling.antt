-- ===== src/Files/Cancelling.antt =====
-- core/src/files.rs: the transfers of a peer that went away.
use mesh_chat.Prelude.{
  ◌≡◌, Text, Bytes, text, Option, none, some, List, [], ◌∷◌, true, false, refl, ap, ◌∙◌, not,
  key_eq,
}
use mesh_chat.Prelude.Assoc.{Assoc, lookup, retain, Unique, lookup-retain, filter_option}
use mesh_chat.Protocol.{hex}
use mesh_chat.Node.{Node, emit}
use mesh_chat.Node.Events.{file_finished}
use mesh_chat.Node.TransferState.{ActiveIn, PendingOffer}
use mesh_chat.Files.{
  set_active, set_offers, from_peer, finish_cancelled, cancel_waiting, cancel_outgoing, drop_out,
  cancel_transfers_with,
}

-- The downloads and the offers are as they were.
abbrev SameIncoming : Node → Node → Type 0
SameIncoming n m =
    (m.transfers.active ≡ n.transfers.active) × (m.transfers.offers ≡ n.transfers.offers)

SameIncoming-trans : (n m k : Node) → SameIncoming n m → SameIncoming m k → SameIncoming n k
SameIncoming-trans n m k (a, o) (a', o') = (a' ∙ a, o' ∙ o)

finish_cancelled-SameIncoming :
    (m : List (Bytes × ActiveIn)) (n : Node) → SameIncoming n (finish_cancelled m n)
unfolding finish_cancelled
finish_cancelled-SameIncoming [] n = (refl, refl)
finish_cancelled-SameIncoming ((id, a) ∷ m) n =
    finish_cancelled-SameIncoming m
      (emit (file_finished (hex id) a.name true false (text "the sender disconnected")) n)

cancel_waiting-SameIncoming :
    (id : Bytes) (waiter : Option (Unit {0})) (n : Node)
    → SameIncoming n (cancel_waiting id waiter n)
unfolding cancel_waiting
cancel_waiting-SameIncoming id none n = (refl, refl)
cancel_waiting-SameIncoming id (some u) n = (refl, refl)

cancel_outgoing-SameIncoming :
    (m : List (Bytes × Text)) (n : Node) → SameIncoming n (cancel_outgoing m n)
unfolding cancel_outgoing
cancel_outgoing-SameIncoming [] n = (refl, refl)
cancel_outgoing-SameIncoming ((id, peer_id) ∷ m) n =
    let k = drop_out id (cancel_waiting id (lookup id n.transfers.waiters) n) in
    SameIncoming-trans n k (cancel_outgoing m k)
      (cancel_waiting-SameIncoming id (lookup id n.transfers.waiters) n)
      (cancel_outgoing-SameIncoming m k)

-- What is left of the downloads and the offers.
left_over :
    (peer_id : Text) (n : Node)
    → ((cancel_transfers_with peer_id n).transfers.active
        ≡ retain (λ a. not (from_peer peer_id a)) n.transfers.active)
      × ((cancel_transfers_with peer_id n).transfers.offers
          ≡ retain (λ o. not (key_eq o.peer_id peer_id)) n.transfers.offers)
unfolding cancel_transfers_with
left_over peer_id n =
    let m = set_active (retain (λ a. not (from_peer peer_id a)) n.transfers.active) n in
    let m' = set_offers (retain (λ o. not (key_eq o.peer_id peer_id)) m.transfers.offers) m in
    let k = cancel_outgoing (retain (λ p. key_eq p peer_id) m'.transfers.out_peer) m' in
    SameIncoming-trans m' k (finish_cancelled (retain (from_peer peer_id) n.transfers.active) k)
      (cancel_outgoing-SameIncoming (retain (λ p. key_eq p peer_id) m'.transfers.out_peer) m')
      (finish_cancelled-SameIncoming (retain (from_peer peer_id) n.transfers.active) k)

-- In maps with one entry for each key: when a peer is gone, its downloads and its offers are dropped,
-- and each other one is found as before.
pub cancel_transfers_with-lookup :
    (peer_id : Text) (id : Bytes) (n : Node)
    → Unique n.transfers.active
    → Unique n.transfers.offers
    → (lookup id (cancel_transfers_with peer_id n).transfers.active
        ≡ filter_option (λ a. not (key_eq a.peer_id peer_id)) (lookup id n.transfers.active))
      × (lookup id (cancel_transfers_with peer_id n).transfers.offers
          ≡ filter_option (λ o. not (key_eq o.peer_id peer_id)) (lookup id n.transfers.offers))
cancel_transfers_with-lookup peer_id id n active offers = (
  ap (λ (m : Assoc ActiveIn). lookup id m) (left_over peer_id n).0
      ∙ lookup-retain (λ a. not (key_eq a.peer_id peer_id)) id n.transfers.active active,
  ap (λ (m : Assoc PendingOffer). lookup id m) (left_over peer_id n).1
      ∙ lookup-retain (λ o. not (key_eq o.peer_id peer_id)) id n.transfers.offers offers,
)
