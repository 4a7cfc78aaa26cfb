-- ===== src/Files/Controls.antt =====
-- core/src/files.rs: what a message about a transfer (`handle_file_control`) makes of the downloads,
-- of the offers that wait for an answer, and of what the user is told.
use mesh_chat.Prelude.{
  ◌≡◌, refl, sym, ap, ◌∙◌, Text, Bytes, Option, none, some, List, [], ◌∷◌, ◌++◌, length, All,
  IsByte, Bool, true, false, ◌==◌, ◌&&◌, key_eq, if◌then◌else◌, Bool-cases, inl, inr, append_assoc,
  append-nil, key_eq→eq, if_true, if_false,
}
use mesh_chat.Prelude.Assoc.{lookup, remove, lookup-remove, lookup-insert}
use mesh_chat.Names.{safe_file_name}
use mesh_chat.Protocol.{Control, returns, hex, unhex16}
use mesh_chat.Protocol.Ids.{unhex16-hex}
use mesh_chat.Node.{Node, Env, Peer, Effect, tells, saves, say}
use mesh_chat.Node.Events.{Event}
use mesh_chat.Node.TransferState.{Transfers, ActiveIn, PendingOffer, Decision, accept, decline}
use mesh_chat.Files.{
  handle_file_control, with_id, offer_received, decide, complete_incoming, complete_active,
  record_received, is_complete, completion_detail, abort_received, abort_active, set_active,
  set_offers,
}

-- The transfer that a message is about.
abbrev pub transfer_of : Control → Option Text
transfer_of (Control.file_offer transfer name size sha256) = some transfer
transfer_of (Control.file_accept transfer) = some transfer
transfer_of (Control.file_decline transfer reason) = some transfer
transfer_of (Control.file_done transfer) = some transfer
transfer_of (Control.file_abort transfer reason) = some transfer
transfer_of _ = none

-- What becomes of the download under the message's id: its end and its abort take it out.
abbrev pub download_after : Control → Option ActiveIn → Option ActiveIn
download_after (Control.file_done transfer) a = none
download_after (Control.file_abort transfer reason) a = none
download_after _ a = a

-- What becomes of the offer under the message's id: a new one is kept in its sender's name, with a
-- safe file name, and an abort withdraws it.
abbrev pub offer_after : Peer → Control → Option PendingOffer → Option PendingOffer
offer_after peer (Control.file_offer transfer name size sha256) o = some (record {
  peer_id = peer.info.id;
  peer_name = peer.info.name;
  name = safe_file_name name;
  size = size;
  sha256 = sha256;
})
offer_after peer (Control.file_abort transfer reason) o = none
offer_after peer _ o = o

-- The downloads whose end the user is told of, each with its success.
abbrev pub ends_told : List Effect → List (Text × Bool)
ends_told [] = []
ends_told (tells (Event.file_finished transfer name true success detail) ∷ es) =
    (transfer, success) ∷ ends_told es
ends_told (_ ∷ es) = ends_told es

-- The end of a download: a success on the sender's word that it is done, if size and digest are the
-- offered ones, and none on an abort.
abbrev pub ended : Env → Control → Option ActiveIn → List (Text × Bool)
ended env (Control.file_done transfer) (some a) =
    (transfer, a.got == a.size && key_eq (hex (env.sha256 a.hashed)) a.expect_sha) ∷ []
ended env (Control.file_abort transfer reason) (some a) = (transfer, false) ∷ []
ended env _ _ = []

pub record Settled (env : Env) (peer : Peer) (id : Bytes) (c : Control) (n m : Node) : Type 0 where
  pub downloads :
      (j : Bytes)
      → lookup j m.transfers.active ≡ (
          if key_eq id j
          then download_after c (lookup j n.transfers.active)
          else lookup j n.transfers.active)
  pub offers :
      (j : Bytes)
      → lookup j m.transfers.offers ≡ (
          if key_eq id j
          then offer_after peer c (lookup j n.transfers.offers)
          else lookup j n.transfers.offers)
  pub told :
      (es : List Effect) × (m.out ≡ n.out ++ es)
      × (ends_told es ≡ ended env c (lookup id n.transfers.active))

if_same {ℓ} : {A : Type ℓ} (b : Bool) (x : A) → x ≡ (if b then x else x)
if_same true x = refl
if_same false x = refl

-- A decision for the sender's thread leaves what is received alone.
decided :
    (env : Env) (peer : Peer) (id : Bytes) (d : Decision) (c : Control) (waiter : Option (Unit {0}))
    (n : Node)
    → ((o : Option ActiveIn) → download_after c o ≡ o)
    → ((o : Option PendingOffer) → offer_after peer c o ≡ o)
    → ended env c (lookup id n.transfers.active) ≡ []
    → Settled env peer id c n (decide id d waiter n)
unfolding decide
decided env peer id d c none n a o e = record {
  downloads = λ j. rw (a (lookup j n.transfers.active)) (if_same (key_eq id j) _);
  offers = λ j. rw (o (lookup j n.transfers.offers)) (if_same (key_eq id j) _);
  told = ([], sym (append-nil n.out), sym e);
}
decided env peer id d c (some u) n a o e = record {
  downloads = λ j. rw (a (lookup j n.transfers.active)) (if_same (key_eq id j) _);
  offers = λ j. rw (o (lookup j n.transfers.offers)) (if_same (key_eq id j) _);
  told = (Effect.decides id d ∷ [], refl, sym e);
}

-- A key that is not found is not found either once it was taken out.
not_there {ℓ} :
    {V : Type ℓ} (id j : Bytes) (m : List (Bytes × V))
    → lookup id m ≡ none
    → lookup j m ≡ (if key_eq id j then none else lookup j m)
not_there id j m e = elim (Bool-cases (key_eq id j)) [
  | inl w ↦ sym (ap (λ (k : Bytes). lookup k m) (key_eq→eq id j w)) ∙ e ∙ sym (if_true _ _ _ w)
  | inr w ↦ sym (if_false _ _ _ w)
]

recorded :
    (env : Env) (a : ActiveIn) (n : Node)
    → ((record_received env a n).transfers ≡ n.transfers) × ((record_received env a n).out ≡ n.out)
unfolding record_received
recorded env a n = elim (Bool-cases (is_complete env a)) [
  | inl w ↦ rw w (refl, refl)
  | inr w ↦ rw w (refl, refl)
]

completed :
    (env : Env) (peer : Peer) (id : Bytes) (transfer : Text) (found : Option ActiveIn) (n : Node)
    → lookup id n.transfers.active ≡ found
    → Settled env peer id (Control.file_done transfer) n (complete_active env id transfer found n)
unfolding complete_active is_complete
completed env peer id transfer none n e = record {
  downloads = λ j. not_there id j n.transfers.active e;
  offers = λ j. if_same (key_eq id j) _;
  told = ([], sym (append-nil n.out), rw e refl);
}
completed env peer id transfer (some a) n e =
    let saved : Node = say (saves a.path a.written) (set_active (remove id n.transfers.active) n) in
    let r = recorded env a saved in
    let finish : Effect =
      tells
        (Event.file_finished transfer a.name true (is_complete env a) (completion_detail env a)) in
    record {
      downloads = λ j.
          ap (λ (t : Transfers). lookup j t.active) r.0 ∙ lookup-remove id j n.transfers.active;
      offers = λ j. ap (λ (t : Transfers). lookup j t.offers) r.0 ∙ if_same (key_eq id j) _;
      told = (
        saves a.path a.written ∷ finish ∷ [],
        ap (λ (o : List Effect). o ++ finish ∷ []) r.1
            ∙ append_assoc n.out (saves a.path a.written ∷ []) (finish ∷ []),
        rw e refl,
      );
    }

aborted :
    (env : Env) (peer : Peer) (id : Bytes) (transfer reason : Text) (found : Option ActiveIn)
    (n : Node)
    → lookup id n.transfers.active ≡ found
    → Settled env peer id (Control.file_abort transfer reason) n (
        abort_active transfer reason found
          (set_active (remove id n.transfers.active) (set_offers (remove id n.transfers.offers) n)))
unfolding abort_active
aborted env peer id transfer reason none n e = record {
  downloads = λ j. lookup-remove id j n.transfers.active;
  offers = λ j. lookup-remove id j n.transfers.offers;
  told = ([], sym (append-nil n.out), rw e refl);
}
aborted env peer id transfer reason (some a) n e = record {
  downloads = λ j. lookup-remove id j n.transfers.active;
  offers = λ j. lookup-remove id j n.transfers.offers;
  told = (_ ∷ [], refl, rw e refl);
}

-- The id of the message is read back.
read_id :
    (f : Bytes → Node → Node) (id : Bytes) (transfer : Text) (n : Node)
    → All IsByte id
    → length id ≡ 16
    → some transfer ≡ some (hex id)
    → with_id (unhex16 transfer) f n ≡ returns (f id n)
unfolding with_id
read_id f id transfer n h l e =
    ap (λ r. with_id r f n) (ap unhex16 (ap text_of e) ∙ unhex16-hex id h l)
  where
    text_of : Option Text → Text
    text_of none = []
    text_of (some t) = t

-- A message about a transfer whose id is 16 bytes in hexadecimal is handled, whoever of the linked
-- peers sent it. The end of a transfer and its abort take its download out, the abort its offer too,
-- and an offer is kept for the user; every other download and offer is found as before. The user is
-- told of the end of the download just if there was one, once, as a success just if the sender said
-- that it is done and size and digest are the offered ones.
pub handle_file_control-Settled :
    (env : Env) (peer : Peer) (id : Bytes) (c : Control) (n : Node)
    → All IsByte id
    → length id ≡ 16
    → transfer_of c ≡ some (hex id)
    → (m : Node) × (handle_file_control env peer c n ≡ returns m) × Settled env peer id c n m
unfolding handle_file_control offer_received complete_incoming abort_received
handle_file_control-Settled env peer id (Control.file_offer transfer name size sha256) n h l e = (
  offer_received peer transfer name size sha256 id n,
  read_id (offer_received peer transfer name size sha256) id transfer n h l e,
  record {
    downloads = λ j. if_same (key_eq id j) _;
    offers = λ j. lookup-insert id j _ n.transfers.offers;
    told = (_ ∷ [], refl, refl);
  },
)
handle_file_control-Settled env peer id (Control.file_accept transfer) n h l e = (
  decide id accept (lookup id n.transfers.waiters) n,
  read_id (λ j m. decide j accept (lookup j m.transfers.waiters) m) id transfer n h l e,
  decided env peer id accept (Control.file_accept transfer) (lookup id n.transfers.waiters) n
      (λ o. refl) (λ o. refl) refl,
)
handle_file_control-Settled env peer id (Control.file_decline transfer reason) n h l e = (
  decide id (decline reason) (lookup id n.transfers.waiters) n,
  read_id (λ j m. decide j (decline reason) (lookup j m.transfers.waiters) m) id transfer n h l e,
  decided env peer id (decline reason) (Control.file_decline transfer reason)
      (lookup id n.transfers.waiters) n (λ o. refl) (λ o. refl) refl,
)
handle_file_control-Settled env peer id (Control.file_done transfer) n h l e = (
  complete_incoming env id transfer n,
  read_id (λ j m. complete_incoming env j transfer m) id transfer n h l e,
  completed env peer id transfer (lookup id n.transfers.active) n refl,
)
handle_file_control-Settled env peer id (Control.file_abort transfer reason) n h l e = (
  abort_received transfer reason id n,
  read_id (abort_received transfer reason) id transfer n h l e,
  aborted env peer id transfer reason (lookup id n.transfers.active) n refl,
)
handle_file_control-Settled env peer id (Control.hello v r p) n h l e = cc e
handle_file_control-Settled env peer id (Control.mesh_hello v r p) n h l e = cc e
handle_file_control-Settled env peer id (Control.welcome r p ps) n h l e = cc e
handle_file_control-Settled env peer id (Control.mesh_ack p) n h l e = cc e
handle_file_control-Settled env peer id (Control.rejected r) n h l e = cc e
handle_file_control-Settled env peer id (Control.peer_joined p) n h l e = cc e
handle_file_control-Settled env peer id (Control.peer_left i m) n h l e = cc e
handle_file_control-Settled env peer id (Control.chat i f m t b) n h l e = cc e
handle_file_control-Settled env peer id Control.bye n h l e = cc e
