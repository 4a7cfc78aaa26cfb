-- ===== src/Mesh/FileLinks.antt =====
-- core/src/files.rs: file transfers leave the map of peers alone.
use mesh_chat.Prelude.{
  ℕ, ◌+◌, Text, Bytes, text, Option, none, some, Bool, true, false, Bool-cases, not, inl, inr, refl,
  key_eq, if◌then◌else◌,
}
use mesh_chat.Prelude.Assoc.{lookup, insert, remove}
use mesh_chat.Error.{Error, IoError, Result, ok, err}
use mesh_chat.Protocol.{
  Control, Checked, returns, panics, hex, unhex16, file_abort, file_accept, file_decline,
}
use mesh_chat.Node.{Node, Env, Peer, emit, send}
use mesh_chat.Node.Events.{file_progress}
use mesh_chat.Node.TransferState.{ActiveIn, PendingOffer, Decision, accept, decline}
use mesh_chat.Node.Quiet.{send-Quiet}
use mesh_chat.Files.{
  settle_chunk, chunk_for, handle_chunk, chunk_problem, progress_due, take_chunk, progress_interval,
  set_active, set_offers, complete_active, record_received, is_complete, complete_incoming, decide,
  abort_active, abort_received, with_id, handle_file_control, offer_received,
}
use mesh_chat.Files.Answering.{
  decline_to, receiving, save_from, answer_offer, answer_pending, answer_id, respond_offer,
  new_active,
}
use mesh_chat.Files.Integrity.{After}
use mesh_chat.Mesh.Linked.{SameLinks, SameLinks-Quiet}

-- The node after a call, without what the call returned.
abbrev pub after_call {ℓ} : {A : Type ℓ} → Checked (A × Node) → Checked Node
after_call (returns (a, n)) = returns n
after_call panics = panics

if-SameLinks :
    (n : Node) (b : Bool) (m k : Node)
    → SameLinks n m
    → SameLinks n k
    → SameLinks n (if b then m else k)
if-SameLinks n true m k h i = h
if-SameLinks n false m k h i = i

settle_chunk-SameLinks :
    (env : Env) (peer : Peer) (id bytes : Bytes) (a : ActiveIn) (problem : Option Text) (n : Node)
    → SameLinks n (settle_chunk env peer id bytes a problem n)
unfolding settle_chunk
settle_chunk-SameLinks env peer id bytes a (some reason) n =
    let m = set_active (remove id n.transfers.active) n in
    SameLinks-Quiet m (send env peer.link (file_abort (hex id) reason) m).1
      (send-Quiet env peer.link (file_abort (hex id) reason) m)
settle_chunk-SameLinks env peer id bytes a none n =
    let b = take_chunk bytes a in
    if-SameLinks n (progress_due n.clock b)
      (emit (file_progress (hex id) b.name b.peer_name b.got b.size true) (
        set_active
          (insert id (record b { next_emit = n.clock + progress_interval }) n.transfers.active) n))
      (set_active (insert id b n.transfers.active) n) (refl, refl, refl) (refl, refl, refl)

chunk_for-SameLinks :
    (env : Env) (peer : Peer) (id : Bytes) (seq : ℕ) (bytes : Bytes) (found : Option ActiveIn)
    (n : Node)
    → SameLinks n (chunk_for env peer id seq bytes found n)
unfolding chunk_for
chunk_for-SameLinks env peer id seq bytes none n = (refl, refl, refl)
chunk_for-SameLinks env peer id seq bytes (some a) n =
    if-SameLinks n (not (key_eq a.peer_id peer.info.id)) n
      (settle_chunk env peer id bytes a (chunk_problem env a seq bytes) n) (refl, refl, refl)
      (settle_chunk-SameLinks env peer id bytes a (chunk_problem env a seq bytes) n)

pub handle_chunk-SameLinks :
    (env : Env) (peer : Peer) (id : Bytes) (seq : ℕ) (bytes : Bytes) (n : Node)
    → SameLinks n (handle_chunk env peer id seq bytes n)
unfolding handle_chunk
handle_chunk-SameLinks env peer id seq bytes n =
    chunk_for-SameLinks env peer id seq bytes (lookup id n.transfers.active) n

complete_active-SameLinks :
    (env : Env) (id : Bytes) (transfer : Text) (found : Option ActiveIn) (n : Node)
    → SameLinks n (complete_active env id transfer found n)
unfolding complete_active record_received
complete_active-SameLinks env id transfer none n = (refl, refl, refl)
complete_active-SameLinks env id transfer (some a) n = elim (Bool-cases (is_complete env a)) [
  | inl c ↦ rw c (refl, refl, refl)
  | inr c ↦ rw c (refl, refl, refl)
]

decide-SameLinks :
    (id : Bytes) (d : Decision) (waiter : Option (Unit {0})) (n : Node)
    → SameLinks n (decide id d waiter n)
unfolding decide
decide-SameLinks id d none n = (refl, refl, refl)
decide-SameLinks id d (some u) n = (refl, refl, refl)

abort_active-SameLinks :
    (transfer reason : Text) (found : Option ActiveIn) (n : Node)
    → SameLinks n (abort_active transfer reason found n)
unfolding abort_active
abort_active-SameLinks transfer reason none n = (refl, refl, refl)
abort_active-SameLinks transfer reason (some a) n = (refl, refl, refl)

with_id-SameLinks :
    (r : Checked (Result Error Bytes)) (f : Bytes → Node → Node) (n : Node)
    → ((id : Bytes) → SameLinks n (f id n))
    → After (λ m. SameLinks n m) (with_id r f n)
unfolding with_id
with_id-SameLinks (returns (ok id)) f n step = step id
with_id-SameLinks (returns (err e)) f n step = (refl, refl, refl)
with_id-SameLinks panics f n step = tt

pub handle_file_control-SameLinks :
    (env : Env) (peer : Peer) (c : Control) (n : Node)
    → After (λ m. SameLinks n m) (handle_file_control env peer c n)
unfolding handle_file_control offer_received complete_incoming abort_received
handle_file_control-SameLinks env peer (Control.file_offer transfer name size sha256) n =
    with_id-SameLinks (unhex16 transfer) (offer_received peer transfer name size sha256) n
      (λ id. (refl, refl, refl))
handle_file_control-SameLinks env peer (Control.file_accept transfer) n =
    with_id-SameLinks (unhex16 transfer)
      (λ id m. decide id accept (lookup id m.transfers.waiters) m) n
      (λ id. decide-SameLinks id accept (lookup id n.transfers.waiters) n)
handle_file_control-SameLinks env peer (Control.file_decline transfer reason) n =
    with_id-SameLinks (unhex16 transfer)
      (λ id m. decide id (decline reason) (lookup id m.transfers.waiters) m) n
      (λ id. decide-SameLinks id (decline reason) (lookup id n.transfers.waiters) n)
handle_file_control-SameLinks env peer (Control.file_done transfer) n =
    with_id-SameLinks (unhex16 transfer) (λ id m. complete_incoming env id transfer m) n
      (λ id. complete_active-SameLinks env id transfer (lookup id n.transfers.active) n)
handle_file_control-SameLinks env peer (Control.file_abort transfer reason) n =
    with_id-SameLinks (unhex16 transfer) (abort_received transfer reason) n (λ id.
      abort_active-SameLinks transfer reason (lookup id n.transfers.active)
        (set_active (remove id n.transfers.active) (set_offers (remove id n.transfers.offers) n)))
handle_file_control-SameLinks env peer (Control.hello v r p) n = (refl, refl, refl)
handle_file_control-SameLinks env peer (Control.mesh_hello v r p) n = (refl, refl, refl)
handle_file_control-SameLinks env peer (Control.welcome r p ps) n = (refl, refl, refl)
handle_file_control-SameLinks env peer (Control.mesh_ack p) n = (refl, refl, refl)
handle_file_control-SameLinks env peer (Control.rejected r) n = (refl, refl, refl)
handle_file_control-SameLinks env peer (Control.peer_joined p) n = (refl, refl, refl)
handle_file_control-SameLinks env peer (Control.peer_left i m) n = (refl, refl, refl)
handle_file_control-SameLinks env peer (Control.chat i f m t b) n = (refl, refl, refl)
handle_file_control-SameLinks env peer Control.bye n = (refl, refl, refl)

receiving-SameLinks :
    (n : Node) (offer : PendingOffer) (path : Text) (r : Result Error (Unit {0}) × Node)
    → SameLinks n r.1
    → SameLinks n (receiving offer path r).1
unfolding receiving
receiving-SameLinks n offer path (ok u, m) h = h
receiving-SameLinks n offer path (err e, m) h = h

save_from-SameLinks :
    (env : Env) (id : Bytes) (transfer : Text) (offer : PendingOffer) (path : Text)
    (created : Result IoError (Unit {0})) (p : Option Peer) (n : Node)
    → SameLinks n (save_from env id transfer offer path created p n).1
unfolding save_from
save_from-SameLinks env id transfer offer path created none n = (refl, refl, refl)
save_from-SameLinks env id transfer offer path (err e) (some p) n = (refl, refl, refl)
save_from-SameLinks env id transfer offer path (ok u) (some p) n =
    let m = set_active (insert id (new_active offer path n.clock) n.transfers.active) n in
    receiving-SameLinks n offer path (send env p.link (file_accept transfer) m) (
      SameLinks-Quiet m (send env p.link (file_accept transfer) m).1
        (send-Quiet env p.link (file_accept transfer) m))

decline_to-SameLinks :
    (env : Env) (transfer : Text) (p : Option Peer) (n : Node)
    → SameLinks n (decline_to env transfer p n)
unfolding decline_to
decline_to-SameLinks env transfer none n = (refl, refl, refl)
decline_to-SameLinks env transfer (some p) n =
    let c = file_decline transfer (text "declined by the recipient") in
    SameLinks-Quiet n (send env p.link c n).1 (send-Quiet env p.link c n)

answer_pending-SameLinks :
    (env : Env) (id : Bytes) (transfer : Text) (offer : Option PendingOffer)
    (save_to : Option (Text × Result IoError (Unit {0}))) (n : Node)
    → SameLinks n (answer_pending env id transfer offer save_to n).1
unfolding answer_pending answer_offer
answer_pending-SameLinks env id transfer none save_to n = (refl, refl, refl)
answer_pending-SameLinks env id transfer (some offer) none n =
    let m = set_offers (remove id n.transfers.offers) n in
    decline_to-SameLinks env transfer (lookup offer.peer_id n.peers) m
answer_pending-SameLinks env id transfer (some offer) (some (path, created)) n =
    let m = set_offers (remove id n.transfers.offers) n in
    save_from-SameLinks env id transfer offer path created (lookup offer.peer_id n.peers) m

answer_id-SameLinks :
    (env : Env) (transfer : Text) (id : Checked (Result Error Bytes))
    (save_to : Option (Text × Result IoError (Unit {0}))) (n : Node)
    → After (λ m. SameLinks n m) (after_call (answer_id env transfer id save_to n))
unfolding answer_id
answer_id-SameLinks env transfer panics save_to n = tt
answer_id-SameLinks env transfer (returns (err e)) save_to n = (refl, refl, refl)
answer_id-SameLinks env transfer (returns (ok id)) save_to n =
    answer_pending-SameLinks env id transfer (lookup id n.transfers.offers) save_to n

pub respond_offer-SameLinks :
    (env : Env) (transfer : Text) (save_to : Option (Text × Result IoError (Unit {0}))) (n : Node)
    → After (λ m. SameLinks n m) (after_call (respond_offer env transfer save_to n))
unfolding respond_offer
respond_offer-SameLinks env transfer save_to n =
    answer_id-SameLinks env transfer (unhex16 transfer) save_to n
