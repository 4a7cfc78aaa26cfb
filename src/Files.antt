-- ===== src/Files.antt =====
-- core/src/files.rs: incoming file transfers, and the answers to outgoing ones. An operation of the
-- whole node is a function of the node; `Checked` is a panic of `unhex16`.
pub mod Streaming
pub mod Answering
pub mod Outgoing
pub mod Integrity
pub mod Receiving
pub mod Cancelling
pub mod Controls
mod Runs
use mesh_chat.Prelude.{
  ℕ, ◌+◌, ◌%◌, ◌^◌, Text, Bytes, text, cat, Option, none, some, List, [], ◌∷◌, ◌++◌, length, ltb,
  leb, ◌==◌, ◌||◌, ◌&&◌, not, Bool, true, false, if◌then◌else◌, key_eq,
}
use mesh_chat.Prelude.Assoc.{Assoc, lookup, insert, remove, retain}
use mesh_chat.Error.{Error, IoError, protocol, closed, Result, ok, err}
use mesh_chat.Text.Decimal.{decimal}
use mesh_chat.Protocol.{
  Control, file_offer, file_accept, file_decline, file_done, file_abort, hex, unhex16, Checked,
  returns, panics,
}
use mesh_chat.History.{file_record}
use mesh_chat.Names.{safe_file_name}
use mesh_chat.Node.{Node, Env, Peer, Effect, decides, saves, say, emit, push_record, send}
use mesh_chat.Node.Events.{Event, file_finished, file_progress}
use mesh_chat.Node.TransferState.{Transfers, PendingOffer, ActiveIn, Decision, accept, decline}

abbrev pub progress_interval : ℕ
progress_interval = 150

-- Sums of `u64` and `u32` wrap in a release build.
abbrev pub add_u64 : ℕ → ℕ → ℕ
add_u64 a b = (a + b) % 2 ^ 64

abbrev pub next_u32 : ℕ → ℕ
next_u32 a = (a + 1) % 2 ^ 32

abbrev pub set_offers : Assoc PendingOffer → Node → Node
set_offers m n = record n { transfers = record n.transfers { offers = m } }

abbrev pub set_active : Assoc ActiveIn → Node → Node
set_active m n = record n { transfers = record n.transfers { active = m } }

abbrev write_problem : Result Text (Unit {0}) → Option Text
write_problem (ok u) = none
write_problem (err e) = some (cat (text "could not write to disk: " ∷ e ∷ []))

-- Why a chunk is refused.
unfoldable pub chunk_problem : Env → ActiveIn → ℕ → Bytes → Option Text
chunk_problem env a seq bytes =
    if not (seq == a.next_seq)
    then some (
        cat (
          text "chunks arrived out of order (expected "
          ∷ decimal a.next_seq
          ∷ text ", got "
          ∷ decimal seq
          ∷ text ")"
          ∷ []))
    else if ltb a.size (add_u64 a.got (length bytes))
    then some (text "the sender sent more data than it offered")
    else write_problem (env.disk a.path a.written bytes)

-- The transfer after a chunk that was written.
unfoldable pub take_chunk : Bytes → ActiveIn → ActiveIn
take_chunk bytes a = record a {
  written = a.written ++ bytes;
  hashed = a.hashed ++ bytes;
  got = add_u64 a.got (length bytes);
  next_seq = next_u32 a.next_seq;
}

unfoldable pub progress_due : ℕ → ActiveIn → Bool
progress_due clock a = leb a.next_emit clock || a.got == a.size

incoming_finished : Bytes → Text → Text → Node → Node
incoming_finished id name detail = emit (file_finished (hex id) name true false detail)

unfoldable pub settle_chunk : Env → Peer → Bytes → Bytes → ActiveIn → Option Text → Node → Node
unfolding incoming_finished
settle_chunk env peer id bytes a (some reason) n =
    let m = set_active (remove id n.transfers.active) n in
    incoming_finished id a.name reason (send env peer.link (file_abort (hex id) reason) m).1
settle_chunk env peer id bytes a none n =
    let b = take_chunk bytes a in
    if progress_due n.clock b
    then emit (file_progress (hex id) b.name b.peer_name b.got b.size true) (
        set_active
          (insert id (record b { next_emit = n.clock + progress_interval }) n.transfers.active) n)
    else set_active (insert id b n.transfers.active) n

unfoldable pub chunk_for : Env → Peer → Bytes → ℕ → Bytes → Option ActiveIn → Node → Node
unfolding settle_chunk
chunk_for env peer id seq bytes none n = n
chunk_for env peer id seq bytes (some a) n =
    if not (key_eq a.peer_id peer.info.id)
    then n
    else settle_chunk env peer id bytes a (chunk_problem env a seq bytes) n

unfoldable pub handle_chunk : Env → Peer → Bytes → ℕ → Bytes → Node → Node
unfolding chunk_for
handle_chunk env peer id seq bytes n =
    chunk_for env peer id seq bytes (lookup id n.transfers.active) n

unfoldable pub is_complete : Env → ActiveIn → Bool
is_complete env a = a.got == a.size && key_eq (hex (env.sha256 a.hashed)) a.expect_sha

unfoldable pub completion_detail : Env → ActiveIn → Text
completion_detail env a =
    if is_complete env a
    then cat (text "saved to " ∷ a.path ∷ [])
    else if not (a.got == a.size)
    then cat
        (text "incomplete: got " ∷ env.human_size a.got ∷ text " of " ∷ env.human_size a.size ∷ [])
    else text "the checksum did not match - the file may be corrupt"

-- The line of the history for a file that arrived whole.
unfoldable pub record_received : Env → ActiveIn → Node → Node
record_received env a n =
    if is_complete env a
    then push_record
        (file_record a.peer_name a.peer_id n.wall (
          cat (
            text "received "
            ∷ a.name
            ∷ text " ("
            ∷ env.human_size a.size
            ∷ text ") -> "
            ∷ a.path
            ∷ [])))
        n
    else n

unfoldable pub complete_active : Env → Bytes → Text → Option ActiveIn → Node → Node
unfolding record_received
complete_active env id transfer none n = n
complete_active env id transfer (some a) n =
    emit (file_finished transfer a.name true (is_complete env a) (completion_detail env a)) (
      record_received env a
        (say (saves a.path a.written) (set_active (remove id n.transfers.active) n)))

unfoldable pub complete_incoming : Env → Bytes → Text → Node → Node
unfolding complete_active
complete_incoming env id transfer n =
    complete_active env id transfer (lookup id n.transfers.active) n

-- A decision for the thread that waits for it.
unfoldable pub decide : Bytes → Decision → Option (Unit {0}) → Node → Node
decide id d none n = n
decide id d (some u) n = say (decides id d) n

unfoldable pub abort_active : Text → Text → Option ActiveIn → Node → Node
abort_active transfer reason none n = n
abort_active transfer reason (some a) n =
    emit
      (file_finished transfer a.name true false (cat (text "the sender aborted: " ∷ reason ∷ []))) n

-- An offer as it is kept until it is answered.
abbrev pub offer_from : Peer → Text → ℕ → Text → PendingOffer
offer_from peer name size sha256 = record {
  peer_id = peer.info.id;
  peer_name = peer.info.name;
  name = safe_file_name name;
  size = size;
  sha256 = sha256;
}

unfoldable pub offer_received : Peer → Text → Text → ℕ → Text → Bytes → Node → Node
offer_received peer transfer name size sha256 id n =
    emit (Event.file_offer transfer peer.info.name (safe_file_name name) size)
      (set_offers (insert id (offer_from peer name size sha256) n.transfers.offers) n)

unfoldable pub abort_received : Text → Text → Bytes → Node → Node
unfolding abort_active
abort_received transfer reason id n =
    abort_active transfer reason (lookup id n.transfers.active)
      (set_active (remove id n.transfers.active) (set_offers (remove id n.transfers.offers) n))

-- `if let Ok(id) = unhex16(&transfer) { ... }`
unfoldable pub with_id : Checked (Result Error Bytes) → (Bytes → Node → Node) → Node → Checked Node
with_id (returns (ok id)) f n = returns (f id n)
with_id (returns (err e)) f n = returns n
with_id panics f n = panics

unfoldable pub handle_file_control : Env → Peer → Control → Node → Checked Node
unfolding with_id decide
handle_file_control env peer (file_offer transfer name size sha256) n =
    with_id (unhex16 transfer) (offer_received peer transfer name size sha256) n
handle_file_control env peer (file_accept transfer) n =
    with_id (unhex16 transfer) (λ id m. decide id accept (lookup id m.transfers.waiters) m) n
handle_file_control env peer (file_decline transfer reason) n =
    with_id (unhex16 transfer)
      (λ id m. decide id (decline reason) (lookup id m.transfers.waiters) m) n
handle_file_control env peer (file_done transfer) n =
    with_id (unhex16 transfer) (λ id m. complete_incoming env id transfer m) n
handle_file_control env peer (file_abort transfer reason) n =
    with_id (unhex16 transfer) (abort_received transfer reason) n
handle_file_control env peer c n = returns n

-- The downloads from a peer that went away, each with its id.
unfoldable pub finish_cancelled : List (Bytes × ActiveIn) → Node → Node
finish_cancelled [] n = n
finish_cancelled ((id, a) ∷ m) n =
    finish_cancelled m
      (emit (file_finished (hex id) a.name true false (text "the sender disconnected")) n)

abbrev pub from_peer : Text → ActiveIn → Bool
from_peer peer_id a = key_eq a.peer_id peer_id

unfoldable pub cancel_waiting : Bytes → Option (Unit {0}) → Node → Node
cancel_waiting id none n = n
cancel_waiting id (some u) n =
    say (decides id (decline (text "the peer disconnected")))
      (record n { transfers = record n.transfers { waiters = remove id n.transfers.waiters } })

abbrev pub drop_out : Bytes → Node → Node
drop_out id n = record n {
  transfers = record n.transfers { out_peer = remove id n.transfers.out_peer };
}

-- The loop over `dead_out`, the outgoing transfers to a peer.
unfoldable pub cancel_outgoing : List (Bytes × Text) → Node → Node
unfolding cancel_waiting
cancel_outgoing [] n = n
cancel_outgoing ((id, peer_id) ∷ m) n =
    cancel_outgoing m (drop_out id (cancel_waiting id (lookup id n.transfers.waiters) n))

unfoldable pub cancel_transfers_with : Text → Node → Node
unfolding finish_cancelled cancel_outgoing
cancel_transfers_with peer_id n =
    let m = set_active (retain (λ a. not (from_peer peer_id a)) n.transfers.active) n in
    let m' = set_offers (retain (λ o. not (key_eq o.peer_id peer_id)) m.transfers.offers) m in
    finish_cancelled (retain (from_peer peer_id) n.transfers.active)
      (cancel_outgoing (retain (λ p. key_eq p peer_id) m'.transfers.out_peer) m')
