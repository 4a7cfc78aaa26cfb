-- ===== src/Files/Streaming.antt =====
-- core/src/files.rs: the thread that sends a file to one peer.
use mesh_chat.Prelude.{
  ℕ, ◌+◌, Text, Bytes, text, cat, Option, none, some, List, [], ◌∷◌, leb, ◌==◌, ◌||◌, length, true,
  false, if◌then◌else◌,
}
use mesh_chat.Prelude.Assoc.{insert}
use mesh_chat.Error.{Error, IoError, io, display, Result, ok, err}
use mesh_chat.Protocol.{file_offer, file_done, file_abort, hex, encode_chunk}
use mesh_chat.History.{file_record}
use mesh_chat.Node.{Node, Env, Peer, emit, push_record, link_send, send}
use mesh_chat.Node.Events.{status, file_progress}
use mesh_chat.Node.TransferState.{Decision, accept, decline}
use mesh_chat.Files.{progress_interval, add_u64, next_u32}
use mesh_chat.Files.Outgoing.{Read, finish_out}

-- One turn of the loop: what other threads do before it, and what the read returns.
pub record Turn : Type 0 where
  pub meanwhile : Node → Node
  pub read : Read

-- The file as it is offered: the thread's arguments and its locals.
pub record Sending : Type 0 where
  pub peer : Peer
  pub id : Bytes
  pub name : Text
  pub size : ℕ
  pub sha : Text

-- The last part: everything was sent.
unfoldable pub send_done : Env → Sending → Node → Node
send_done env s n =
    let m = (send env s.peer.link (file_done (hex s.id)) n).1 in
    finish_out s.id s.name true (cat (text "sent to " ∷ s.peer.info.name ∷ [])) (
      push_record
        (file_record m.me.name m.me.id m.wall (
          cat (
            text "sent "
            ∷ s.name
            ∷ text " ("
            ∷ env.human_size s.size
            ∷ text ") to "
            ∷ s.peer.info.name
            ∷ [])))
        m)

unfoldable pub send_aborted : Env → Sending → Text → Text → Node → Node
send_aborted env s reason detail n =
    finish_out s.id s.name false detail (send env s.peer.link (file_abort (hex s.id) reason) n).1

unfoldable pub link_failed : Sending → Error → Node → Node
link_failed s e n =
    finish_out s.id s.name false
      (cat (text "link to " ∷ s.peer.info.name ∷ text " failed: " ∷ display e ∷ [])) n

-- When progress is due next, and the node after the progress of one chunk.
unfoldable pub report : Sending → ℕ → ℕ → Node → ℕ × Node
report s sent due n =
    if leb due n.clock || sent == s.size
    then (
      n.clock + progress_interval,
      emit (file_progress (hex s.id) s.name s.peer.info.name sent s.size false) n,
    )
    else (due, n)

-- What follows a read and a chunk that was sent, when `next` is the rest of the loop.
unfoldable pub stream_chunk :
    Env
    → Sending
    → ℕ
    → ℕ
    → ℕ
    → Bytes
    → (ℕ → ℕ → ℕ → Node → Node)
    → Result Error (Unit {0}) × Node
    → Node
unfolding report link_failed
stream_chunk env s seq sent due bytes next (err e, n) = link_failed s e n
stream_chunk env s seq sent due bytes next (ok u, n) =
    let total = add_u64 sent (length bytes) in
    next (next_u32 seq) total (report s total due n).0 (report s total due n).1

unfoldable pub stream_read :
    Env → Sending → ℕ → ℕ → ℕ → Read → (ℕ → ℕ → ℕ → Node → Node) → Node → Node
unfolding send_aborted stream_chunk
stream_read env s seq sent due (err e) next n =
    send_aborted env s (display (io e)) (cat (text "read error: " ∷ display (io e) ∷ [])) n
stream_read env s seq sent due (ok []) next n = send_done env s n
stream_read env s seq sent due (ok (b ∷ bytes)) next n =
    stream_chunk env s seq sent due (b ∷ bytes) next
      (link_send env s.peer.link (encode_chunk s.id seq (b ∷ bytes)) n)

-- The loop, from the chunk `seq` on, when `sent` bytes were sent. It has one turn for each read,
-- and after the last turn the file is at its end.
unfoldable pub stream_loop : Env → Sending → List Turn → ℕ → ℕ → ℕ → Node → Node
unfolding stream_read send_done
stream_loop env s [] seq sent due n = if n.running then send_done env s n else n
stream_loop env s (t ∷ turns) seq sent due n =
    let next = stream_loop env s turns in
    let m = t.meanwhile n in if m.running then stream_read env s seq sent due t.read next m else m

-- The decision of the recipient, or none in time.
unfoldable pub stream_opened : Env → Sending → Result IoError (List Turn) → Node → Node
unfolding send_aborted
stream_opened env s (err e) n =
    send_aborted env s (display (io e))
      (cat (text "could not read the file: " ∷ display (io e) ∷ [])) n
stream_opened env s (ok turns) n = stream_loop env s turns 0 0 n.clock n

unfoldable pub answered : Env → Sending → Option Decision → Result IoError (List Turn) → Node → Node
unfolding stream_opened
answered env s none opened n =
    send_aborted env s (text "no answer in time")
      (cat (s.peer.info.name ∷ text " did not answer in time" ∷ [])) n
answered env s (some accept) opened n = stream_opened env s opened n
answered env s (some (decline reason)) opened n =
    finish_out s.id s.name false
      (cat (s.peer.info.name ∷ text " declined (" ∷ reason ∷ text ")" ∷ [])) n

-- The bookkeeping before the offer.
abbrev pub register_out : Sending → Node → Node
register_out s n = record n {
  transfers = record n.transfers {
    waiters = insert s.id tt n.transfers.waiters;
    out_peer = insert s.id s.peer.info.id n.transfers.out_peer;
  };
}

unfoldable pub offered :
    Env
    → Sending
    → (Node → Node)
    → Option Decision
    → Result IoError (List Turn)
    → Result Error (Unit {0}) × Node
    → Node
unfolding answered
offered env s meanwhile decision opened (err e, n) =
    finish_out s.id s.name false (cat (text "could not send the offer: " ∷ display e ∷ [])) n
offered env s meanwhile decision opened (ok u, n) = answered env s decision opened (
    meanwhile (
      emit
        (status (
          cat (
            text "Offered "
            ∷ s.name
            ∷ text " to "
            ∷ s.peer.info.name
            ∷ text " - waiting for a reply"
            ∷ [])))
        n))

-- The whole thread, with what other threads do while it waits for the recipient.
unfoldable pub send_file_to :
    Env → Sending → (Node → Node) → Option Decision → Result IoError (List Turn) → Node → Node
unfolding offered
send_file_to env s meanwhile decision opened n =
    offered env s meanwhile decision opened
      (send env s.peer.link (file_offer (hex s.id) s.name s.size s.sha) (register_out s n))
