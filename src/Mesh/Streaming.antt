-- ===== src/Mesh/Streaming.antt =====
-- core/src/files.rs: an outgoing transfer keeps the map of peers in order.
use mesh_chat.Prelude.{
  ℕ, Text, Bytes, text, cat, Option, none, some, List, [], ◌∷◌, Bool, false, All, leb, length, ◌||◌,
  ◌==◌, ◌+◌,
}
use mesh_chat.Error.{Error, IoError, io, Result, ok, err, display}
use mesh_chat.Protocol.{encode_chunk, file_offer, file_done, file_abort, hex}
use mesh_chat.Node.{Node, Env, emit, send, link_send}
use mesh_chat.Node.Events.{status, file_progress}
use mesh_chat.Node.TransferState.{Decision, accept, decline}
use mesh_chat.Node.Quiet.{send-Quiet, link_send-Quiet}
use mesh_chat.Files.{progress_interval, add_u64, next_u32}
use mesh_chat.Files.Outgoing.{Read, finish_out}
use mesh_chat.Files.Streaming.{
  Turn, Sending, send_done, send_aborted, link_failed, report, stream_chunk, stream_read,
  stream_loop, stream_opened, answered, register_out, offered, send_file_to,
}
use mesh_chat.Mesh.Linked.{AreLinked, AreLinked-Quiet}
use mesh_chat.Mesh.Admission.Linked.{Keeps, if-AreLinked}
use mesh_chat.Mesh.Sessions.{either-AreLinked}

-- The parts of an outgoing transfer only speak, keep their own books and write the history.
finish_out-Keeps :
    (id : Bytes) (name : Text) (success : Bool) (detail : Text)
    → Keeps (finish_out id name success detail)
unfolding finish_out
finish_out-Keeps id name success detail n h = h

send_aborted-Keeps :
    (env : Env) (s : Sending) (reason detail : Text) → Keeps (send_aborted env s reason detail)
unfolding send_aborted
send_aborted-Keeps env s reason detail n h =
    let c = file_abort (hex s.id) reason in
    finish_out-Keeps s.id s.name false detail (send env s.peer.link c n).1
      (AreLinked-Quiet n (send env s.peer.link c n).1 (send-Quiet env s.peer.link c n) h)

send_done-Keeps : (env : Env) (s : Sending) → Keeps (send_done env s)
unfolding send_done finish_out
send_done-Keeps env s n h =
    let c = file_done (hex s.id) in
    AreLinked-Quiet n (send env s.peer.link c n).1 (send-Quiet env s.peer.link c n) h

report-AreLinked :
    (s : Sending) (sent due : ℕ) (n : Node) → AreLinked n → AreLinked (report s sent due n).1
unfolding report
report-AreLinked s sent due n h =
    either-AreLinked (leb due n.clock || sent == s.size)
      (
        n.clock + progress_interval,
        emit (file_progress (hex s.id) s.name s.peer.info.name sent s.size false) n,
      )
      (due, n) h h

stream_chunk-AreLinked :
    (env : Env) (s : Sending) (seq sent due : ℕ) (bytes : Bytes) (next : ℕ → ℕ → ℕ → Node → Node)
    (r : Result Error (Unit {0}) × Node)
    → ((q t d : ℕ) → Keeps (next q t d))
    → AreLinked r.1
    → AreLinked (stream_chunk env s seq sent due bytes next r)
unfolding stream_chunk link_failed finish_out
stream_chunk-AreLinked env s seq sent due bytes next (err e, n) k h = h
stream_chunk-AreLinked env s seq sent due bytes next (ok u, n) k h =
    let total = add_u64 sent (length bytes) in
    k (next_u32 seq) total (report s total due n).0 (report s total due n).1
      (report-AreLinked s total due n h)

stream_read-Keeps :
    (env : Env) (s : Sending) (seq sent due : ℕ) (r : Read) (next : ℕ → ℕ → ℕ → Node → Node)
    → ((q t d : ℕ) → Keeps (next q t d))
    → Keeps (stream_read env s seq sent due r next)
unfolding stream_read
stream_read-Keeps env s seq sent due (err e) next k n h =
    send_aborted-Keeps env s (display (io e)) (cat (text "read error: " ∷ display (io e) ∷ [])) n h
stream_read-Keeps env s seq sent due (ok []) next k n h = send_done-Keeps env s n h
stream_read-Keeps env s seq sent due (ok (b ∷ bytes)) next k n h =
    let payload = encode_chunk s.id seq (b ∷ bytes) in
    stream_chunk-AreLinked env s seq sent due (b ∷ bytes) next (link_send env s.peer.link payload n)
      k
      (AreLinked-Quiet n (link_send env s.peer.link payload n).1
        (link_send-Quiet env s.peer.link payload n) h)

-- What the other threads do between two reads.
abbrev pub TurnKeeps : Turn → Type 0
TurnKeeps t = Keeps t.meanwhile

stream_loop-Keeps :
    (env : Env) (s : Sending) (turns : List Turn) (seq sent due : ℕ)
    → All (λ t. TurnKeeps t) turns
    → Keeps (stream_loop env s turns seq sent due)
unfolding stream_loop
stream_loop-Keeps env s [] seq sent due k n h =
    if-AreLinked n.running (send_done env s n) n (send_done-Keeps env s n h) h
stream_loop-Keeps env s (t ∷ turns) seq sent due k n h =
    let m = t.meanwhile n in
    if-AreLinked m.running (stream_read env s seq sent due t.read (stream_loop env s turns) m) m
      (stream_read-Keeps env s seq sent due t.read (stream_loop env s turns)
        (λ q u d. stream_loop-Keeps env s turns q u d k.1) m (k.0 n h))
      (k.0 n h)

-- A file that was opened, with what happens while it is read.
abbrev pub OpenedKeeps : Result IoError (List Turn) → Type 0
OpenedKeeps (err e) = Unit
OpenedKeeps (ok turns) = All (λ t. TurnKeeps t) turns

answered-Keeps :
    (env : Env) (s : Sending) (d : Option Decision) (opened : Result IoError (List Turn))
    → OpenedKeeps opened
    → Keeps (answered env s d opened)
unfolding answered stream_opened finish_out
answered-Keeps env s none opened k n h =
    send_aborted-Keeps env s (text "no answer in time")
      (cat (s.peer.info.name ∷ text " did not answer in time" ∷ [])) n h
answered-Keeps env s (some accept) (err e) k n h =
    send_aborted-Keeps env s (display (io e))
      (cat (text "could not read the file: " ∷ display (io e) ∷ [])) n h
answered-Keeps env s (some accept) (ok turns) k n h =
    stream_loop-Keeps env s turns 0 0 n.clock k n h
answered-Keeps env s (some (decline reason)) opened k n h = h

offered-AreLinked :
    (env : Env) (s : Sending) (meanwhile : Node → Node) (d : Option Decision)
    (opened : Result IoError (List Turn)) (r : Result Error (Unit {0}) × Node)
    → Keeps meanwhile
    → OpenedKeeps opened
    → AreLinked r.1
    → AreLinked (offered env s meanwhile d opened r)
unfolding offered finish_out
offered-AreLinked env s meanwhile d opened (err e, n) w k h = h
offered-AreLinked env s meanwhile d opened (ok u, n) w k h =
    let m =
      emit
        (status (
          cat (
            text "Offered "
            ∷ s.name
            ∷ text " to "
            ∷ s.peer.info.name
            ∷ text " - waiting for a reply"
            ∷ [])))
        n in
    answered-Keeps env s d opened k (meanwhile m) (w m h)

pub send_file_to-Keeps :
    (env : Env) (s : Sending) (meanwhile : Node → Node) (d : Option Decision)
    (opened : Result IoError (List Turn))
    → Keeps meanwhile
    → OpenedKeeps opened
    → Keeps (send_file_to env s meanwhile d opened)
unfolding send_file_to
send_file_to-Keeps env s meanwhile d opened w k n h =
    let c = file_offer (hex s.id) s.name s.size s.sha in
    let m = register_out s n in
    offered-AreLinked env s meanwhile d opened (send env s.peer.link c m) w k
      (AreLinked-Quiet m (send env s.peer.link c m).1 (send-Quiet env s.peer.link c m) h)
