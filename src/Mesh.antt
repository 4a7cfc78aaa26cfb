-- ===== src/Mesh.antt =====
-- core/src/mesh.rs: links that are up (`attach_peer`, the reader of a link, `handle_control`,
-- `peer_gone`), chat, and teardown. Room setup and admission are the children's.
pub mod Effects
pub mod Linked
pub mod Teardown
pub mod FileLinks
pub mod Sessions
pub mod Streaming
pub mod Offering
pub mod Accepting
pub mod Reachable
pub mod Departures
pub mod PeerGone
pub mod Delivery
pub mod Transfer
mod Runs
pub mod Rooms
pub mod Admission
use mesh_chat.Prelude.{
  ℕ, Text, Bytes, text, cat, Option, none, some, List, [], ◌∷◌, ◌++◌, ltb, ◌&&◌, Bool, true, false,
  if◌then◌else◌, is_some,
}
use mesh_chat.Prelude.Assoc.{Assoc, lookup, insert, remove, values, contains_key}
use mesh_chat.Error.{
  Error, IoError, ErrorKind, unexpected_eof, io, config, display, Result, ok, err,
}
use mesh_chat.Text.{byte_len, is_empty}
use mesh_chat.Text.Trim.{trim}
use mesh_chat.Protocol.{
  ℤ, PeerId, PeerInfo, Control, Frame, Checked, returns, panics, rejected, peer_joined, peer_left,
  chat, file_offer, file_accept, file_decline, file_done, file_abort, bye, decode,
}
use mesh_chat.History.{message_record, system_record}
use mesh_chat.Names.{sanitize_name}
use mesh_chat.Node.{
  Node, Env, Peer, Pending, Link, Effect, sends, closes, closes_listener, spawns, marks, reads, say,
  emit, push_record, is_host_role, connected_peers, link_send, send,
}
use mesh_chat.Node.Events.{Event, PeerState, connected, disconnected, error}
use mesh_chat.Files.{handle_file_control, handle_chunk, cancel_transfers_with}

abbrev pub linked : PeerInfo → Link → Peer
linked info link = record { info = info; link = link; state = connected }

unfoldable pub attach_peer : Env → PeerInfo → Link → Node → Node
attach_peer env info link n =
    let p = linked info link in
    if n.running
    then say (spawns (reads p)) (
        emit
          (Event.peer info.id info.name connected
            (cat (info.addr ∷ text " · " ∷ env.fingerprint link ∷ [])))
          (push_record (system_record n.wall (cat (info.name ∷ text " connected" ∷ [])))
            (record n { roster = insert info.id info n.roster; peers = insert info.id p n.peers })))
    else say (closes link) n

-- `for p in self.connected_peers() { let _ = p.send(&c); }`
unfoldable pub send_each : Env → Control → List Peer → Node → Node
send_each env c [] n = n
send_each env c (p ∷ peers) n = send_each env c peers (send env p.link c n).1

-- A failure is reported, with a message before it.
abbrev pub report_failure : Text → Result Error (Unit {0}) × Node → Node
report_failure before (ok u, n) = n
report_failure before (err e, n) = emit (error (cat (before ∷ display e ∷ []))) n

-- peer_gone after the peer was found in the map and taken out of it.
pub gone : Env → Peer → Text → Node → Node
gone env p reason n =
    let m =
      cancel_transfers_with p.info.id (say (closes p.link) (say (marks p.link disconnected) n)) in
    let m' =
      if is_host_role n.role
      then send_each env (peer_left p.info.id p.info.name) (connected_peers m) m
      else m in
    emit (Event.peer p.info.id p.info.name disconnected reason) (
      push_record
        (system_record m'.wall
          (cat (p.info.name ∷ text " disconnected (" ∷ reason ∷ text ")" ∷ [])))
        m')

-- What `peer_gone` takes out under the lock, if the peer is in the map.
abbrev pub taken_out : Peer → Node → Node
taken_out p n = record n {
  peers = remove p.info.id n.peers;
  roster = if is_host_role n.role then remove p.info.id n.roster else n.roster;
}

unfoldable pub peer_gone : Env → Peer → Text → Node → Node
unfolding gone
peer_gone env p reason n =
    if contains_key p.info.id n.peers then gone env p reason (taken_out p n) else n

unfoldable pub handle_control : Env → Peer → Control → Node → Checked Node
handle_control env p (chat id from name ts body) n = returns (
    emit (Event.chat from (sanitize_name name) ts body false)
      (push_record (message_record (sanitize_name name) from ts body) n))
handle_control env p (peer_joined info) n = returns (
    emit
      (Event.system
        (cat (info.name ∷ text " was approved by the host and will connect directly" ∷ [])))
      (record n { roster = insert info.id info n.roster }))
handle_control env p (peer_left id name) n = returns (
    emit (Event.system (cat (name ∷ text " left the room" ∷ [])))
      (record n { roster = remove id n.roster }))
handle_control env p bye n = returns (peer_gone env p (text "the peer closed the room") n)
handle_control env p (file_offer transfer name size sha256) n =
    handle_file_control env p (file_offer transfer name size sha256) n
handle_control env p (file_accept transfer) n = handle_file_control env p (file_accept transfer) n
handle_control env p (file_decline transfer reason) n =
    handle_file_control env p (file_decline transfer reason) n
handle_control env p (file_done transfer) n = handle_file_control env p (file_done transfer) n
handle_control env p (file_abort transfer reason) n =
    handle_file_control env p (file_abort transfer reason) n
handle_control env p (rejected reason) n =
    returns (emit (error (cat (p.info.name ∷ text ": " ∷ reason ∷ []))) n)
handle_control env p c n = returns n

unfoldable pub handle_frame : Env → Peer → Result Error Frame → Node → Checked Node
handle_frame env p (ok (Frame.control c)) n = handle_control env p c n
handle_frame env p (ok (Frame.chunk id seq bytes)) n = returns (handle_chunk env p id seq bytes n)
handle_frame env p (err e) n = returns (
    emit (error (cat (text "malformed message from " ∷ p.info.name ∷ text ": " ∷ display e ∷ [])))
      n)

describe_io : ErrorKind → Text → Text
describe_io unexpected_eof message = text "the peer closed the connection"
describe_io _ message = message

unfoldable pub describe_disconnect : Error → Text
unfolding describe_io
describe_disconnect (io e) = describe_io e.kind (display (io e))
describe_disconnect e = display e

pub go_on : Checked Node → Checked (Bool × Node)
go_on (returns n) = returns (true, n)
go_on panics = panics

-- One round of `reader_loop`: what `recv` returned, and whether the thread goes on.
unfoldable pub reader_step : Env → Peer → Result Error Bytes → Node → Checked (Bool × Node)
unfolding go_on
reader_step env p (ok buf) n = go_on (handle_frame env p (decode env.json buf) n)
reader_step env p (err e) n = returns (false, peer_gone env p (describe_disconnect e) n)

pub deliver_chat : Env → Control → List Peer → Node → Node
deliver_chat env c [] n = n
deliver_chat env c (p ∷ peers) n = deliver_chat env c peers (
    report_failure (cat (text "could not deliver to " ∷ p.info.name ∷ text ": " ∷ []))
      (send env p.link c n))

pub alone : List Peer → Node → Node
alone [] n = emit (Event.system (text "nobody is connected yet - that message was not delivered")) n
alone (p ∷ peers) n = n

-- A body that is not blank and not too long, under a new id.
pub say_chat : Env → Text → Text → Node → Node
unfolding deliver_chat alone
say_chat env id body n =
    let m =
      emit (Event.chat n.me.id n.me.name n.wall body true)
        (push_record (message_record n.me.name n.me.id n.wall body) n) in
    deliver_chat env (chat id n.me.id n.me.name n.wall body) (connected_peers m)
      (alone (connected_peers m) m)

unfoldable pub send_chat : Env → Text → Text → Node → Result Error (Unit {0}) × Node
unfolding say_chat
send_chat env id body n =
    if is_empty (trim body)
    then (ok tt, n)
    else if ltb 8000 (byte_len (trim body))
    then (err (config (text "that message is too long")), n)
    else (ok tt, say_chat env id (trim body) n)

-- `for p in peers { let _ = p.send(&Control::Bye); p.link.close(); }`
unfoldable pub say_bye : Env → List Peer → Node → Node
say_bye env [] n = n
say_bye env (p ∷ peers) n = say_bye env peers (say (closes p.link) (send env p.link bye n).1)

unfoldable pub close_links : List Link → Node → Node
close_links [] n = n
close_links (l ∷ links) n = close_links links (say (closes l) n)

unfoldable pub close_listener : Option ℕ → Node → Node
close_listener none n = n
close_listener (some l) n = say (closes_listener l) n

unfoldable pub pending_links : List Pending → List Link
pending_links [] = []
pending_links (p ∷ ps) = p.link ∷ pending_links ps

unfoldable pub peer_links : List Peer → List Link
peer_links [] = []
peer_links (p ∷ ps) = p.link ∷ peer_links ps

-- The state when everything was taken out of it under the lock.
abbrev pub drained : Node → Node
drained n = record n { running = false; peers = []; pending = []; roster = []; listener = none }

-- The farewell to everybody and everything that was taken out.
unfoldable pub closing : Env → Node → Node
closing env n =
    close_listener n.listener
      (close_links (pending_links (values n.pending)) (say_bye env (values n.peers) (drained n)))

unfoldable pub leave : Env → Node → Node
leave env n =
    if n.running
    then emit (Event.room_closed (text "you left the room"))
        (push_record (system_record n.wall (text "Left the room")) (closing env n))
    else n

-- The state at once after `shutdown_internal` took its part; the requests stay.
abbrev pub shut : Node → Node
shut n = record n { running = false; peers = []; roster = []; listener = none }

unfoldable pub shutdown_internal : Node → Node
shutdown_internal n = close_listener n.listener (close_links (peer_links (values n.peers)) (shut n))
