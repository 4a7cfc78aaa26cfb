-- ===== src/Mesh/Sessions.antt =====
-- core/src/mesh.rs: the reader of a link and chat keep the map of peers in order.
use mesh_chat.Prelude.{Text, Bytes, text, Bool, true, false, ltb, if◌then◌else◌}
use mesh_chat.Error.{Error, Result, ok, err, config}
use mesh_chat.Text.{byte_len, is_empty}
use mesh_chat.Text.Trim.{trim}
use mesh_chat.Protocol.{Control, Frame, Checked, returns, panics, decode, chat}
use mesh_chat.History.{message_record}
use mesh_chat.Node.{Node, Env, Peer, emit, push_record, connected_peers}
use mesh_chat.Node.Events.{Event}
use mesh_chat.Node.Quiet.{Quiet-trans}
use mesh_chat.Files.{handle_chunk, handle_file_control}
use mesh_chat.Files.Integrity.{After}
use mesh_chat.Mesh.{
  handle_control, handle_frame, go_on, reader_step, send_chat, say_chat, deliver_chat, alone,
  describe_disconnect,
}
use mesh_chat.Mesh.Effects.{deliver_chat-Quiet, alone-Quiet}
use mesh_chat.Mesh.Linked.{
  AreLinked, AreLinked-Quiet, AreLinked-SameLinks, SameLinks, peer_gone-AreLinked,
}
use mesh_chat.Mesh.FileLinks.{handle_chunk-SameLinks, handle_file_control-SameLinks, after_call}
use mesh_chat.Mesh.Admission.Linked.{Keeps}

After-AreLinked :
    (n : Node) (r : Checked Node)
    → After (λ m. SameLinks n m) r
    → AreLinked n
    → After (λ m. AreLinked m) r
After-AreLinked n (returns m) s h = AreLinked-SameLinks n m s h
After-AreLinked n panics s h = tt

handle_control-AreLinked :
    (env : Env) (p : Peer) (c : Control) (n : Node)
    → AreLinked n
    → After (λ m. AreLinked m) (handle_control env p c n)
unfolding handle_control
handle_control-AreLinked env p (Control.chat i f m t b) n h = h
handle_control-AreLinked env p (Control.peer_joined info) n h = h
handle_control-AreLinked env p (Control.peer_left i m) n h = h
handle_control-AreLinked env p Control.bye n h =
    peer_gone-AreLinked env p (text "the peer closed the room") n h
handle_control-AreLinked env p (Control.file_offer t m s d) n h =
    After-AreLinked n (handle_file_control env p (Control.file_offer t m s d) n)
      (handle_file_control-SameLinks env p (Control.file_offer t m s d) n) h
handle_control-AreLinked env p (Control.file_accept t) n h =
    After-AreLinked n (handle_file_control env p (Control.file_accept t) n)
      (handle_file_control-SameLinks env p (Control.file_accept t) n) h
handle_control-AreLinked env p (Control.file_decline t r) n h =
    After-AreLinked n (handle_file_control env p (Control.file_decline t r) n)
      (handle_file_control-SameLinks env p (Control.file_decline t r) n) h
handle_control-AreLinked env p (Control.file_done t) n h =
    After-AreLinked n (handle_file_control env p (Control.file_done t) n)
      (handle_file_control-SameLinks env p (Control.file_done t) n) h
handle_control-AreLinked env p (Control.file_abort t r) n h =
    After-AreLinked n (handle_file_control env p (Control.file_abort t r) n)
      (handle_file_control-SameLinks env p (Control.file_abort t r) n) h
handle_control-AreLinked env p (Control.rejected r) n h = h
handle_control-AreLinked env p (Control.hello v r q) n h = h
handle_control-AreLinked env p (Control.mesh_hello v r q) n h = h
handle_control-AreLinked env p (Control.welcome r q ps) n h = h
handle_control-AreLinked env p (Control.mesh_ack q) n h = h

handle_frame-AreLinked :
    (env : Env) (p : Peer) (f : Result Error Frame) (n : Node)
    → AreLinked n
    → After (λ m. AreLinked m) (handle_frame env p f n)
unfolding handle_frame
handle_frame-AreLinked env p (ok (Frame.control c)) n h = handle_control-AreLinked env p c n h
handle_frame-AreLinked env p (ok (Frame.chunk id seq bytes)) n h =
    AreLinked-SameLinks n (handle_chunk env p id seq bytes n)
      (handle_chunk-SameLinks env p id seq bytes n) h
handle_frame-AreLinked env p (err e) n h = h

go_on-After :
    (r : Checked Node)
    → After (λ m. AreLinked m) r
    → After (λ m. AreLinked m) (after_call (go_on r))
unfolding go_on
go_on-After (returns n) h = h
go_on-After panics h = tt

pub reader_step-AreLinked :
    (env : Env) (p : Peer) (received : Result Error Bytes) (n : Node)
    → AreLinked n
    → After (λ m. AreLinked m) (after_call (reader_step env p received n))
unfolding reader_step
reader_step-AreLinked env p (ok buf) n h =
    go_on-After (handle_frame env p (decode env.json buf) n)
      (handle_frame-AreLinked env p (decode env.json buf) n h)
reader_step-AreLinked env p (err e) n h = peer_gone-AreLinked env p (describe_disconnect e) n h

pub either-AreLinked {ℓ} :
    {A : Type ℓ} (b : Bool) (r q : A × Node)
    → AreLinked r.1
    → AreLinked q.1
    → AreLinked (if b then r else q).1
either-AreLinked true r q h k = h
either-AreLinked false r q h k = k

say_chat-Keeps : (env : Env) (id body : Text) → Keeps (say_chat env id body)
unfolding say_chat
say_chat-Keeps env id body n h =
    let m =
      emit (Event.chat n.me.id n.me.name n.wall body true)
        (push_record (message_record n.me.name n.me.id n.wall body) n) in
    let c = chat id n.me.id n.me.name n.wall body in
    let k = alone (connected_peers m) m in
    AreLinked-Quiet m (deliver_chat env c (connected_peers m) k)
      (Quiet-trans m k (deliver_chat env c (connected_peers m) k)
        (alone-Quiet (connected_peers m) m) (deliver_chat-Quiet env c (connected_peers m) k))
      h

pub send_chat-Keeps : (env : Env) (id body : Text) → Keeps (λ n. (send_chat env id body n).1)
unfolding send_chat
send_chat-Keeps env id body n h =
    either-AreLinked (is_empty (trim body)) (ok tt, n)
      (if ltb 8000 (byte_len (trim body))
        then (err (config (text "that message is too long")), n)
        else (ok tt, say_chat env id (trim body) n))
      h
      (either-AreLinked (ltb 8000 (byte_len (trim body)))
        (err (config (text "that message is too long")), n) (ok tt, say_chat env id (trim body) n) h
        (say_chat-Keeps env id (trim body) n h))
