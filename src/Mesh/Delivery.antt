-- ===== src/Mesh/Delivery.antt =====
-- core/src/mesh.rs: who is sent what by `send_chat` and `approve`.
use mesh_chat.Prelude.{
  ◌≤◌, ◌≡◌, Text, Bytes, text, cat, List, [], ◌∷◌, ◌++◌, map, append_assoc, append-nil, ltb, true,
  false, refl, sym, ap, ◌∙◌, arith,
}
use mesh_chat.Prelude.Assoc.{values}
use mesh_chat.Error.{Error, Result, ok, err, display}
use mesh_chat.Text.{is_empty, byte_len}
use mesh_chat.Text.Trim.{trim}
use mesh_chat.Protocol.{Control, chat}
use mesh_chat.History.{message_record}
use mesh_chat.Node.{
  Node, Env, Peer, Link, tells, sends, say, emit, push_record, send, connected_peers,
}
use mesh_chat.Node.Events.{Event, error}
use mesh_chat.Node.Payloads.{payloads, payloads-append, payloads_quiet, Encodes, send-payloads}
use mesh_chat.Mesh.{report_failure, deliver_chat, alone, say_chat, send_chat}

abbrev pub each_of : List Peer → Bytes → List (Link × Bytes)
each_of peers bytes = map (λ p. (p.link, bytes)) peers

-- One message, and the report if the link failed.
pub reported-payloads :
    (env : Env) (before : Text) (p : Peer) (c : Control) (bytes : Bytes) (n : Node)
    → Encodes env c bytes
    → payloads (report_failure before (send env p.link c n)).out
      ≡ payloads n.out ++ (p.link, bytes) ∷ []
reported-payloads env before p c bytes n h =
    rw (send-payloads env p.link c bytes n h) (answered (env.deliver n.out p.link bytes))
  where
    answered :
        (r : Result Error (Unit {0}))
        → payloads (report_failure before (r, say (sends p.link bytes) n)).out
          ≡ payloads n.out ++ (p.link, bytes) ∷ []
    answered (ok u) = payloads-append n.out (sends p.link bytes ∷ [])
    answered (err e) =
        payloads_quiet (tells (error (cat (before ∷ display e ∷ [])))) (say (sends p.link bytes) n)
          refl
        ∙ payloads-append n.out (sends p.link bytes ∷ [])

deliver_chat-payloads :
    (env : Env) (c : Control) (bytes : Bytes) (peers : List Peer) (n : Node)
    → Encodes env c bytes
    → payloads (deliver_chat env c peers n).out ≡ payloads n.out ++ each_of peers bytes
unfolding deliver_chat
deliver_chat-payloads env c bytes [] n h = sym (append-nil (payloads n.out))
deliver_chat-payloads env c bytes (p ∷ peers) n h =
    let before = cat (text "could not deliver to " ∷ p.info.name ∷ text ": " ∷ []) in
    deliver_chat-payloads env c bytes peers (report_failure before (send env p.link c n)) h
    ∙ ap (λ (ps : List (Link × Bytes)). ps ++ each_of peers bytes)
        (reported-payloads env before p c bytes n h)
    ∙ append_assoc (payloads n.out) ((p.link, bytes) ∷ []) (each_of peers bytes)

alone-payloads : (peers : List Peer) (n : Node) → payloads (alone peers n).out ≡ payloads n.out
unfolding alone
alone-payloads [] n =
    payloads_quiet
      (tells (Event.system (text "nobody is connected yet - that message was not delivered"))) n
      refl
alone-payloads (p ∷ peers) n = refl

-- A line that is not blank, is not over 8000 bytes and has an encoding that a link takes goes to
-- every linked peer, once and in the same form, whichever of the links fail; and the call succeeds.
pub send_chat-payloads :
    (env : Env) (id body : Text) (bytes : Bytes) (n : Node)
    → is_empty (trim body) ≡ false
    → byte_len (trim body) ≤ 8000
    → Encodes env (chat id n.me.id n.me.name n.wall (trim body)) bytes
    → ((send_chat env id body n).0 ≡ ok tt)
      × (payloads (send_chat env id body n).1.out
          ≡ payloads n.out ++ each_of (values n.peers) bytes)
unfolding send_chat say_chat connected_peers
send_chat-payloads env id body bytes n full short h = rw (full, short_test) (refl, all_sent)
  where
    short_test : ltb 8000 (byte_len (trim body)) ≡ false
    short_test = ground (arith, short)

    shown : Node
    shown =
        emit (Event.chat n.me.id n.me.name n.wall (trim body) true)
          (push_record (message_record n.me.name n.me.id n.wall (trim body)) n)

    all_sent :
        payloads (say_chat env id (trim body) n).out
        ≡ payloads n.out ++ each_of (values n.peers) bytes
    all_sent =
        deliver_chat-payloads env (chat id n.me.id n.me.name n.wall (trim body)) bytes
          (values n.peers) (alone (values n.peers) shown) h
        ∙ ap (λ (ps : List (Link × Bytes)). ps ++ each_of (values n.peers) bytes)
            (alone-payloads (values n.peers) shown
              ∙ payloads_quiet (tells (Event.chat n.me.id n.me.name n.wall (trim body) true)) n
                  refl)
