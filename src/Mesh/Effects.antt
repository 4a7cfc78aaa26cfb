-- ===== src/Mesh/Effects.antt =====
-- core/src/mesh.rs: the loops that send and close, and the handlers that only speak.
use mesh_chat.Prelude.{ℕ, Text, text, cat, Option, none, some, List, [], ◌∷◌}
use mesh_chat.Error.{Error, display, Result, ok, err}
use mesh_chat.Protocol.{Control, bye}
use mesh_chat.Node.{Node, Env, Peer, Link, Effect, closes, closes_listener, say, send}
use mesh_chat.Node.Events.{Event, error}
use mesh_chat.Node.Quiet.{Quiet, Quiet-refl, Quiet-trans, say-Quiet, send-Quiet}
use mesh_chat.Mesh.{
  send_each, report_failure, deliver_chat, alone, say_bye, close_links, close_listener,
}

pub send_each-Quiet :
    (env : Env) (c : Control) (peers : List Peer) (n : Node) → Quiet n (send_each env c peers n)
unfolding send_each
send_each-Quiet env c [] n = Quiet-refl n
send_each-Quiet env c (p ∷ peers) n =
    Quiet-trans n (send env p.link c n).1 (send_each env c peers (send env p.link c n).1)
      (send-Quiet env p.link c n) (send_each-Quiet env c peers (send env p.link c n).1)

pub report_failure-Quiet :
    (before : Text) (n : Node) (r : Result Error (Unit {0}) × Node)
    → Quiet n r.1
    → Quiet n (report_failure before r)
report_failure-Quiet before n (ok u, m) q = q
report_failure-Quiet before n (err e, m) q =
    Quiet-trans n m (report_failure before (err e, m)) q
      (say-Quiet (Effect.tells (error (cat (before ∷ display e ∷ [])))) m)

pub deliver_chat-Quiet :
    (env : Env) (c : Control) (peers : List Peer) (n : Node) → Quiet n (deliver_chat env c peers n)
unfolding deliver_chat
deliver_chat-Quiet env c [] n = Quiet-refl n
deliver_chat-Quiet env c (p ∷ peers) n =
    let before = cat (text "could not deliver to " ∷ p.info.name ∷ text ": " ∷ []) in
    let m = report_failure before (send env p.link c n) in
    Quiet-trans n m (deliver_chat env c peers m)
      (report_failure-Quiet before n (send env p.link c n) (send-Quiet env p.link c n))
      (deliver_chat-Quiet env c peers m)

pub alone-Quiet : (peers : List Peer) (n : Node) → Quiet n (alone peers n)
unfolding alone
alone-Quiet [] n =
    say-Quiet
      (Effect.tells
        (Event.system (text "nobody is connected yet - that message was not delivered")))
      n
alone-Quiet (p ∷ peers) n = Quiet-refl n

pub say_bye-Quiet : (env : Env) (peers : List Peer) (n : Node) → Quiet n (say_bye env peers n)
unfolding say_bye
say_bye-Quiet env [] n = Quiet-refl n
say_bye-Quiet env (p ∷ peers) n =
    let m = (send env p.link bye n).1 in
    Quiet-trans n m (say_bye env peers (say (closes p.link) m)) (send-Quiet env p.link bye n) (
      Quiet-trans m (say (closes p.link) m) (say_bye env peers (say (closes p.link) m))
        (say-Quiet (closes p.link) m) (say_bye-Quiet env peers (say (closes p.link) m)))

pub close_links-Quiet : (links : List Link) (n : Node) → Quiet n (close_links links n)
unfolding close_links
close_links-Quiet [] n = Quiet-refl n
close_links-Quiet (l ∷ links) n =
    Quiet-trans n (say (closes l) n) (close_links links (say (closes l) n)) (say-Quiet (closes l) n)
      (close_links-Quiet links (say (closes l) n))

pub close_listener-Quiet : (l : Option ℕ) (n : Node) → Quiet n (close_listener l n)
unfolding close_listener
close_listener-Quiet none n = Quiet-refl n
close_listener-Quiet (some l) n = say-Quiet (closes_listener l) n
