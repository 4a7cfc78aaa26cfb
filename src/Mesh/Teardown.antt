-- ===== src/Mesh/Teardown.antt =====
-- core/src/mesh.rs: `leave` and `shutdown_internal`.
use mesh_chat.Prelude.{
  ◌≡◌, text, List, [], ◌∷◌, ◌++◌, true, false, Bool-cases, refl, sym, subst, ap, ◌∙◌, inl, inr,
  if_true, if_false,
}
use mesh_chat.Prelude.Assoc.{Assoc, values, Unique}
use mesh_chat.History.{system_record}
use mesh_chat.Node.{Node, Env, Peer, Effect, tells, emit, push_record}
use mesh_chat.Node.Events.{Event}
use mesh_chat.Node.Quiet.{Quiet, Quiet-trans}
use mesh_chat.Mesh.{
  leave, closing, drained, shutdown_internal, shut, say_bye, close_links, close_listener,
  pending_links, peer_links,
}
use mesh_chat.Mesh.Effects.{say_bye-Quiet, close_links-Quiet, close_listener-Quiet}
use mesh_chat.Mesh.Linked.{AreLinked, IsKeyed}

pub closing-Quiet : (env : Env) (n : Node) → Quiet (drained n) (closing env n)
unfolding closing
closing-Quiet env n =
    let said = say_bye env (values n.peers) (drained n) in
    let closed = close_links (pending_links (values n.pending)) said in
    Quiet-trans (drained n) closed (close_listener n.listener closed)
      (Quiet-trans (drained n) said closed (say_bye-Quiet env (values n.peers) (drained n))
        (close_links-Quiet (pending_links (values n.pending)) said))
      (close_listener-Quiet n.listener closed)

shutdown_internal-Quiet : (n : Node) → Quiet (shut n) (shutdown_internal n)
unfolding shutdown_internal
shutdown_internal-Quiet n =
    let closed = close_links (peer_links (values n.peers)) (shut n) in
    Quiet-trans (shut n) closed (close_listener n.listener closed)
      (close_links-Quiet (peer_links (values n.peers)) (shut n))
      (close_listener-Quiet n.listener closed)

-- The last line and the last event.
abbrev farewell : Node → Node → Node
farewell n k =
    emit (Event.room_closed (text "you left the room"))
      (push_record (system_record n.wall (text "Left the room")) k)

-- A node that left is in no room: nothing is left of its peers, its requests, its roster and its
-- listener, and the transcript stays, with one line more.
pub leave_up :
    (env : Env) (n : Node)
    → n.running ≡ true
    → (es : List Effect) × (leave env n ≡ record (drained n) {
      history = n.history ++ system_record n.wall (text "Left the room") ∷ [];
      out = (n.out ++ es) ++ tells (Event.room_closed (text "you left the room")) ∷ [];
    })
unfolding leave
leave_up env n up =
    let q = closing-Quiet env n in
    (q.0, if_true n.running (farewell n (closing env n)) n up ∙ ap (λ (k : Node). farewell n k) q.1)

nothing_linked : (n : Node) → n.peers ≡ [] → AreLinked n
nothing_linked n e =
    subst (λ (ps : Assoc Peer). Unique ps × IsKeyed ps × (n.running ≡ false → ps ≡ [])) (sym e)
      (tt, tt, λ down. refl)

pub leave-AreLinked : (env : Env) (n : Node) → AreLinked n → AreLinked (leave env n)
unfolding leave
leave-AreLinked env n h = elim (Bool-cases n.running) [
  | inl up ↦ nothing_linked (leave env n) (ap (λ (k : Node). k.peers) (leave_up env n up).1)
  | inr down ↦
      subst (λ (k : Node). AreLinked k)
        (sym (if_false n.running (farewell n (closing env n)) n down)) h
]

pub shutdown_internal-AreLinked : (n : Node) → AreLinked (shutdown_internal n)
shutdown_internal-AreLinked n =
    nothing_linked (shutdown_internal n) (ap (λ (k : Node). k.peers) (shutdown_internal-Quiet n).1)
