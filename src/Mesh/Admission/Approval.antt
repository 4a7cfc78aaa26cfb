-- ===== src/Mesh/Admission/Approval.antt =====
-- core/src/mesh.rs: what the host's yes sends, and in which order.
use mesh_chat.Prelude.{
  ◌≡◌, Text, Bytes, text, cat, some, List, [], ◌∷◌, ◌++◌, map, append_assoc, append-nil, true,
  Bool-cases, inl, inr, refl, sym, ap, subst, ◌∙◌, if_true, if_false,
}
use mesh_chat.Prelude.Assoc.{lookup, insert, remove, values}
use mesh_chat.Error.{ok}
use mesh_chat.Protocol.{PeerInfo, Control, peer_joined, welcome}
use mesh_chat.Node.{
  Node, Env, Peer, Pending, Link, Effect, closes, sends, tells, say, emit, send, connected_peers,
}
use mesh_chat.Node.Events.{join_resolved}
use mesh_chat.Node.Payloads.{payloads, payloads-append, payloads_quiet, Encodes, send-payloads}
use mesh_chat.Mesh.{attach_peer, report_failure}
use mesh_chat.Mesh.Delivery.{each_of, reported-payloads}
use mesh_chat.Mesh.Admission.Answering.{announce, welcomed, accept, decide, approve}
use mesh_chat.Mesh.Admission.Incoming.{announce-Quiet}

announce-payloads :
    (env : Env) (info : PeerInfo) (bytes : Bytes) (peers : List Peer) (n : Node)
    → Encodes env (peer_joined info) bytes
    → payloads (announce env info peers n).out ≡ payloads n.out ++ each_of peers bytes
unfolding announce
announce-payloads env info bytes [] n h = sym (append-nil (payloads n.out))
announce-payloads env info bytes (p ∷ peers) n h =
    let before = cat (text "could not tell " ∷ p.info.name ∷ text " about the new peer: " ∷ []) in
    announce-payloads env info bytes peers
      (report_failure before (send env p.link (peer_joined info) n)) h
    ∙ ap (λ (ps : List (Link × Bytes)). ps ++ each_of peers bytes)
        (reported-payloads env before p (peer_joined info) bytes n h)
    ∙ append_assoc (payloads n.out) ((p.link, bytes) ∷ []) (each_of peers bytes)

attach_peer-payloads :
    (env : Env) (info : PeerInfo) (link : Link) (n : Node)
    → payloads (attach_peer env info link n).out ≡ payloads n.out
unfolding attach_peer
attach_peer-payloads env info link n = elim (Bool-cases n.running) [
  | inl up ↦
      ap (λ (k : Node). payloads k.out) (if_true n.running _ (say (closes link) n) up)
      ∙ payloads-append (n.out ++ _ ∷ []) (_ ∷ [])
      ∙ append-nil (payloads (n.out ++ _ ∷ []))
      ∙ payloads-append n.out (_ ∷ [])
      ∙ append-nil (payloads n.out)
  | inr down ↦
      ap (λ (k : Node). payloads k.out) (if_false n.running _ (say (closes link) n) down)
      ∙ payloads_quiet (closes link) n refl
]

-- The host's answer, when the announcements are out.
welcome_sent :
    (env : Env) (req : Text) (p : Pending) (c : Control) (bytes : Bytes) (m : Node)
    → Encodes env c bytes
    → ((log : List Effect) → env.deliver log p.link bytes ≡ ok tt)
    → ((welcomed env req p (send env p.link c m)).0 ≡ ok tt)
      × (payloads (welcomed env req p (send env p.link c m)).1.out
          ≡ payloads m.out ++ (p.link, bytes) ∷ [])
unfolding welcomed
welcome_sent env req p c bytes m h delivered =
    rw (send-payloads env p.link c bytes m h, delivered m.out)
      (
        refl,
        attach_peer-payloads env p.info p.link
              (emit (join_resolved req true) (say (sends p.link bytes) m))
            ∙ payloads_quiet (tells (join_resolved req true)) (say (sends p.link bytes) m) refl
            ∙ payloads-append m.out (sends p.link bytes ∷ []),
      )

-- What `approve` sends in answer to a request: an announcement to each linked peer, then the welcome
-- to the joiner. `announced` and `answer` are the two encoded messages.
abbrev pub sent_on_approval : Node → Pending → Bytes → Bytes → List (Link × Bytes)
sent_on_approval n p announced answer =
    (payloads n.out ++ each_of (values n.peers) announced) ++ (p.link, answer) ∷ []

accept-payloads :
    (env : Env) (req : Text) (p : Pending) (announced answer : Bytes) (n : Node)
    → Encodes env (peer_joined p.info) announced
    → Encodes env (welcome n.room n.me (map (λ q. q.info) (values n.peers))) answer
    → ((log : List Effect) → env.deliver log p.link answer ≡ ok tt)
    → ((accept env req p n).0 ≡ ok tt)
      × (payloads (accept env req p n).1.out ≡ sent_on_approval n p announced answer)
unfolding accept connected_peers
accept-payloads env req p announced answer n a w delivered =
    let told = announce-payloads env p.info announced (values n.peers) n a in
    let (es, e) = announce-Quiet env p.info (values n.peers) n in
    let r = from_announced (announce env p.info (values n.peers) n) es e in
    (r.0, r.1 ∙ ap (λ (ps : List (Link × Bytes)). ps ++ (p.link, answer) ∷ []) told)
  where
    from_announced :
        (m : Node) (es : List Effect)
        → m ≡ record n { out = n.out ++ es }
        → let m' = record m { roster = insert p.info.id p.info m.roster } in
          let c = welcome m'.room m'.me (map (λ (q : Peer). q.info) (values n.peers)) in
          ((welcomed env req p (send env p.link c m')).0 ≡ ok tt)
          × (payloads (welcomed env req p (send env p.link c m')).1.out
              ≡ payloads m.out ++ (p.link, answer) ∷ [])
    from_announced m es e =
        subst
          (λ (k : Node).
            let k' = record k { roster = insert p.info.id p.info k.roster } in
            let c = welcome k'.room k'.me (map (λ (q : Peer). q.info) (values n.peers)) in
            ((welcomed env req p (send env p.link c k')).0 ≡ ok tt)
            × (payloads (welcomed env req p (send env p.link c k')).1.out
                ≡ payloads k.out ++ (p.link, answer) ∷ []))
          (sym e)
          (welcome_sent env req p (welcome n.room n.me (map (λ q. q.info) (values n.peers))) answer
            (record n { out = n.out ++ es; roster = insert p.info.id p.info n.roster }) w delivered)

-- When the host approves a request that waits, both messages have an encoding that a link takes, and
-- the joiner's link takes the welcome: every linked peer is sent the announcement of the newcomer,
-- whichever of their links fail, and only then the joiner is sent the welcome, which names those same
-- peers; nobody is sent anything else, and the call succeeds.
pub approve-payloads :
    (env : Env) (req : Text) (p : Pending) (announced answer : Bytes) (n : Node)
    → lookup req n.pending ≡ some p
    → Encodes env (peer_joined p.info) announced
    → Encodes env (welcome n.room n.me (map (λ q. q.info) (values n.peers))) answer
    → ((log : List Effect) → env.deliver log p.link answer ≡ ok tt)
    → ((approve env req true n).0 ≡ ok tt)
      × (payloads (approve env req true n).1.out ≡ sent_on_approval n p announced answer)
unfolding approve decide
approve-payloads env req p announced answer n found a w delivered = rw found (
    accept-payloads env req p announced answer (record n { pending = remove req n.pending }) a w
      delivered)
