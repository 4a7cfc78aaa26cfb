-- ===== src/Mesh/Admission/Answering.antt =====
-- core/src/mesh.rs: the host's answer to a pending request.
use mesh_chat.Prelude.{Text, text, cat, Option, none, some, List, [], ◌∷◌, map, Bool, true, false}
use mesh_chat.Prelude.Assoc.{lookup, insert, remove}
use mesh_chat.Error.{Error, protocol, Result, ok, err}
use mesh_chat.Protocol.{PeerInfo, welcome, peer_joined}
use mesh_chat.History.{system_record}
use mesh_chat.Node.{Node, Env, Peer, Pending, emit, push_record, connected_peers, send}
use mesh_chat.Node.Events.{Event, join_resolved}
use mesh_chat.Mesh.{attach_peer, report_failure}
use mesh_chat.Mesh.Admission.{reject}

unfoldable pub announce : Env → PeerInfo → List Peer → Node → Node
announce env info [] n = n
announce env info (p ∷ peers) n = announce env info peers (
    report_failure (cat (text "could not tell " ∷ p.info.name ∷ text " about the new peer: " ∷ []))
      (send env p.link (peer_joined info) n))

unfoldable pub welcomed :
    Env → Text → Pending → Result Error (Unit {0}) × Node → Result Error (Unit {0}) × Node
welcomed env req p (err e, n) = (err e, n)
welcomed env req p (ok u, n) =
    (ok tt, attach_peer env p.info p.link (emit (join_resolved req true) n))

unfoldable pub accept : Env → Text → Pending → Node → Result Error (Unit {0}) × Node
unfolding announce welcomed
accept env req p n =
    let m = announce env p.info (connected_peers n) n in
    let m' = record m { roster = insert p.info.id p.info m.roster } in
    welcomed env req p
      (send env p.link (welcome m'.room m'.me (map (λ q. q.info) (connected_peers n))) m')

unfoldable pub decline : Env → Text → Pending → Node → Node
decline env req p n = emit (join_resolved req false) (
    emit (Event.system (cat (text "Declined " ∷ p.info.name ∷ text "'s request" ∷ []))) (
      push_record
        (system_record n.wall (cat (text "Declined a join request from " ∷ p.info.name ∷ [])))
        (reject env p.link (text "the host declined your request to join") n)))

unfoldable pub decide : Env → Text → Bool → Option Pending → Node → Result Error (Unit {0}) × Node
unfolding accept decline
decide env req accepted none n = (err (protocol (text "that join request is no longer pending")), n)
decide env req false (some p) n = (ok tt, decline env req p n)
decide env req true (some p) n = accept env req p n

unfoldable pub approve : Env → Text → Bool → Node → Result Error (Unit {0}) × Node
unfolding decide
approve env req accepted n =
    decide env req accepted (lookup req n.pending) (record n { pending = remove req n.pending })
