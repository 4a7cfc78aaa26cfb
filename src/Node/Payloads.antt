-- ===== src/Node/Payloads.antt =====
-- core/src/mesh.rs: what a node handed to its links, in order.
use mesh_chat.Prelude.{
  ◌≤◌, ◌≡◌, Bytes, List, [], ◌∷◌, ◌++◌, append_assoc, append-nil, length, refl, sym, ap, ◌∙◌, arith,
}
use mesh_chat.Error.{ok}
use mesh_chat.Protocol.{Control, encode_control}
use mesh_chat.Node.{
  Node, Env, Link, Effect, tells, sends, closes, closes_listener, spawns, marks, decides, saves,
  say, send, link_send, send_encoded, max_plaintext,
}

abbrev handed : Effect → List (Link × Bytes)
handed (sends link payload) = (link, payload) ∷ []
handed (tells e) = []
handed (closes link) = []
handed (closes_listener l) = []
handed (spawns t) = []
handed (marks link s) = []
handed (decides t d) = []
handed (saves path content) = []

abbrev pub payloads : List Effect → List (Link × Bytes)
payloads [] = []
payloads (e ∷ es) = handed e ++ payloads es

pub payloads-append : (es fs : List Effect) → payloads (es ++ fs) ≡ payloads es ++ payloads fs
payloads-append [] fs = refl
payloads-append (e ∷ es) fs =
    ap (λ (ps : List (Link × Bytes)). handed e ++ ps) (payloads-append es fs)
    ∙ sym (append_assoc (handed e) (payloads es) (payloads fs))

-- An effect that is no payload.
pub payloads_quiet :
    (e : Effect) (n : Node) → handed e ≡ [] → payloads (say e n).out ≡ payloads n.out
payloads_quiet e n h =
    payloads-append n.out (e ∷ [])
    ∙ ap (λ (ps : List (Link × Bytes)). payloads n.out ++ (ps ++ [])) h
    ∙ append-nil (payloads n.out)

-- A message that has an encoding, of a size that a link takes.
abbrev pub Encodes : Env → Control → Bytes → Type 0
Encodes env c bytes = (encode_control env.json c ≡ ok bytes) × (length bytes ≤ max_plaintext)

-- Such a message is handed to its link, whatever the link answers.
pub send-payloads :
    (env : Env) (link : Link) (c : Control) (bytes : Bytes) (n : Node)
    → Encodes env c bytes
    → send env link c n ≡ (env.deliver n.out link bytes, say (sends link bytes) n)
unfolding send send_encoded link_send
send-payloads env link c bytes n (e, small) = rw e (ground (arith, small))
