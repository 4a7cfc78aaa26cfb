-- ===== src/Node/Quiet.antt =====
-- core/src/mesh.rs: a node that did something to the outside, with its own state as it was.
use mesh_chat.Prelude.{
  Bytes, List, [], ◌∷◌, ◌++◌, append_assoc, append-nil, ltb, length, ◌≡◌, refl, sym, ap, Bool-cases,
  inl, inr,
}
use mesh_chat.Error.{Result-cases}
use mesh_chat.Protocol.{Control, encode_control}
use mesh_chat.Node.{Node, Env, Link, Effect, say, link_send, send, max_plaintext}

abbrev pub Quiet : Node → Node → Type 0
Quiet n m = (es : List Effect) × (m ≡ record n { out = n.out ++ es })

pub Quiet-refl : (n : Node) → Quiet n n
Quiet-refl n = ([], ap (λ (o : List Effect). record n { out = o }) (sym (append-nil n.out)))

pub Quiet-trans : (n m k : Node) → Quiet n m → Quiet m k → Quiet n k
Quiet-trans n m k (es, e) (fs, f) = (es ++ fs, rw (f, e, append_assoc))

pub say-Quiet : (e : Effect) (n : Node) → Quiet n (say e n)
say-Quiet e n = (e ∷ [], refl)

pub link_send-Quiet :
    (env : Env) (link : Link) (payload : Bytes) (n : Node)
    → Quiet n (link_send env link payload n).1
unfolding link_send
link_send-Quiet env link payload n = elim (Bool-cases (ltb max_plaintext (length payload))) [
  | inl h ↦ rw h (Quiet-refl n)
  | inr h ↦ rw h (say-Quiet (Effect.sends link payload) n)
]

pub send-Quiet : (env : Env) (link : Link) (c : Control) (n : Node) → Quiet n (send env link c n).1
unfolding send
send-Quiet env link c n = elim (Result-cases (encode_control env.json c)) [
  | inl (bytes, h) ↦ rw h (link_send-Quiet env link bytes n)
  | inr (e, h) ↦ rw h (Quiet-refl n)
]
