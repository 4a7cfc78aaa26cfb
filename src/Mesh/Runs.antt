-- ===== src/Mesh/Runs.antt =====
-- Concrete runs of the node.
use mesh_chat.Prelude.{
  map, some, true, key_eq, Text, text, none, [], ◌∷◌, ◌++◌, false, ◌≡◌, ◌≤◌, arith, refl, ◌⊎◌, All,
  if◌then◌else◌, ◌&&◌,
}
use mesh_chat.Prelude.Assoc.{lookup, values, contains_key}
use mesh_chat.Error.{ok}
use mesh_chat.Node.{Pending, Node, new, is_host_role}
use mesh_chat.Mesh.{attach_peer, leave, peer_gone}
use mesh_chat.Mesh.Linked.{AreLinked}
use mesh_chat.Mesh.Reachable.{Runs-AreLinked, chats, leaves, goes_on}
use mesh_chat.Mesh.Departures.{IsClosed, leave-IsClosed, attach_peer-leave}
use mesh_chat.Mesh.PeerGone.{peer_gone_once}
use mesh_chat.Mesh.Admission.{on_hello, hello_problem}
use mesh_chat.Mesh.Admission.Answering.{approve}
use mesh_chat.Mesh.Admission.Hello.{Admits, Parked, TurnedAway, on_hello_verdict}
use mesh_chat.Mesh.{send_chat}
use mesh_chat.Names.{normalize_code}
use mesh_chat.Mesh.Admission.Approval.{sent_on_approval, approve-payloads}
use mesh_chat.Mesh.Delivery.{each_of, send_chat-payloads}
use mesh_chat.Node.Payloads.{payloads, Encodes}
use mesh_chat.Protocol.{peer_joined, welcome, ℤ, chat, encode_control}
use mesh_chat.Text.{is_empty, byte_len, is_whitespace}
use mesh_chat.Text.Trim.{trim, trim_by, trim_start_by}
use mesh_chat.Text.{is_ascii_alphanumeric, to_ascii_uppercase}
use mesh_chat.Samples.{only_id, sample_env, ann, ben, ann_peer, hosting}

abbrev chat_and_leave : Node → Node
chat_and_leave n = leave sample_env (send_chat sample_env [] (104 ∷ 105 ∷ []) n).1

Runs-AreLinked_example : AreLinked (chat_and_leave (new (77 ∷ []) (77 ∷ []) []))
Runs-AreLinked_example = Runs-AreLinked sample_env (77 ∷ []) (77 ∷ []) [] chat_and_leave (
    goes_on (λ n. (send_chat sample_env [] (104 ∷ 105 ∷ []) n).1) (leave sample_env)
      (chats [] (104 ∷ 105 ∷ [])) leaves)

on_hello_verdict_example :
    (Admits 1 (97 ∷ 45 ∷ 98 ∷ []) ben hosting
      × Parked sample_env 9 ben [] hosting
          (on_hello sample_env 9 1 (97 ∷ 45 ∷ 98 ∷ []) ben [] hosting))
    ⊎ ((Admits 1 (97 ∷ 45 ∷ 98 ∷ []) ben hosting → ⊥)
        × TurnedAway 9 hosting (on_hello sample_env 9 1 (97 ∷ 45 ∷ 98 ∷ []) ben [] hosting))
on_hello_verdict_example = on_hello_verdict sample_env 9 1 (97 ∷ 45 ∷ 98 ∷ []) ben [] hosting

-- Ben is let in to the operator, Ann is in the room.
hello_admitted : hello_problem 1 (97 ∷ 45 ∷ 98 ∷ []) ben hosting ≡ none
unfolding hello_problem key_eq normalize_code is_ascii_alphanumeric to_ascii_uppercase new lookup
hello_admitted = refl

hello_known :
    hello_problem 1 (97 ∷ 45 ∷ 98 ∷ []) ann hosting
    ≡ some (text "a peer with that id is already in the room")
unfolding hello_problem key_eq normalize_code is_ascii_alphanumeric to_ascii_uppercase new lookup
    text
hello_known = refl

attach_peer-leave_example :
    (IsClosed 9 (leave sample_env (attach_peer sample_env ben 9 hosting))
      × ((leave sample_env (attach_peer sample_env ben 9 hosting)).peers ≡ []))
    × (IsClosed 9 (attach_peer sample_env ben 9 (leave sample_env hosting))
        × ((attach_peer sample_env ben 9 (leave sample_env hosting)).peers ≡ []))
attach_peer-leave_example = attach_peer-leave sample_env ben 9 hosting refl

leave-IsClosed_example :
    All (λ p. IsClosed p.link (leave sample_env hosting)) (values hosting.peers)
    × All (λ p. IsClosed p.link (leave sample_env hosting)) (values hosting.pending)
leave-IsClosed_example = leave-IsClosed sample_env hosting refl

peer_gone_once_example :
    ((id : Text)
      → lookup id (peer_gone sample_env ann_peer [] hosting).peers
        ≡ (if key_eq ann.id id then none else lookup id hosting.peers))
    × ((id : Text)
        → lookup id (peer_gone sample_env ann_peer [] hosting).roster ≡ (
            if contains_key ann.id hosting.peers && (is_host_role hosting.role && key_eq ann.id id)
            then none
            else lookup id hosting.roster))
    × (peer_gone sample_env ann_peer [] (peer_gone sample_env ann_peer [] hosting)
        ≡ peer_gone sample_env ann_peer [] hosting)
peer_gone_once_example = peer_gone_once sample_env ann_peer [] [] hosting

-- A host without a name, whose lines the sample library can write.
abbrev nameless : Node
nameless = record hosting {
  me = record { id = []; name = []; addr = []; fingerprint = [] };
  wall = ℤ.pos 0;
}

line_full : is_empty (trim (104 ∷ 105 ∷ [])) ≡ false
unfolding trim trim_by trim_start_by is_whitespace
line_full = refl

line_short : byte_len (trim (104 ∷ 105 ∷ [])) ≤ 8000
unfolding trim trim_by trim_start_by is_whitespace byte_len
line_short = omega arith

line_encoded :
    Encodes sample_env (chat [] [] [] (ℤ.pos 0) (trim (104 ∷ 105 ∷ []))) (1 ∷ 4 ∷ 104 ∷ 105 ∷ [])
unfolding trim trim_by trim_start_by is_whitespace encode_control
line_encoded = (refl, omega arith)

send_chat-payloads_example :
    ((send_chat sample_env [] (104 ∷ 105 ∷ []) nameless).0 ≡ ok tt)
    × (payloads (send_chat sample_env [] (104 ∷ 105 ∷ []) nameless).1.out
        ≡ payloads nameless.out ++ each_of (values nameless.peers) (1 ∷ 4 ∷ 104 ∷ 105 ∷ []))
send_chat-payloads_example =
    send_chat-payloads sample_env [] (104 ∷ 105 ∷ []) (1 ∷ 4 ∷ 104 ∷ 105 ∷ []) nameless line_full
      line_short line_encoded

-- A joiner with nothing but an id, whose request waits at the host without a name.
abbrev cid : Pending
cid = record { info = only_id (67 ∷ []); link = 8 }

abbrev asked : Node
asked = record nameless { pending = (49 ∷ [], cid) ∷ []; peers = [] }

asked_found : lookup (49 ∷ []) asked.pending ≡ some cid
unfolding lookup key_eq
asked_found = refl

joined_encoded : Encodes sample_env (peer_joined cid.info) (1 ∷ 5 ∷ 67 ∷ [])
unfolding encode_control
joined_encoded = (refl, omega arith)

welcome_encoded :
    Encodes sample_env
      (welcome asked.room asked.me (map (λ q. q.info) (values asked.peers)))
      (1 ∷ 6 ∷ 65 ∷ 66 ∷ [])
unfolding encode_control
welcome_encoded = (refl, omega arith)

approve-payloads_example :
    ((approve sample_env (49 ∷ []) true asked).0 ≡ ok tt)
    × (payloads (approve sample_env (49 ∷ []) true asked).1.out
        ≡ sent_on_approval asked cid (1 ∷ 5 ∷ 67 ∷ []) (1 ∷ 6 ∷ 65 ∷ 66 ∷ []))
approve-payloads_example =
    approve-payloads sample_env (49 ∷ []) cid (1 ∷ 5 ∷ 67 ∷ []) (1 ∷ 6 ∷ 65 ∷ 66 ∷ []) asked
      asked_found joined_encoded welcome_encoded (λ log. refl)
