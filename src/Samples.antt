-- ===== src/Samples.antt =====
-- Values that the runs of the components share: a JSON library for a few messages, an outside where
-- everything succeeds, and a host with a link.
use mesh_chat.Prelude.{
  List, zero, suc, Text, Bytes, text, [], ◌∷◌, some, true, ◌≡◌, refl, subst, ap, ◌==◌,
  if◌then◌else◌,
}
use mesh_chat.Error.{Result, ok, err}
use mesh_chat.Text.Decimal.{decimal}
use mesh_chat.Transport.{lan}
use mesh_chat.Protocol.{
  ℤ, Json, Control, PeerInfo, bye, rejected, file_done, file_accept, file_abort, file_decline,
}
use mesh_chat.Node.{Node, Env, Peer, host, new}
use mesh_chat.Node.Events.{connected}

-- The messages about a peer with nothing but an id, and the welcome of a host with nothing at all to
-- an empty room.
abbrev joined : Text → Text → Text → Text → Result Text Bytes
joined id [] [] [] = ok (5 ∷ id)
joined id name addr fingerprint = err (text "a newcomer")

abbrev greeted : Text → Text → Text → Text → Text → List PeerInfo → Result Text Bytes
greeted room [] [] [] [] [] = ok (6 ∷ room)
greeted room id name addr fingerprint peers = err (text "a welcome")

abbrev to_vec : Control → Result Text Bytes
to_vec bye = ok (0 ∷ [])
to_vec (rejected reason) = ok (1 ∷ reason)
to_vec (file_done transfer) = ok (2 ∷ transfer)
to_vec (file_accept transfer) = ok (3 ∷ transfer)
to_vec (Control.hello v r p) = err (text "a hello")
to_vec (Control.mesh_hello v r p) = err (text "a mesh hello")
to_vec (Control.welcome r p ps) = greeted r p.id p.name p.addr p.fingerprint ps
to_vec (Control.mesh_ack p) = err (text "an ack")
to_vec (Control.peer_joined p) = joined p.id p.name p.addr p.fingerprint
to_vec (Control.peer_left i m) = err (text "a departure")
to_vec (Control.chat [] [] [] (ℤ.pos zero) body) = ok (4 ∷ body)
to_vec (Control.chat i f m t body) = err (text "a line")
to_vec (Control.file_offer t m s d) = err (text "an offer")
to_vec (file_decline t r) = err (text "a refusal")
to_vec (file_abort t r) = err (text "an abort")

abbrev pub only_id : Text → PeerInfo
only_id id = record { id = id; name = []; addr = []; fingerprint = [] }

abbrev from_slice : Bytes → Result Text Control
from_slice [] = err (text "nothing")
from_slice (kind ∷ rest) =
    if kind == 0
    then ok bye
    else if kind == 1
    then ok (rejected rest)
    else if kind == 2
    then ok (file_done rest)
    else if kind == 3
    then ok (file_accept rest)
    else if kind == 4
    then ok (Control.chat [] [] [] (ℤ.pos 0) rest)
    else if kind == 5
    then ok (Control.peer_joined (only_id rest))
    else if kind == 6
    then ok (Control.welcome rest (only_id []) [])
    else err (text "unknown")

abbrev payload : Result Text Bytes → Bytes
payload (ok bytes) = bytes
payload (err e) = []

joined_law :
    (id name addr fingerprint bytes : Bytes)
    → joined id name addr fingerprint ≡ ok bytes
    → from_slice bytes
      ≡ ok (
          Control.peer_joined
            (record { id = id; name = name; addr = addr; fingerprint = fingerprint }))
joined_law id [] [] [] bytes e =
    subst (λ (b : Bytes). from_slice b ≡ ok (Control.peer_joined (only_id id))) (ap payload e) refl
joined_law id [] [] (c ∷ f) bytes e = cc e
joined_law id [] (c ∷ a) f bytes e = cc e
joined_law id (c ∷ m) a f bytes e = cc e

greeted_law :
    (room id name addr fingerprint : Bytes) (peers : List PeerInfo) (bytes : Bytes)
    → greeted room id name addr fingerprint peers ≡ ok bytes
    → from_slice bytes
      ≡ ok (
          Control.welcome room
            (record { id = id; name = name; addr = addr; fingerprint = fingerprint })
            peers)
greeted_law room [] [] [] [] [] bytes e =
    subst (λ (b : Bytes). from_slice b ≡ ok (Control.welcome room (only_id []) [])) (ap payload e)
      refl
greeted_law room [] [] [] [] (p ∷ ps) bytes e = cc e
greeted_law room [] [] [] (c ∷ f) ps bytes e = cc e
greeted_law room [] [] (c ∷ a) f ps bytes e = cc e
greeted_law room [] (c ∷ m) a f ps bytes e = cc e
greeted_law room (c ∷ i) m a f ps bytes e = cc e

-- What was written is read.
pub law : (c : Control) (bytes : Bytes) → to_vec c ≡ ok bytes → from_slice bytes ≡ ok c
law bye bytes e = subst (λ (b : Bytes). from_slice b ≡ ok bye) (ap payload e) refl
law (rejected r) bytes e = subst (λ (b : Bytes). from_slice b ≡ ok (rejected r)) (ap payload e) refl
law (file_done t) bytes e =
    subst (λ (b : Bytes). from_slice b ≡ ok (file_done t)) (ap payload e) refl
law (file_accept t) bytes e =
    subst (λ (b : Bytes). from_slice b ≡ ok (file_accept t)) (ap payload e) refl
law (Control.hello v r p) bytes e = cc e
law (Control.mesh_hello v r p) bytes e = cc e
law (Control.welcome r p ps) bytes e = greeted_law r p.id p.name p.addr p.fingerprint ps bytes e
law (Control.mesh_ack p) bytes e = cc e
law (Control.peer_joined p) bytes e = joined_law p.id p.name p.addr p.fingerprint bytes e
law (Control.peer_left i m) bytes e = cc e
law (Control.chat [] [] [] (ℤ.pos zero) body) bytes e =
    subst (λ (b : Bytes). from_slice b ≡ ok (Control.chat [] [] [] (ℤ.pos 0) body)) (ap payload e)
      refl
law (Control.chat [] [] [] (ℤ.pos (suc t)) body) bytes e = cc e
law (Control.chat [] [] [] (ℤ.negsuc t) body) bytes e = cc e
law (Control.chat [] [] (c ∷ m) t body) bytes e = cc e
law (Control.chat [] (c ∷ f) m t body) bytes e = cc e
law (Control.chat (c ∷ i) f m t body) bytes e = cc e
law (Control.file_offer t m s d) bytes e = cc e
law (Control.file_decline t r) bytes e = cc e
law (Control.file_abort t r) bytes e = cc e

abbrev pub sample_json : Json
sample_json = record { to_vec = to_vec; from_slice = from_slice; from_slice-to_vec = law }

-- Links and the disk take everything; a digest is the bytes themselves.
abbrev pub sample_env : Env
sample_env = record {
  json = sample_json;
  deliver = λ log link bytes. ok tt;
  fingerprint = λ link. [];
  sha256 = λ bytes. bytes;
  disk = λ path content bytes. ok tt;
  human_size = decimal;
}

abbrev pub ann : PeerInfo
ann = record { id = 65 ∷ []; name = 65 ∷ 110 ∷ 110 ∷ []; addr = []; fingerprint = [] }

abbrev pub ben : PeerInfo
ben = record { id = 66 ∷ []; name = 66 ∷ 101 ∷ 110 ∷ []; addr = []; fingerprint = [] }

abbrev pub ann_peer : Peer
ann_peer = record { info = ann; link = 3; state = connected }

-- A host in the room AB with Ann linked to it.
abbrev pub hosting : Node
hosting = record (new (77 ∷ []) (77 ∷ []) []) {
  running = true;
  role = some host;
  kind = some lan;
  room = 65 ∷ 66 ∷ [];
  peers = (65 ∷ [], ann_peer) ∷ [];
  roster = (65 ∷ [], ann) ∷ [];
  open_until = some 1000;
}
