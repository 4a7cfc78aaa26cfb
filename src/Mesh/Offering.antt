-- ===== src/Mesh/Offering.antt =====
-- core/src/files.rs: `send_file` keeps the map of peers in order.
use mesh_chat.Prelude.{ℕ, Text, text, cat, Option, List, [], ◌∷◌, true, false}
use mesh_chat.Error.{Error, IoError, Result, ok, err}
use mesh_chat.Names.{safe_file_name}
use mesh_chat.Node.{Env, Peer, connected_peers, emit, say, spawns, sends_file}
use mesh_chat.Node.Events.{status}
use mesh_chat.Files.Outgoing.{
  Read, Metadata, send_file, send_to_peers, send_described, send_hashed, spawn_sends, file_name_or,
  hash_file,
}
use mesh_chat.Mesh.Admission.Linked.{Keeps}

spawn_sends-Keeps :
    (peers : List Peer) (path name : Text) (size : ℕ) (sha : Text)
    → Keeps (spawn_sends peers path name size sha)
unfolding spawn_sends
spawn_sends-Keeps [] path name size sha n h = h
spawn_sends-Keeps (p ∷ peers) path name size sha n h =
    spawn_sends-Keeps peers path name size sha (say (spawns (sends_file p path name size sha)) n) h

send_hashed-Keeps :
    (peers : List Peer) (path name : Text) (size : ℕ) (sha : Result Error Text)
    → Keeps (λ n. (send_hashed peers path name size sha n).1)
unfolding send_hashed
send_hashed-Keeps peers path name size (err e) n h = h
send_hashed-Keeps peers path name size (ok sha) n h = spawn_sends-Keeps peers path name size sha n h

send_described-Keeps :
    (env : Env) (peers : List Peer) (path : Text) (file_name : Option Text)
    (opened : Result IoError (List Read)) (metadata : Result IoError Metadata)
    → Keeps (λ n. (send_described env peers path file_name opened metadata n).1)
unfolding send_described
send_described-Keeps env peers path file_name opened (err e) n h = h
send_described-Keeps env peers path file_name opened (ok (false, size)) n h = h
send_described-Keeps env peers path file_name opened (ok (true, size)) n h =
    let name = safe_file_name (file_name_or file_name) in
    send_hashed-Keeps peers path name size (hash_file env.sha256 opened)
      (emit
        (status (cat (text "Hashing " ∷ name ∷ text " (" ∷ env.human_size size ∷ text ")..." ∷ [])))
        n)
      h

send_to_peers-Keeps :
    (env : Env) (peers : List Peer) (path : Text) (file_name : Option Text)
    (metadata : Result IoError Metadata) (opened : Result IoError (List Read))
    → Keeps (λ n. (send_to_peers env peers path file_name metadata opened n).1)
unfolding send_to_peers
send_to_peers-Keeps env [] path file_name metadata opened n h = h
send_to_peers-Keeps env (p ∷ peers) path file_name metadata opened n h =
    send_described-Keeps env (p ∷ peers) path file_name opened metadata n h

pub send_file-Keeps :
    (env : Env) (path : Text) (file_name : Option Text) (metadata : Result IoError Metadata)
    (opened : Result IoError (List Read))
    → Keeps (λ n. (send_file env path file_name metadata opened n).1)
unfolding send_file
send_file-Keeps env path file_name metadata opened n h =
    send_to_peers-Keeps env (connected_peers n) path file_name metadata opened n h
