-- ===== src/Files/Outgoing.antt =====
-- core/src/files.rs: outgoing file transfers. A file that is read is the list of what its reads
-- return, and its end returns no bytes. Other threads run while a transfer waits: what they do to
-- the node comes with each turn, and so does the decision of the recipient.
use mesh_chat.Prelude.{
  ℕ, Text, Bytes, text, cat, Option, none, some, List, [], ◌∷◌, ◌++◌, Bool, false, if◌then◌else◌,
}
use mesh_chat.Prelude.Assoc.{remove}
use mesh_chat.Error.{Error, IoError, config, io, Result, ok, err, ◌>>=◌, lift_io}
use mesh_chat.Protocol.{hex}
use mesh_chat.Names.{safe_file_name}
use mesh_chat.Node.{Node, Env, Peer, sends_file, spawns, say, emit, connected_peers}
use mesh_chat.Node.Events.{status, file_finished}

abbrev pub Read : Type 0
Read = Result IoError Bytes

-- The bytes that reads return until the end of the file or an error.
unfoldable pub read_all : List Read → Result IoError Bytes
read_all [] = ok []
read_all (err e ∷ reads) = err e
read_all (ok [] ∷ reads) = ok []
read_all (ok (b ∷ bytes) ∷ reads) = read_all reads >>= λ rest. ok ((b ∷ bytes) ++ rest)

-- `hash_file`; the hasher keeps what it was fed.
hash_loop : (Bytes → Bytes) → Bytes → List Read → Result Error Text
hash_loop sha256 fed [] = ok (hex (sha256 fed))
hash_loop sha256 fed (err e ∷ reads) = err (io e)
hash_loop sha256 fed (ok [] ∷ reads) = ok (hex (sha256 fed))
hash_loop sha256 fed (ok (b ∷ bytes) ∷ reads) = hash_loop sha256 (fed ++ b ∷ bytes) reads

unfoldable pub hash_file : (Bytes → Bytes) → Result IoError (List Read) → Result Error Text
unfolding hash_loop
hash_file sha256 opened = lift_io opened >>= hash_loop sha256 []

unfoldable pub finish_out : Bytes → Text → Bool → Text → Node → Node
finish_out id name success detail n =
    emit (file_finished (hex id) name false success detail) (record n {
      transfers = record n.transfers {
        waiters = remove id n.transfers.waiters;
        out_peer = remove id n.transfers.out_peer;
      };
    })

unfoldable pub spawn_sends : List Peer → Text → Text → ℕ → Text → Node → Node
spawn_sends [] path name size sha n = n
spawn_sends (p ∷ peers) path name size sha n =
    spawn_sends peers path name size sha (say (spawns (sends_file p path name size sha)) n)

-- `meta.is_file()` and `meta.len()`.
abbrev pub Metadata : Type 0
Metadata = Bool × ℕ

abbrev pub file_name_or : Option Text → Text
file_name_or none = text "file.bin"
file_name_or (some name) = name

unfoldable pub send_hashed :
    List Peer → Text → Text → ℕ → Result Error Text → Node → Result Error (Unit {0}) × Node
unfolding spawn_sends
send_hashed peers path name size (err e) n = (err e, n)
send_hashed peers path name size (ok sha) n = (ok tt, spawn_sends peers path name size sha n)

unfoldable pub send_described :
    Env
    → List Peer
    → Text
    → Option Text
    → Result IoError (List Read)
    → Result IoError Metadata
    → Node
    → Result Error (Unit {0}) × Node
unfolding send_hashed
send_described env peers path file_name opened (err e) n = (err (io e), n)
send_described env peers path file_name opened (ok (is_file, size)) n =
    let name = safe_file_name (file_name_or file_name) in
    if is_file
    then send_hashed peers path name size (hash_file env.sha256 opened) (
        emit
          (status
            (cat (text "Hashing " ∷ name ∷ text " (" ∷ env.human_size size ∷ text ")..." ∷ [])))
          n)
    else (err (config (text "that is not a regular file")), n)

unfoldable pub send_to_peers :
    Env
    → List Peer
    → Text
    → Option Text
    → Result IoError Metadata
    → Result IoError (List Read)
    → Node
    → Result Error (Unit {0}) × Node
unfolding send_described
send_to_peers env [] path file_name metadata opened n =
    (err (config (text "there is nobody connected to send a file to")), n)
send_to_peers env (p ∷ peers) path file_name metadata opened n =
    send_described env (p ∷ peers) path file_name opened metadata n

-- The path with its last component, what `metadata` answers for it, and the file opened for its
-- digest.
unfoldable pub send_file :
    Env
    → Text
    → Option Text
    → Result IoError Metadata
    → Result IoError (List Read)
    → Node
    → Result Error (Unit {0}) × Node
unfolding send_to_peers
send_file env path file_name metadata opened n =
    send_to_peers env (connected_peers n) path file_name metadata opened n
