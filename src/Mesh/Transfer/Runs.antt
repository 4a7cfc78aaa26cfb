-- ===== src/Mesh/Transfer/Runs.antt =====
-- A file of three bytes, sent in two pieces from one node to another.
use mesh_chat.Prelude.{
  ℕ, zero, suc, ◌+◌, ◌<◌, ◌≡◌, refl, Bytes, text, List, [], ◌∷◌, ◌++◌, map, length, All, IsByte,
  some, key_eq, arith,
}
use mesh_chat.Prelude.Assoc.{lookup}
use mesh_chat.Error.{ok}
use mesh_chat.Text.Hex.{lower_byte}
use mesh_chat.Protocol.{hex, file_done, encode_control, returns}
use mesh_chat.Node.{Node, Effect}
use mesh_chat.Node.TransferState.{ActiveIn, no_transfers}
use mesh_chat.Files.Streaming.{Sending, stream_loop}
use mesh_chat.Files.Receiving.{concat, finish}
use mesh_chat.Samples.{sample_env, ann_peer, hosting}
use mesh_chat.Mesh.Transfer.{
  Piece, bytes_of, turn_of, to_link, IsPiece, read_frames, stream_loop-read_frames,
}

abbrev nines : ℕ → Bytes
nines zero = []
nines (suc k) = 9 ∷ nines k

nines-IsByte : (k : ℕ) → All IsByte (nines k)
nines-IsByte zero = tt
nines-IsByte (suc k) = (omega arith, nines-IsByte k)

abbrev sending : Sending
sending = record {
  peer = ann_peer;
  id = nines 16;
  name = text "f";
  size = 3;
  sha = hex (104 ∷ 105 ∷ 33 ∷ []);
}

abbrev pieces : List Piece
pieces =
    record { meanwhile = λ n. n; first = 104; rest = 105 ∷ [] }
    ∷ record { meanwhile = λ n. record n { clock = n.clock + 5 }; first = 33; rest = [] }
    ∷ []

pieces-IsPiece : All (IsPiece ann_peer.link) pieces
pieces-IsPiece = ((λ n up. (up, refl), omega arith), ((λ n up. (up, refl), omega arith), tt))

abbrev download : ActiveIn
download = record {
  path = text "f";
  written = [];
  name = text "f";
  size = 3;
  got = 0;
  next_seq = 0;
  hashed = [];
  expect_sha = hex (104 ∷ 105 ∷ 33 ∷ []);
  peer_id = 65 ∷ [];
  peer_name = 65 ∷ [];
  next_emit = 0;
}

abbrev recipient : Node
recipient = record hosting {
  transfers = record no_transfers { active = (nines 16, download) ∷ [] };
}

found : lookup (nines 16) recipient.transfers.active ≡ some download
unfolding lookup key_eq
found = refl

abbrev end_bytes : Bytes
end_bytes = 1 ∷ 2 ∷ hex (nines 16)

encoded : encode_control sample_env.json (file_done (hex (nines 16))) ≡ ok end_bytes
unfolding encode_control
encoded = refl

short : length end_bytes < 100
unfolding hex lower_byte
short = omega arith

stream_loop-read_frames_example :
    (payloads : List Bytes) × (m : Node) × (before : List Effect) × (to_link ann_peer.link
        (stream_loop sample_env sending (map turn_of pieces) 0 0 0 hosting).out
      ≡ to_link ann_peer.link hosting.out ++ payloads)
    × (read_frames sample_env ann_peer payloads recipient ≡ returns m)
    × (let file = concat (map bytes_of pieces) in
        m.out ≡ before ++ finish sample_env (hex (nines 16)) download (length file) file file)
stream_loop-read_frames_example =
    stream_loop-read_frames sample_env sample_env sending pieces 0 hosting end_bytes ann_peer
      download recipient refl (λ log bytes. refl) refl (nines-IsByte 16) pieces-IsPiece
      (encoded, omega (arith, short)) encoded (λ content bytes. refl) refl found
      (refl, refl, refl, refl) (omega arith) (omega arith)
