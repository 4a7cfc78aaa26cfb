-- ===== src/Files/Runs.antt =====
-- A download of two chunks from Ann.
use mesh_chat.Prelude.{
  not, key_eq, none, ◌≡◌, refl, List, [], ◌∷◌, ◌++◌, Bytes, some, arith, length, All, ◌<◌,
}
use mesh_chat.Prelude.Assoc.{lookup, filter_option}
use mesh_chat.Protocol.{hex, file_done, returns}
use mesh_chat.Node.{Node, Effect}
use mesh_chat.Node.TransferState.{ActiveIn, no_transfers}
use mesh_chat.Files.{cancel_transfers_with, handle_chunk, complete_incoming, handle_file_control}
use mesh_chat.Files.Integrity.{AreSound, handle_chunk-AreSound}
use mesh_chat.Files.Controls.{Settled, handle_file_control-Settled}
use mesh_chat.Files.Cancelling.{cancel_transfers_with-lookup}
use mesh_chat.Files.Receiving.{receive_all, receive_all-finish, concat, finish}
use mesh_chat.Samples.{sample_env, ann_peer, hosting}

abbrev id : Bytes
id = 9 ∷ []

-- The digest of `hi!` in the sample outside, in hexadecimal.
abbrev download : ActiveIn
download = record {
  path = 102 ∷ [];
  written = [];
  name = 102 ∷ [];
  size = 3;
  got = 0;
  next_seq = 0;
  hashed = [];
  expect_sha = hex (104 ∷ 105 ∷ 33 ∷ []);
  peer_id = 65 ∷ [];
  peer_name = 65 ∷ [];
  next_emit = 0;
}

abbrev downloading : Node
downloading = record hosting { transfers = record no_transfers { active = (id, download) ∷ [] } }

abbrev chunks : List Bytes
chunks = (104 ∷ 105 ∷ []) ∷ (33 ∷ []) ∷ []

found : lookup id downloading.transfers.active ≡ some download
unfolding lookup key_eq
found = refl

receive_all-finish_example :
    (before : List Effect) × ((complete_incoming sample_env id
        (57 ∷ [])
        (receive_all sample_env ann_peer id 0 chunks downloading)).out
      ≡ before
        ++ finish sample_env
            (57 ∷ [])
            download
            (length (concat chunks))
            (concat chunks)
            (concat chunks))
receive_all-finish_example =
    receive_all-finish sample_env ann_peer id (57 ∷ []) chunks download downloading
      (λ content bytes. refl) refl found (refl, refl, refl, refl) (omega arith) (omega arith)

downloading-AreSound : AreSound downloading
downloading-AreSound = ((refl, refl, omega arith), tt)

handle_chunk-AreSound_example :
    AreSound (handle_chunk sample_env ann_peer id 0 (104 ∷ 105 ∷ []) downloading)
handle_chunk-AreSound_example =
    handle_chunk-AreSound sample_env ann_peer id 0 (104 ∷ 105 ∷ []) downloading downloading-AreSound

-- Ann says that a download with a whole id is done, which has only begun.
abbrev whole_id : Bytes
whole_id = 1 ∷ 2 ∷ 3 ∷ 4 ∷ 5 ∷ 6 ∷ 7 ∷ 8 ∷ 9 ∷ 10 ∷ 11 ∷ 12 ∷ 13 ∷ 14 ∷ 15 ∷ 16 ∷ []

whole_id-bytes : All (λ b. b < 256) whole_id
whole_id-bytes = omega arith

abbrev begun : Node
begun = record hosting { transfers = record no_transfers { active = (whole_id, download) ∷ [] } }

handle_file_control-Settled_example :
    (m : Node) × (handle_file_control sample_env ann_peer (file_done (hex whole_id)) begun
      ≡ returns m)
    × Settled sample_env ann_peer whole_id (file_done (hex whole_id)) begun m
handle_file_control-Settled_example =
    handle_file_control-Settled sample_env ann_peer whole_id (file_done (hex whole_id)) begun
      whole_id-bytes refl refl

begun_found : lookup whole_id begun.transfers.active ≡ some download
unfolding lookup key_eq
begun_found = refl

none_else : lookup {V = ActiveIn} id [] ≡ none
unfolding lookup
none_else = refl

cancel_transfers_with-lookup_example :
    (lookup id (cancel_transfers_with (65 ∷ []) downloading).transfers.active
      ≡ filter_option
          (λ a. not (key_eq a.peer_id (65 ∷ [])))
          (lookup id downloading.transfers.active))
    × (lookup id (cancel_transfers_with (65 ∷ []) downloading).transfers.offers
        ≡ filter_option
            (λ o. not (key_eq o.peer_id (65 ∷ [])))
            (lookup id downloading.transfers.offers))
cancel_transfers_with-lookup_example =
    cancel_transfers_with-lookup (65 ∷ []) id downloading (none_else, tt) tt
