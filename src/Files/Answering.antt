-- ===== src/Files/Answering.antt =====
-- core/src/files.rs: the answer of the user to an offer.
use mesh_chat.Prelude.{ℕ, Text, Bytes, text, cat, Option, none, some, [], ◌∷◌, true, false}
use mesh_chat.Prelude.Assoc.{lookup, insert, remove}
use mesh_chat.Error.{Error, IoError, protocol, closed, Result, ok, err}
use mesh_chat.Protocol.{file_accept, file_decline, unhex16, Checked, returns, panics}
use mesh_chat.Node.{Node, Env, Peer, emit, send}
use mesh_chat.Node.Events.{Event, file_finished}
use mesh_chat.Node.TransferState.{PendingOffer, ActiveIn}
use mesh_chat.Files.{set_active, set_offers}

-- Only if the peer is still connected is it told.
unfoldable pub decline_to : Env → Text → Option Peer → Node → Node
decline_to env transfer none n = n
decline_to env transfer (some p) n =
    (send env p.link (file_decline transfer (text "declined by the recipient")) n).1

-- A download at its start.
unfoldable pub new_active : PendingOffer → Text → ℕ → ActiveIn
new_active offer path clock = record {
  path = path;
  written = [];
  name = offer.name;
  size = offer.size;
  got = 0;
  next_seq = 0;
  hashed = [];
  expect_sha = offer.sha256;
  peer_id = offer.peer_id;
  peer_name = offer.peer_name;
  next_emit = clock;
}

unfoldable pub receiving :
    PendingOffer → Text → Result Error (Unit {0}) × Node → Result Error (Unit {0}) × Node
receiving offer path (ok u, n) = (
  ok tt,
  emit (Event.status (cat (text "Receiving " ∷ offer.name ∷ text " into " ∷ path ∷ []))) n,
)
receiving offer path (err e, n) = (err e, n)

unfoldable pub save_from :
    Env
    → Bytes
    → Text
    → PendingOffer
    → Text
    → Result IoError (Unit {0})
    → Option Peer
    → Node
    → Result Error (Unit {0}) × Node
unfolding receiving
save_from env id transfer offer path created none n =
    (err (closed (text "that peer is no longer connected")), n)
save_from env id transfer offer path (err e) (some p) n = (err (Error.io e), n)
save_from env id transfer offer path (ok u) (some p) n = receiving offer path (
    send env p.link (file_accept transfer)
      (set_active (insert id (new_active offer path n.clock) n.transfers.active) n))

unfoldable pub answer_offer :
    Env
    → Bytes
    → Text
    → PendingOffer
    → Option (Text × Result IoError (Unit {0}))
    → Node
    → Result Error (Unit {0}) × Node
unfolding decline_to save_from
answer_offer env id transfer offer none n = (
  ok tt,
  emit (file_finished transfer offer.name true false (text "you declined the file"))
      (decline_to env transfer (lookup offer.peer_id n.peers) n),
)
answer_offer env id transfer offer (some (path, created)) n =
    save_from env id transfer offer path created (lookup offer.peer_id n.peers) n

unfoldable pub answer_pending :
    Env
    → Bytes
    → Text
    → Option PendingOffer
    → Option (Text × Result IoError (Unit {0}))
    → Node
    → Result Error (Unit {0}) × Node
unfolding answer_offer
answer_pending env id transfer none save_to n =
    (err (protocol (text "that file offer is no longer pending")), n)
answer_pending env id transfer (some offer) save_to n =
    answer_offer env id transfer offer save_to (set_offers (remove id n.transfers.offers) n)

unfoldable pub answer_id :
    Env
    → Text
    → Checked (Result Error Bytes)
    → Option (Text × Result IoError (Unit {0}))
    → Node
    → Checked (Result Error (Unit {0}) × Node)
unfolding answer_pending
answer_id env transfer panics save_to n = panics
answer_id env transfer (returns (err e)) save_to n = returns (err e, n)
answer_id env transfer (returns (ok id)) save_to n =
    returns (answer_pending env id transfer (lookup id n.transfers.offers) save_to n)

-- The path to save to comes with what `File::create` answers for it; `none` declines.
unfoldable pub respond_offer :
    Env
    → Text
    → Option (Text × Result IoError (Unit {0}))
    → Node
    → Checked (Result Error (Unit {0}) × Node)
unfolding answer_id
respond_offer env transfer save_to n = answer_id env transfer (unhex16 transfer) save_to n
