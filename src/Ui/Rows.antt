-- ===== src/Ui/Rows.antt =====
-- ui/src/main.rs: the operations of `App` on its list models.
pub mod Unique
pub mod Transcript
use mesh_chat.Prelude.{
  ℕ, Text, text, List, [], ◌∷◌, ◌++◌, drop, length, leb, true, false, if◌then◌else◌, key_eq,
}
use mesh_chat.Protocol.{ℤ}
use mesh_chat.Ui.{
  MessageRow, PeerRow, RequestRow, TransferRow, Fraction, Models, Desk, max_visible_messages,
}

-- The oldest line goes when the view is full.
unfoldable pub push_message : MessageRow → List MessageRow → List MessageRow
push_message row rows =
    (if leb max_visible_messages (length rows) then drop 1 rows else rows) ++ row ∷ []

abbrev pub system_row : Desk → ℤ → Text → MessageRow
system_row desk wall t = record {
  who = [];
  time = desk.fmt_clock wall;
  body = t;
  mine = false;
  system = true;
}

unfoldable pub push_system : Desk → ℤ → Text → List MessageRow → List MessageRow
push_system desk wall t rows = push_message (system_row desk wall t) rows

-- The first row with the key is replaced, or the row goes to the end.
module _ {ℓ} {A : Type ℓ} (key : A → Text) where
  unfoldable pub upsert : A → List A → List A
  upsert row [] = row ∷ []
  upsert row (x ∷ xs) =
      let rest = upsert row xs in if key_eq (key x) (key row) then row ∷ xs else x ∷ rest

  unfoldable pub remove_first : Text → List A → List A
  remove_first k [] = []
  remove_first k (x ∷ xs) =
      let rest = remove_first k xs in if key_eq (key x) k then xs else x ∷ rest

abbrev pub peer_row : Text → Text → Text → Text → PeerRow
peer_row id name status detail = record { id = id; name = name; status = status; detail = detail }

unfoldable pub upsert_peer : Text → Text → Text → Text → List PeerRow → List PeerRow
upsert_peer id name status detail rows = upsert (λ r. r.id) (peer_row id name status detail) rows

unfoldable pub remove_request : Text → List RequestRow → List RequestRow
remove_request req rows = remove_first (λ r. r.req) req rows

abbrev pub transfer_row : Text → Text → Fraction → Text → TransferRow
transfer_row id label progress state = record {
  id = id;
  label = label;
  progress = progress;
  state = state;
}

unfoldable pub upsert_transfer : Text → Text → Fraction → Text → List TransferRow → List TransferRow
upsert_transfer id label progress state rows =
    upsert (λ r. r.id) (transfer_row id label progress state) rows
