-- ===== src/History.antt =====
-- core/src/history.rs: the records of the session, the transcript and its export. The local-time
-- formatter of the chrono library and the JSON writer are parameters, and so are the clock and what
-- the disk answers.
use mesh_chat.Prelude.{
  ℕ, zero, suc, Text, Bytes, text, cat, Option, none, some, List, [], ◌∷◌, ◌++◌, map, key_eq, Bool,
  false, if◌then◌else◌,
}
use mesh_chat.Error.{Error, IoError, Result, ok, lift_io, ◌>>=◌}
use mesh_chat.Text.{rsplit_once, utf8, to_ascii_lowercase}
use mesh_chat.Protocol.{ℤ}

pub data RecordKind : Type 0 where
  message system file : RecordKind

pub record ChatRecord : Type 0 where
  pub ts : ℤ
  pub sender : Text
  pub sender_id : Text
  pub body : Text
  pub kind : RecordKind

abbrev pub message_record : Text → Text → ℤ → Text → ChatRecord
message_record sender sender_id ts body = record {
  ts = ts;
  sender = sender;
  sender_id = sender_id;
  body = body;
  kind = message;
}

abbrev pub system_record : ℤ → Text → ChatRecord
system_record ts body = record {
  ts = ts;
  sender = text "system";
  sender_id = [];
  body = body;
  kind = system;
}

abbrev pub file_record : Text → Text → ℤ → Text → ChatRecord
file_record sender sender_id ts body = record {
  ts = ts;
  sender = sender;
  sender_id = sender_id;
  body = body;
  kind = file;
}

abbrev newline : ℕ
newline = 10

abbrev dashes : ℕ → Text
dashes zero = []
dashes (suc n) = b'-' ∷ dashes n

-- One line of the transcript, with the line end.
render_kind : RecordKind → Text → ChatRecord → Text
render_kind message when r =
    cat (text "[" ∷ when ∷ text "] " ∷ r.sender ∷ text ": " ∷ r.body ∷ (newline ∷ []) ∷ [])
render_kind system when r = cat (text "[" ∷ when ∷ text "] * " ∷ r.body ∷ (newline ∷ []) ∷ [])
render_kind file when r =
    cat (text "[" ∷ when ∷ text "] * " ∷ r.sender ∷ text " (file) " ∷ r.body ∷ (newline ∷ []) ∷ [])

module _ (fmt_full : ℤ → Text) where
  unfoldable pub render_record : ChatRecord → Text
  unfolding render_kind
  render_record r = render_kind r.kind (fmt_full r.ts) r

  unfoldable pub render_records : List ChatRecord → Text
  render_records [] = []
  render_records (r ∷ rs) = render_record r ++ render_records rs

  unfoldable pub render_header : ℤ → Text → Text → Text
  render_header now room transport = cat (
      text "Mesh Chat - session transcript"
      ∷ (newline ∷ [])
      ∷ text "Room code : "
      ∷ room
      ∷ (newline ∷ [])
      ∷ text "Transport : "
      ∷ transport
      ∷ (newline ∷ [])
      ∷ text "Exported  : "
      ∷ fmt_full now
      ∷ (newline ∷ [])
      ∷ dashes 60
      ∷ (newline ∷ [])
      ∷ [])

  unfoldable pub render_text : ℤ → Text → Text → List ChatRecord → Text
  render_text now room transport records =
      render_header now room transport ++ render_records records

-- `Path::extension` of a path with this file name: what follows the last dot, if something stands
-- before it.
abbrev after_dot : Option (Text × Text) → Option Text
after_dot none = none
after_dot (some ([], back)) = none
after_dot (some (c ∷ front, back)) = some back

abbrev pub extension : Option Text → Option Text
extension none = none
extension (some name) = if key_eq name (text "..") then none else after_dot (rsplit_once b'.' name)

-- `map(|e| e.eq_ignore_ascii_case("json")).unwrap_or(false)`
unfoldable pub is_json : Option Text → Bool
is_json none = false
is_json (some e) = key_eq (map to_ascii_lowercase e) (text "json")

-- What an export needs of the outside: the formatter of dates, the JSON writer (room, transport,
-- date, records), and the answer of the disk to the creation of a file with this content.
pub record Exporter : Type 0 where
  pub fmt_full : ℤ → Text
  pub to_vec_pretty : (room transport exported_at : Text) → List ChatRecord → Result Error Bytes
  pub write : (path : Text) (content : Bytes) → Result IoError (Unit {0})

unfoldable pub export_bytes :
    Exporter → ℤ → Option Text → Text → Text → List ChatRecord → Result Error Bytes
export_bytes x now file_name room transport records =
    if is_json (extension file_name)
    then x.to_vec_pretty room transport (x.fmt_full now) records
    else ok (utf8 (render_text x.fmt_full now room transport records))

-- `export`; an ok carries what the file holds then.
unfoldable pub export :
    Exporter → ℤ → Text → Option Text → Text → Text → List ChatRecord → Result Error Bytes
export x now path file_name room transport records =
    export_bytes x now file_name room transport records >>= λ bytes.
    lift_io (x.write path bytes) >>= λ done. ok bytes
