-- ===== src/Protocol.antt =====
-- core/src/protocol.rs: the messages, their frames, and identifiers. The JSON form of a control
-- message is the serde_json library's: an interface, with the round trip that the program relies on.
pub mod Frames
pub mod Ids
mod Runs
use mesh_chat.Prelude.{
  ℕ, zero, suc, ◌+◌, ◌-◌, ◌*◌, ◌/◌, ◌%◌, ◌^◌, ◌≡◌, Text, Bytes, text, Option, none, some, List, [],
  ◌∷◌, ◌++◌, length, take, drop, ltb, ◌==◌, ◌&&◌, not, Bool, true, false, if◌then◌else◌,
}
use mesh_chat.Error.{Error, protocol, Result, ok, err, ◌>>=◌}
use mesh_chat.Text.{byte_len, utf8_width}
use mesh_chat.Text.Decimal.{decimal}
use mesh_chat.Text.Hex.{lower_byte, byte_value}
use mesh_chat.Codec.{to_be_bytes, from_be_bytes}

abbrev pub kind_control : ℕ
kind_control = 1

abbrev pub kind_chunk : ℕ
kind_chunk = 2

abbrev pub chunk_size : ℕ
chunk_size = 32 * 1024

abbrev pub PeerId : Type 0
PeerId = Text

-- `i64` seconds; `negsuc n` is -(n + 1).
pub data ℤ : Type 0 where
  pos negsuc : ℕ → ℤ

pub record PeerInfo : Type 0 where
  pub id : PeerId
  pub name : Text
  pub addr : Text
  pub fingerprint : Text

pub data Control : Type 0 where
  hello : (version : ℕ) (room : Text) (peer : PeerInfo) → Control
  mesh_hello : (version : ℕ) (room : Text) (peer : PeerInfo) → Control
  welcome : (room : Text) (host : PeerInfo) (peers : List PeerInfo) → Control
  mesh_ack : (peer : PeerInfo) → Control
  rejected : (reason : Text) → Control
  peer_joined : (peer : PeerInfo) → Control
  peer_left : (id : PeerId) (name : Text) → Control
  chat : (id : Text) (from : PeerId) (name : Text) (ts : ℤ) (body : Text) → Control
  file_offer : (transfer name : Text) (size : ℕ) (sha256 : Text) → Control
  file_accept : (transfer : Text) → Control
  file_decline : (transfer reason : Text) → Control
  file_done : (transfer : Text) → Control
  file_abort : (transfer reason : Text) → Control
  bye : Control

pub data Frame : Type 0 where
  control : Control → Frame
  chunk : (id : Bytes) (seq : ℕ) (bytes : Bytes) → Frame

-- `serde_json::to_vec` and `serde_json::from_slice`, with the messages of their errors.
pub record Json : Type 0 where
  pub to_vec : Control → Result Text Bytes
  pub from_slice : Bytes → Result Text Control
  pub from_slice-to_vec :
      (c : Control) (bytes : Bytes) → to_vec c ≡ ok bytes → from_slice bytes ≡ ok c

-- `?` on a serde_json result.
abbrev pub lift_json {ℓ} : {A : Type ℓ} → Result Text A → Result Error A
lift_json (ok a) = ok a
lift_json (err m) = err (protocol m)

unfoldable pub encode_control : Json → Control → Result Error Bytes
encode_control json c = do body ← lift_json (json.to_vec c); ok (kind_control ∷ body)

unfoldable pub encode_chunk : Bytes → ℕ → Bytes → Bytes
encode_chunk id seq bytes = kind_chunk ∷ (id ++ (to_be_bytes seq ++ bytes))

-- A chunk's body: `buf[1..17]`, `buf[17..21]` and `buf[21..]`.
decode_chunk : Bytes → Result Error Frame
decode_chunk body =
    if ltb (length body) 20
    then err (protocol (text "truncated file chunk"))
    else ok (chunk (take 16 body) (from_be_bytes (take 4 (drop 16 body))) (drop 4 (drop 16 body)))

decode_control : Json → Bytes → Result Error Frame
decode_control json body = do c ← lift_json (json.from_slice body); ok (control c)

unfoldable pub decode : Json → Bytes → Result Error Frame
unfolding decode_chunk decode_control
decode json [] = err (protocol (text "empty frame"))
decode json (kind ∷ body) =
    if kind == kind_control
    then decode_control json body
    else if kind == kind_chunk
    then decode_chunk body
    else err (protocol (text "unknown frame kind " ++ decimal kind))

unfoldable pub hex : Bytes → Text
hex [] = []
hex (b ∷ bytes) = lower_byte b ++ hex bytes

-- A result, or the panic of a slice whose end is inside a character.
pub data Checked {ℓ} (A : Type ℓ) : Type ℓ where
  returns : A → Checked A
  panics : Checked A

abbrev bad_transfer_id : Result Error Bytes
bad_transfer_id = err (protocol (text "bad transfer id"))

abbrev add_byte : ℕ → Checked (Result Error Bytes) → Checked (Result Error Bytes)
add_byte b (returns (ok bytes)) = returns (ok (b ∷ bytes))
add_byte b (returns (err e)) = returns (err e)
add_byte b panics = panics

abbrev or_bad : Option ℕ → Checked (Result Error Bytes) → Checked (Result Error Bytes)
or_bad none rest = returns bad_transfer_id
or_bad (some b) rest = add_byte b rest

-- The loop `for i in 0..16`, over a text of `2 * 16` bytes: `&s[i * 2..i * 2 + 2]` is two
-- characters of one byte, or one of two, or it panics.
unfoldable pub unhex_loop : Text → Checked (Result Error Bytes)
unhex_loop [] = returns (ok [])
unhex_loop (c ∷ []) = if utf8_width c == 2 then returns bad_transfer_id else panics
unhex_loop (c ∷ d ∷ s) =
    let rest = unhex_loop s in
    if utf8_width c == 2
    then returns bad_transfer_id
    else if utf8_width c == 1 && utf8_width d == 1
    then or_bad (byte_value c d) rest
    else panics

unfoldable pub unhex16 : Text → Checked (Result Error Bytes)
unfolding unhex_loop
unhex16 s = if not (byte_len s == 32) then returns bad_transfer_id else unhex_loop s

-- A peer or message id, of eight random bytes.
unfoldable pub new_id : (random_bytes : Bytes) → Text
new_id random_bytes = hex random_bytes

-- The seconds since the epoch, or 0 when the clock is before it.
abbrev pub now_ts : (since_epoch : Option ℕ) → ℤ
now_ts none = ℤ.pos 0
now_ts (some secs) = ℤ.pos secs

-- The local time that the chrono library finds for a timestamp, in the format of the chat view and
-- in that of the transcript.
abbrev pub fmt_clock : (local_clock : ℤ → Option Text) → ℤ → Text
fmt_clock local_clock ts = elim (local_clock ts) [ some t ↦ t | none ↦ text "??:??:??" ]

abbrev pub fmt_full : (local_full : ℤ → Option Text) → ℤ → Text
fmt_full local_full ts = elim (local_full ts) [ some t ↦ t | none ↦ text "unknown time" ]
