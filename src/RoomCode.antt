-- ===== src/RoomCode.antt =====
-- core/src/roomcode.rs: room codes. The text of an IPv6 address is recognised by a parameter.
pub mod Base32
pub mod Cleaning
pub mod RoundTrip
pub mod Decoded
mod Runs
use mesh_chat.Prelude.{
  ℕ, zero, suc, ◌+◌, ◌-◌, ◌*◌, ◌/◌, ◌%◌, ◌^◌, Text, Bytes, text, Option, none, some, List, [], ◌∷◌,
  ◌++◌, map, keep, ltb, ◌==◌, ◌||◌, Bool, true, false, if◌then◌else◌,
}
use mesh_chat.Error.{Error, room_code, Result, ok, err, ◌>>=◌, ok_or}
use mesh_chat.Text.{is_ascii_alphanumeric, to_ascii_uppercase}
use mesh_chat.Text.Decimal.{decimal}
use mesh_chat.Text.SocketAddr.{SocketAddr, SocketAddrV4, v4, v6, display_v4}
use mesh_chat.Text.SocketAddr
use mesh_chat.Transport.{TransportKind, lan, bluetooth, tag, from_tag}
use mesh_chat.Transport.Bluetooth.{parse_dial, format_addr, format_dial}
use Base32.{b32_encode, b32_decode}

-- Only letters and digits count, in upper case.
unfoldable pub clean : Text → Text
clean code = map to_ascii_uppercase (keep is_ascii_alphanumeric code)

split_tag : Text → Result Error (TransportKind × Text)
split_tag [] = err (room_code (text "the room code is empty"))
split_tag (t ∷ payload) = do
  kind ← ok_or (from_tag t) (
      room_code (
        text "'"
        ++ (t ∷ text "' is not a known room-code prefix (expected L for LAN or B for Bluetooth)")))
  ok (kind, payload)

-- The transport and the characters of the payload.
unfoldable pub split : Text → Result Error (TransportKind × Text)
unfolding split_tag
split code = split_tag (clean code)

-- `chunks(5)` and `join("-")`
unfoldable pub chunks : Text → List Text
chunks [] = []
chunks (a ∷ b ∷ c ∷ d ∷ e ∷ s) = (a ∷ b ∷ c ∷ d ∷ e ∷ []) ∷ chunks s
chunks s = s ∷ []

unfoldable pub join : List Text → Text
join [] = []
join (x ∷ []) = x
join (x ∷ y ∷ r) = x ++ (b'-' ∷ join (y ∷ r))

-- Readable groups: `L-ABCDE-FGHIJ`.
unfoldable pub pretty : ℕ → Text → Text
unfolding chunks join
pretty t payload = t ∷ b'-' ∷ join (chunks payload)

unfoldable pub lan_bytes : SocketAddrV4 → Bytes
lan_bytes x = x.a ∷ x.b ∷ x.c ∷ x.d ∷ (x.port / 256 % 256) ∷ (x.port % 256) ∷ []

-- `addr.to_be_bytes()[2..]`, the low 48 bits, and `channel as u8`.
unfoldable pub bluetooth_bytes : ℕ → ℕ → Bytes
bluetooth_bytes addr channel =
    (addr / 2 ^ 40 % 256)
    ∷ (addr / 2 ^ 32 % 256)
    ∷ (addr / 2 ^ 24 % 256)
    ∷ (addr / 2 ^ 16 % 256)
    ∷ (addr / 2 ^ 8 % 256)
    ∷ (addr % 256)
    ∷ (channel % 256)
    ∷ []

abbrev bad_channel : ℕ → Bool
bad_channel channel = channel == 0 || ltb 30 channel

encode_lan : Text → Option SocketAddr → Result Error Text
unfolding lan_bytes
encode_lan dial none = err (room_code (text "'" ++ (dial ++ text "' is not a valid address:port")))
encode_lan dial (some (v6 s)) =
    err (room_code (text "LAN mode needs an IPv4 address; this machine reported only IPv6"))
encode_lan dial (some (v4 x)) = ok (pretty (tag lan) (b32_encode (lan_bytes x)))

encode_bluetooth : ℕ × ℕ → Result Error Text
encode_bluetooth (addr, channel) =
    if bad_channel channel
    then err (
        room_code (
          text "RFCOMM channel "
          ++ (decimal channel ++ text " is outside the encodable range 1-30")))
    else ok (pretty (tag bluetooth) (b32_encode (bluetooth_bytes addr channel)))

-- A room code from a transport and a dial address.
unfoldable pub encode : (Text → Bool) → TransportKind → Text → Result Error Text
unfolding encode_lan encode_bluetooth
encode is_v6 lan dial = encode_lan dial (SocketAddr.parse is_v6 dial)
encode is_v6 bluetooth dial = parse_dial dial >>= encode_bluetooth

-- `bytes[i]`; `b32_decode` returns as many bytes as were asked for, so the index is in range.
abbrev byte : Bytes → ℕ → ℕ
byte [] i = 0
byte (b ∷ bytes) zero = b
byte (b ∷ bytes) (suc i) = byte bytes i

unfoldable pub lan_addr : Bytes → SocketAddrV4
lan_addr bytes = record {
  a = byte bytes 0;
  b = byte bytes 1;
  c = byte bytes 2;
  d = byte bytes 3;
  port = byte bytes 4 * 256 + byte bytes 5;
}

-- `for b in &bytes[..6] { addr = (addr << 8) | b }`
unfoldable pub bluetooth_addr : Bytes → ℕ
bluetooth_addr bytes =
    ((((byte bytes 0 * 256 + byte bytes 1) * 256 + byte bytes 2) * 256 + byte bytes 3) * 256
        + byte bytes 4)
      * 256
    + byte bytes 5

decode_payload : TransportKind × Text → Result Error (TransportKind × Text)
unfolding lan_addr bluetooth_addr
decode_payload (lan, payload) = do
  bytes ← b32_decode payload 6
  if (lan_addr bytes).port == 0
      then err (room_code (text "room code contains an invalid port"))
      else ok (lan, display_v4 (lan_addr bytes))
decode_payload (bluetooth, payload) = do
  bytes ← b32_decode payload 7
  if bad_channel (byte bytes 6)
      then err (room_code (text "room code contains an invalid RFCOMM channel"))
      else ok (bluetooth, format_dial (bluetooth_addr bytes) (byte bytes 6))

-- The transport and the dial address.
unfoldable pub decode : Text → Result Error (TransportKind × Text)
unfolding decode_payload
decode code = split code >>= decode_payload
