-- ===== src/RoomCode/RoundTrip.antt =====
-- A room code gives back the dial address that it was made of, on both transports.
use mesh_chat.Prelude.{
  ℕ, suc, ◌+◌, ◌/◌, ◌%◌, ◌^◌, ◌≤◌, ◌<◌, ◌≡◌, ◌≢◌, refl, ◌∙◌, ap, inl, inr, Text, Bytes, [], ◌∷◌,
  All, All-append, ltb, ◌==◌, ◌&&◌, Bool, true, arith, Bool-cases, ==_iff, IsByte,
}
use mesh_chat.Error.{Error, Result, ok, ◌>>=◌}
use mesh_chat.Text.{is_ascii_alphanumeric, to_ascii_uppercase}
use mesh_chat.Text.SocketAddr.{SocketAddrV4, v4, display_v4, parse_v4-display_v4, IsV4}
use mesh_chat.Text.SocketAddr
use mesh_chat.Transport.{TransportKind, lan, bluetooth, tag, from_tag-tag}
use mesh_chat.Transport.Bluetooth.{format_dial, parse_dial-format_dial}
use mesh_chat.RoomCode.Base32.{
  digit, drain, undrained, encode_loop, b32_encode, b32_decode, shift_in,
}
use mesh_chat.RoomCode.Base32.RoundTrip.{passes, passed, b32_decode-b32_encode}
use mesh_chat.RoomCode.{
  encode, decode, split, pretty, lan_bytes, bluetooth_bytes, lan_addr, bluetooth_addr,
}
use mesh_chat.RoomCode.Cleaning.{IsCodeChar, clean-pretty}

code_table :
    passes (λ x. is_ascii_alphanumeric (digit x) && (to_ascii_uppercase (digit x) == digit x)) 32
    ≡ true
unfolding passes digit is_ascii_alphanumeric to_ascii_uppercase
code_table = refl

both_hold : (c : ℕ) → (is_ascii_alphanumeric c && (to_ascii_uppercase c == c)) ≡ true → IsCodeChar c
both_hold c h = ground (arith, ==_iff (to_ascii_uppercase c) c)

digit-IsCodeChar : (x : ℕ) → x < 32 → IsCodeChar (digit x)
digit-IsCodeChar x h = both_hold (digit x) (passed _ 32 x h code_table)

drain-IsCodeChar : (acc bits : ℕ) → All IsCodeChar (drain acc bits)
unfolding drain
drain-IsCodeChar acc (suc (suc (suc (suc (suc bits))))) =
    (digit-IsCodeChar (acc / 2 ^ bits % 32) (omega arith), drain-IsCodeChar acc bits)
drain-IsCodeChar acc _ = tt

encode_loop-IsCodeChar :
    (acc bits : ℕ) (bytes : Bytes) → All IsCodeChar (encode_loop acc bits bytes)
unfolding encode_loop
encode_loop-IsCodeChar acc bits [] = elim (Bool-cases (ltb 0 bits)) [
  | inl some ↦ rw some (digit-IsCodeChar _ (omega arith), tt)
  | inr none ↦ rw none tt
]
encode_loop-IsCodeChar acc bits (b ∷ bytes) =
    All-append IsCodeChar (drain _ (bits + 8)) _ (drain-IsCodeChar _ (bits + 8))
      (encode_loop-IsCodeChar (shift_in acc 8 b) (undrained (bits + 8)) bytes)

b32_encode-IsCodeChar : (bytes : Bytes) → All IsCodeChar (b32_encode bytes)
unfolding b32_encode
b32_encode-IsCodeChar bytes = encode_loop-IsCodeChar 0 0 bytes

tag-IsCodeChar : (kind : TransportKind) → IsCodeChar (tag kind)
unfolding tag is_ascii_alphanumeric to_ascii_uppercase
tag-IsCodeChar lan = (refl, refl)
tag-IsCodeChar bluetooth = (refl, refl)

-- `split` takes a printed code apart.
split-pretty :
    (kind : TransportKind) (bytes : Bytes)
    → split (pretty (tag kind) (b32_encode bytes)) ≡ ok (kind, b32_encode bytes)
unfolding split
split-pretty kind bytes = rw (
  clean-pretty (tag kind) (b32_encode bytes) (tag-IsCodeChar kind) (b32_encode-IsCodeChar bytes),
  from_tag-tag kind,
)

lan_addr-lan_bytes : (x : SocketAddrV4) → IsV4 x → lan_addr (lan_bytes x) ≡ x
unfolding lan_addr lan_bytes
lan_addr-lan_bytes x v = ap (λ (p : ℕ). record x { port = p }) (omega arith)

lan_bytes-IsByte : (x : SocketAddrV4) → IsV4 x → All IsByte (lan_bytes x)
unfolding lan_bytes
lan_bytes-IsByte x v = omega arith

lan_bytes_decoded :
    (x : SocketAddrV4) → IsV4 x → b32_decode (b32_encode (lan_bytes x)) 6 ≡ ok (lan_bytes x)
unfolding lan_bytes
lan_bytes_decoded x v = b32_decode-b32_encode (lan_bytes x) (lan_bytes-IsByte x v)

encode_lan-display_v4 :
    (is_v6 : Text → Bool) (x : SocketAddrV4)
    → IsV4 x
    → encode is_v6 lan (display_v4 x) ≡ ok (pretty (tag lan) (b32_encode (lan_bytes x)))
unfolding encode SocketAddr.parse
encode_lan-display_v4 is_v6 x v = ground (arith, parse_v4-display_v4 x v)

decode-pretty_lan :
    (x : SocketAddrV4)
    → IsV4 x
    → x.port ≢ 0
    → decode (pretty (tag lan) (b32_encode (lan_bytes x))) ≡ ok (lan, display_v4 x)
unfolding decode
decode-pretty_lan x v p =
    rw (split-pretty lan (lan_bytes x))
      (ground (arith, lan_bytes_decoded x v, lan_addr-lan_bytes x v))

-- A LAN code names the address and port of the host's listener, for every port but 0.
pub decode-encode_lan :
    (is_v6 : Text → Bool) (x : SocketAddrV4)
    → IsV4 x
    → x.port ≢ 0
    → (encode is_v6 lan (display_v4 x) >>= decode) ≡ ok (lan, display_v4 x)
decode-encode_lan is_v6 x v p =
    ap (λ (r : Result Error Text). r >>= decode) (encode_lan-display_v4 is_v6 x v)
    ∙ decode-pretty_lan x v p

bluetooth_bytes_decoded :
    (addr channel : ℕ)
    → b32_decode (b32_encode (bluetooth_bytes addr channel)) 7 ≡ ok (bluetooth_bytes addr channel)
unfolding bluetooth_bytes
bluetooth_bytes_decoded addr channel =
    b32_decode-b32_encode (bluetooth_bytes addr channel) (omega arith)

bluetooth_addr-bluetooth_bytes :
    (addr channel : ℕ) → addr < 2 ^ 48 → bluetooth_addr (bluetooth_bytes addr channel) ≡ addr
unfolding bluetooth_addr bluetooth_bytes
bluetooth_addr-bluetooth_bytes addr channel h = omega arith

encode_bluetooth-format_dial :
    (is_v6 : Text → Bool) (addr channel : ℕ)
    → addr < 2 ^ 48
    → 0 < channel
    → channel ≤ 30
    → encode is_v6 bluetooth (format_dial addr channel)
      ≡ ok (pretty (tag bluetooth) (b32_encode (bluetooth_bytes addr channel)))
unfolding encode
encode_bluetooth-format_dial is_v6 addr channel h lo hi =
    rw (parse_dial-format_dial addr channel h (omega arith)) (ground arith)

decode-pretty_bluetooth :
    (addr channel : ℕ)
    → addr < 2 ^ 48
    → 0 < channel
    → channel ≤ 30
    → decode (pretty (tag bluetooth) (b32_encode (bluetooth_bytes addr channel)))
      ≡ ok (bluetooth, format_dial addr channel)
unfolding decode
decode-pretty_bluetooth addr channel h lo hi =
    rw (split-pretty bluetooth (bluetooth_bytes addr channel)) (
      rw (bluetooth_bytes_decoded addr channel) (
        rw (bluetooth_addr-bluetooth_bytes addr channel h)
          (unfold bluetooth_bytes in ground arith)))

-- A Bluetooth code names the radio and the channel of the host's listener, for channels 1 to 30.
pub decode-encode_bluetooth :
    (is_v6 : Text → Bool) (addr channel : ℕ)
    → addr < 2 ^ 48
    → 0 < channel
    → channel ≤ 30
    → (encode is_v6 bluetooth (format_dial addr channel) >>= decode)
      ≡ ok (bluetooth, format_dial addr channel)
decode-encode_bluetooth is_v6 addr channel h lo hi =
    ap (λ (r : Result Error Text). r >>= decode)
      (encode_bluetooth-format_dial is_v6 addr channel h lo hi)
    ∙ decode-pretty_bluetooth addr channel h lo hi
