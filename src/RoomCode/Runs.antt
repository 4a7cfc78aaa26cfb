-- ===== src/RoomCode/Runs.antt =====
-- Room codes of concrete addresses.
use mesh_chat.Prelude.{◌≡◌, ◌≢◌, refl, [], ◌∷◌, Text, false, arith, length, Bytes}
use mesh_chat.Error.{ok, ◌>>=◌}
use mesh_chat.Text.{is_ascii_alphanumeric, to_ascii_lowercase, to_ascii_uppercase}
use mesh_chat.Text.SocketAddr.{SocketAddrV4, IsV4, display_v4}
use mesh_chat.Transport.{lan, bluetooth, from_tag}
use mesh_chat.Transport.Bluetooth.{format_dial}
use mesh_chat.RoomCode.{encode, decode, split, clean}
use mesh_chat.RoomCode.Base32.{b32_encode, b32_decode, decode_loop, b32_value}
use mesh_chat.RoomCode.Base32.RoundTrip.{b32_decode-b32_encode}
use mesh_chat.RoomCode.Cleaning.{decode-Retyped, empty, same, lowered, added, left_out}
use mesh_chat.RoomCode.RoundTrip.{decode-encode_lan, decode-encode_bluetooth}
use mesh_chat.RoomCode.Decoded.{IsDialable, decode-IsDialable}

-- 192.168.1.20:50321
abbrev machine : SocketAddrV4
machine = record { a = 192; b = 168; c = 1; d = 20; port = 50_321 }

machine-IsV4 : IsV4 machine
machine-IsV4 = record {
  a_byte = omega arith;
  b_byte = omega arith;
  c_byte = omega arith;
  d_byte = omega arith;
  port_word = omega arith;
}

machine-port : machine.port ≢ 0
machine-port = λ e. absurd (omega (arith, e))

decode-encode_lan_example :
    (encode (λ s. false) lan (display_v4 machine) >>= decode) ≡ ok (lan, display_v4 machine)
decode-encode_lan_example = decode-encode_lan (λ s. false) machine machine-IsV4 machine-port

decode-encode_bluetooth_example :
    (encode (λ s. false) bluetooth (format_dial 0x1122_3344_5566 25) >>= decode)
    ≡ ok (bluetooth, format_dial 0x1122_3344_5566 25)
decode-encode_bluetooth_example =
    decode-encode_bluetooth (λ s. false) 0x1122_3344_5566 25 (omega arith) (omega arith)
      (omega arith)

abbrev three : Bytes
three = 192 ∷ 168 ∷ 1 ∷ []

b32_decode-b32_encode_example : b32_decode (b32_encode three) (length three) ≡ ok three
b32_decode-b32_encode_example =
    b32_decode-b32_encode three (omega arith, (omega arith, (omega arith, tt)))

separator : is_ascii_alphanumeric 45 ≡ false
unfolding is_ascii_alphanumeric
separator = refl

blank : is_ascii_alphanumeric 32 ≡ false
unfolding is_ascii_alphanumeric
blank = refl

colon : is_ascii_alphanumeric 58 ≡ false
unfolding is_ascii_alphanumeric
colon = refl

-- `L-AB` typed as `l a:b`.
decode-Retyped_example :
    decode (to_ascii_lowercase 76 ∷ 32 ∷ to_ascii_lowercase 65 ∷ 58 ∷ 66 ∷ [])
    ≡ decode (76 ∷ 45 ∷ 65 ∷ 66 ∷ [])
decode-Retyped_example = decode-Retyped (
    lowered 76
      (left_out 45 separator (added 32 blank (lowered 65 (added 58 colon (same 66 empty))))))

-- LR2M02564J4, the code of the machine.
abbrev machine_code : Text
machine_code = 76 ∷ 82 ∷ 50 ∷ 77 ∷ 48 ∷ 50 ∷ 53 ∷ 54 ∷ 52 ∷ 74 ∷ 52 ∷ []

machine_decoded : decode machine_code ≡ ok (lan, display_v4 machine)
unfolding decode split clean is_ascii_alphanumeric from_tag b32_decode decode_loop b32_value
    to_ascii_uppercase
machine_decoded = refl

decode-IsDialable_example : IsDialable lan (display_v4 machine)
decode-IsDialable_example = decode-IsDialable machine_code lan (display_v4 machine) machine_decoded
