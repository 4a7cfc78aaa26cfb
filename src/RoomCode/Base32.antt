-- ===== src/RoomCode/Base32.antt =====
-- `b32_encode`, `b32_value` and `b32_decode` of core/src/roomcode.rs: Crockford base 32.
pub mod RoundTrip
use mesh_chat.Prelude.{
  ℕ, zero, suc, ◌+◌, ◌-◌, ◌*◌, ◌/◌, ◌%◌, ◌^◌, ◌<◌, Text, Bytes, text, Option, none, some, List, [],
  ◌∷◌, ◌++◌, length, take, ltb, leb, ◌==◌, ◌||◌, Bool, true, false, if◌then◌else◌,
}
use mesh_chat.Error.{Error, room_code, Result, ok, err, ◌>>=◌, ok_or}
use mesh_chat.Text.{to_ascii_uppercase}

unfoldable pub alphabet : Text
unfolding text
alphabet = text "0123456789ABCDEFGHJKMNPQRSTVWXYZ"

abbrev nth : Text → ℕ → ℕ
nth [] i = 0
nth (c ∷ s) zero = c
nth (c ∷ s) (suc i) = nth s i

-- `ALPHABET[i]`; the index is masked to five bits, so it is in range.
unfoldable pub digit : ℕ → ℕ
unfolding alphabet
digit i = nth alphabet i

-- `(acc << k) | b` in a `u32`, for a `b` below `2 ^ k`.
abbrev pub shift_in : ℕ → ℕ → ℕ → ℕ
shift_in acc k b = acc * 2 ^ k % 2 ^ 32 + b

-- `while bits >= 5`: the characters that it pushes, and the bits that it leaves.
unfoldable pub drain : ℕ → ℕ → Text
drain acc (suc (suc (suc (suc (suc bits))))) = digit (acc / 2 ^ bits % 32) ∷ drain acc bits
drain acc _ = []

unfoldable pub undrained : ℕ → ℕ
undrained (suc (suc (suc (suc (suc bits))))) = undrained bits
undrained bits = bits

unfoldable pub encode_loop : ℕ → ℕ → Bytes → Text
unfolding drain undrained
encode_loop acc bits [] = if ltb 0 bits then digit (acc * 2 ^ (5 - bits) % 2 ^ 32 % 32) ∷ [] else []
encode_loop acc bits (b ∷ bytes) =
    let acc' = shift_in acc 8 b in
    drain acc' (bits + 8) ++ encode_loop acc' (undrained (bits + 8)) bytes

unfoldable pub b32_encode : Bytes → Text
unfolding encode_loop
b32_encode bytes = encode_loop 0 0 bytes

-- The substitutions for characters that people commonly mistype.
unfoldable pub substitute : ℕ → ℕ
substitute c = if c == b'I' || c == b'L' then b'1' else if c == b'O' then b'0' else c

position : ℕ → Text → Option ℕ
position c [] = none
position c (a ∷ s) = elim (a == c) [
  | true ↦ some 0
  | false ↦ elim (position c s) [ none ↦ none | some p ↦ some (suc p) ]
]

unfoldable pub b32_value : ℕ → Result Error ℕ
unfolding alphabet position substitute to_ascii_uppercase
b32_value c =
    let c' = substitute (to_ascii_uppercase c) in
    ok_or (position c' alphabet)
      (room_code (text "'" ++ (c' ∷ text "' is not a valid character in a room code")))

unfoldable pub decode_loop : ℕ → ℕ → Bytes → Text → Result Error Bytes
decode_loop acc bits out [] = ok out
decode_loop acc bits out (c ∷ s) = b32_value c >>= λ v.
    let acc' = shift_in acc 5 v in
    let bits' = bits + 5 in
    elim (leb 8 bits') [
      | true ↦ decode_loop acc' (bits' - 8) (out ++ (acc' / 2 ^ (bits' - 8) % 256) ∷ []) s
      | false ↦ decode_loop acc' bits' out s
    ]

unfoldable pub b32_decode : Text → ℕ → Result Error Bytes
b32_decode s expected_bytes = do
  out ← decode_loop 0 0 [] s
  if ltb (length out) expected_bytes
      then err (room_code (text "room code is too short"))
      else ok (take expected_bytes out)
