-- ===== src/RoomCode/Base32/RoundTrip.antt =====
-- Decoding what was encoded gives the bytes back.
use mesh_chat.Prelude.{
  ℕ, zero, suc, ◌+◌, ◌-◌, ◌*◌, ◌/◌, ◌%◌, ◌^◌, ◌≤◌, ◌<◌, ◌≡◌, refl, sym, ◌∙◌, ap, Text, Bytes, [],
  ◌∷◌, ◌++◌, append_assoc, append-nil, length, All, ◌==◌, ◌&&◌, Bool, true, false, arith, take_all,
  ==_iff, IsByte,
}
use mesh_chat.Error.{Error, Result, ok, err}
use mesh_chat.RoomCode.Base32.{
  digit, shift_in, encode_loop, b32_encode, b32_value, decode_loop, b32_decode,
}

-- A test of every digit, from the highest down.
unfoldable pub passes : (ℕ → Bool) → ℕ → Bool
passes test zero = true
passes test (suc top) = passes test top && test top

pub passed : (test : ℕ → Bool) (bound d : ℕ) → d < bound → passes test bound ≡ true → test d ≡ true
unfolding passes
passed test zero d below all = absurd (omega arith)
passed test (suc top) d below all = ground (arith, passed test top d)

abbrev has_value : Result Error ℕ → ℕ → Bool
has_value (ok v) x = v == x
has_value (err e) x = false

has_value→eq : (r : Result Error ℕ) (x : ℕ) → has_value r x ≡ true → r ≡ ok x
has_value→eq (ok v) x h = ap ok ((==_iff v x).0 h)
has_value→eq (err e) x h = cc

digits_table : passes (λ x. has_value (b32_value (digit x)) x) 32 ≡ true
unfolding passes b32_value digit
digits_table = refl

-- Each digit has its value.
pub b32_value-digit : (x : ℕ) → x < 32 → b32_value (digit x) ≡ ok x
b32_value-digit x h = has_value→eq _ x (passed _ 32 x h digits_table)

-- One character of the decoder: it completes a byte, or it does not.
decode_pushes :
    (acc bits x : ℕ) (out : Bytes) (s : Text)
    → x < 32
    → 3 ≤ bits
    → decode_loop acc bits out (digit x ∷ s)
      ≡ decode_loop
          (shift_in acc 5 x)
          (bits + 5 - 8)
          (out ++ (shift_in acc 5 x / 2 ^ (bits + 5 - 8) % 256) ∷ [])
          s
unfolding decode_loop
decode_pushes acc bits x out s h b = rw (b32_value-digit x h) (ground arith)

decode_waits :
    (acc bits x : ℕ) (out : Bytes) (s : Text)
    → x < 32
    → bits < 3
    → decode_loop acc bits out (digit x ∷ s) ≡ decode_loop (shift_in acc 5 x) (bits + 5) out s
unfolding decode_loop
decode_waits acc bits x out s h b = rw (b32_value-digit x h) (ground arith)

module _ (out : Bytes) (b : ℕ) (bytes : Bytes) where
  joined :
      {byte q p : ℕ}
      → byte ≡ q
      → p ≡ b
      → ◌≡◌ {A = Result Error Bytes}
          (ok ((out ++ byte ∷ []) ++ p ∷ bytes))
          (ok (out ++ q ∷ b ∷ bytes))
  joined e1 e2 = rw (e1, e2, append_assoc)

-- The decoder holds the `8 - r` bits of a byte whose other `r` bits the encoder has not pushed.
mutual
  unfolding encode_loop decode_loop

  from_0 :
      (acc accd : ℕ) (out bytes : Bytes)
      → All IsByte bytes
      → decode_loop accd 0 out (encode_loop acc 0 bytes) ≡ ok (out ++ bytes)
  from_0 acc accd out [] h = ap ok (sym (append-nil out))
  from_0 acc accd out (b ∷ bytes) (hb, h) =
      let acc' : ℕ = shift_in acc 8 b in
      let x : ℕ = acc' / 2 ^ 3 % 32 in
      decode_waits accd 0 x out (encode_loop acc' 3 bytes) (omega arith) (omega arith)
      ∙ from_3 acc' (shift_in accd 5 x) out bytes h
      ∙ ap (λ (y : ℕ). ok (out ++ y ∷ bytes)) (omega arith)

  from_1 :
      (acc accd : ℕ) (out bytes : Bytes)
      → All IsByte bytes
      → decode_loop accd 7 out (encode_loop acc 1 bytes)
        ≡ ok (out ++ (accd % 128 * 2 + acc % 2) ∷ bytes)
  from_1 acc accd out [] h =
      decode_pushes accd 7 (acc * 2 ^ 4 % 2 ^ 32 % 32) out [] (omega arith) (omega arith)
      ∙ ap (λ (x : ℕ). ok (out ++ x ∷ [])) (omega arith)
  from_1 acc accd out (b ∷ bytes) (hb, h) =
      let acc' : ℕ = shift_in acc 8 b in
      let x : ℕ = acc' / 2 ^ 4 % 32 in
      decode_pushes accd 7 x out (encode_loop acc' 4 bytes) (omega arith) (omega arith)
      ∙ from_4 acc' (shift_in accd 5 x) _ bytes h
      ∙ joined out b bytes (omega arith) (omega arith)

  from_2 :
      (acc accd : ℕ) (out bytes : Bytes)
      → All IsByte bytes
      → decode_loop accd 6 out (encode_loop acc 2 bytes)
        ≡ ok (out ++ (accd % 64 * 4 + acc % 4) ∷ bytes)
  from_2 acc accd out [] h =
      decode_pushes accd 6 (acc * 2 ^ 3 % 2 ^ 32 % 32) out [] (omega arith) (omega arith)
      ∙ ap (λ (x : ℕ). ok (out ++ x ∷ [])) (omega arith)
  from_2 acc accd out (b ∷ bytes) (hb, h) =
      let acc' : ℕ = shift_in acc 8 b in
      let x : ℕ = acc' / 2 ^ 5 % 32 in
      let y : ℕ = acc' / 2 ^ 0 % 32 in
      decode_pushes accd 6 x out (digit y ∷ encode_loop acc' 0 bytes) (omega arith) (omega arith)
      ∙ decode_pushes (shift_in accd 5 x) 3 y _ (encode_loop acc' 0 bytes) (omega arith)
          (omega arith)
      ∙ from_0 acc' (shift_in (shift_in accd 5 x) 5 y) _ bytes h
      ∙ ap ok (append_assoc _ (_ ∷ []) bytes)
      ∙ joined out b bytes (omega arith) (omega arith)

  from_3 :
      (acc accd : ℕ) (out bytes : Bytes)
      → All IsByte bytes
      → decode_loop accd 5 out (encode_loop acc 3 bytes)
        ≡ ok (out ++ (accd % 32 * 8 + acc % 8) ∷ bytes)
  from_3 acc accd out [] h =
      decode_pushes accd 5 (acc * 2 ^ 2 % 2 ^ 32 % 32) out [] (omega arith) (omega arith)
      ∙ ap (λ (x : ℕ). ok (out ++ x ∷ [])) (omega arith)
  from_3 acc accd out (b ∷ bytes) (hb, h) =
      let acc' : ℕ = shift_in acc 8 b in
      let x : ℕ = acc' / 2 ^ 6 % 32 in
      let y : ℕ = acc' / 2 ^ 1 % 32 in
      decode_pushes accd 5 x out (digit y ∷ encode_loop acc' 1 bytes) (omega arith) (omega arith)
      ∙ decode_waits (shift_in accd 5 x) 2 y _ (encode_loop acc' 1 bytes) (omega arith)
          (omega arith)
      ∙ from_1 acc' (shift_in (shift_in accd 5 x) 5 y) _ bytes h
      ∙ joined out b bytes (omega arith) (omega arith)

  from_4 :
      (acc accd : ℕ) (out bytes : Bytes)
      → All IsByte bytes
      → decode_loop accd 4 out (encode_loop acc 4 bytes)
        ≡ ok (out ++ (accd % 16 * 16 + acc % 16) ∷ bytes)
  from_4 acc accd out [] h =
      decode_pushes accd 4 (acc * 2 ^ 1 % 2 ^ 32 % 32) out [] (omega arith) (omega arith)
      ∙ ap (λ (x : ℕ). ok (out ++ x ∷ [])) (omega arith)
  from_4 acc accd out (b ∷ bytes) (hb, h) =
      let acc' : ℕ = shift_in acc 8 b in
      let x : ℕ = acc' / 2 ^ 7 % 32 in
      let y : ℕ = acc' / 2 ^ 2 % 32 in
      decode_pushes accd 4 x out (digit y ∷ encode_loop acc' 2 bytes) (omega arith) (omega arith)
      ∙ decode_waits (shift_in accd 5 x) 1 y _ (encode_loop acc' 2 bytes) (omega arith)
          (omega arith)
      ∙ from_2 acc' (shift_in (shift_in accd 5 x) 5 y) _ bytes h
      ∙ joined out b bytes (omega arith) (omega arith)

-- Any string of bytes survives encoding and decoding.
pub b32_decode-b32_encode :
    (bytes : Bytes) → All IsByte bytes → b32_decode (b32_encode bytes) (length bytes) ≡ ok bytes
unfolding b32_decode b32_encode
b32_decode-b32_encode bytes h =
    rw (from_0 0 0 [] bytes h) (ground (arith, take_all (length bytes) bytes))
