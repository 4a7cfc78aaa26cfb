-- ===== src/Protocol/Frames.antt =====
-- What one side encodes the other side decodes, and `decode` tells the kinds of frames apart.
use mesh_chat.Prelude.{
  ℕ, ◌^◌, ◌≤◌, ◌<◌, ◌≡◌, ◌≢◌, sym, ◌∙◌, ap, inl, inr, Bytes, [], ◌∷◌, ◌++◌, length, length-append,
  take, drop, take-append, drop-append, ltb, ◌==◌, false, arith, Bool-cases, IsByte, All, All-drop,
  take-append-drop, length-take, length-drop,
}
use mesh_chat.Error.{Error, Result, ok, Result-cases}
use mesh_chat.Codec.{to_be_bytes, from_be_bytes}
use mesh_chat.Codec.Frames.{from_be_bytes-to_be_bytes, length-to_be_bytes}
use mesh_chat.Protocol.{
  Json, Control, Frame, control, chunk, encode_control, encode_chunk, decode, decode_control,
  decode_chunk, kind_control, kind_chunk,
}

-- Every control message that could be encoded is decoded to itself.
pub decode-encode_control :
    (json : Json) (c : Control) (buf : Bytes)
    → encode_control json c ≡ ok buf
    → decode json buf ≡ ok (control c)
unfolding encode_control decode
decode-encode_control json c buf e = elim (Result-cases (json.to_vec c)) [
  | inl (body, r) ↦ ground (arith, r, json.from_slice-to_vec c body r)
  | inr (m, r) ↦ cc (rw r at e)
]

take_id : (n : ℕ) (id rest : Bytes) → length id ≡ n → take n (id ++ rest) ≡ id
take_id n id rest h = rw (← h) (take-append id rest)

drop_id : (n : ℕ) (id rest : Bytes) → length id ≡ n → drop n (id ++ rest) ≡ rest
drop_id n id rest h = rw (← h) (drop-append id rest)

decode_chunk-parts :
    (id : Bytes) (seq : ℕ) (bytes : Bytes)
    → length id ≡ 16
    → seq < 2 ^ 32
    → decode_chunk (id ++ (to_be_bytes seq ++ bytes)) ≡ ok (chunk id seq bytes)
unfolding decode_chunk
decode_chunk-parts id seq bytes h s =
    rw
      (
        take_id 16 id (to_be_bytes seq ++ bytes) h,
        drop_id 16 id (to_be_bytes seq ++ bytes) h,
        take_id 4 (to_be_bytes seq) bytes (length-to_be_bytes seq),
        drop_id 4 (to_be_bytes seq) bytes (length-to_be_bytes seq),
        from_be_bytes-to_be_bytes seq s,
      )
      (ground (
        arith,
        length-append id (to_be_bytes seq ++ bytes),
        length-append (to_be_bytes seq) bytes,
        length-to_be_bytes seq,
      ))

-- A chunk comes back with its transfer, its number and its bytes, whatever the bytes are.
pub decode-encode_chunk :
    (json : Json) (id : Bytes) (seq : ℕ) (bytes : Bytes)
    → length id ≡ 16
    → seq < 2 ^ 32
    → decode json (encode_chunk id seq bytes) ≡ ok (chunk id seq bytes)
unfolding decode encode_chunk
decode-encode_chunk json id seq bytes h s = decode_chunk-parts id seq bytes h s

from_be_bytes-parts :
    (body : Bytes)
    → All IsByte body
    → 4 ≤ length body
    → (to_be_bytes (from_be_bytes (take 4 body)) ≡ take 4 body)
      × (from_be_bytes (take 4 body) < 2 ^ 32)
unfolding from_be_bytes to_be_bytes
from_be_bytes-parts (a ∷ b ∷ c ∷ d ∷ s) (ha, (hb, (hc, (hd, h)))) l =
    (four (omega arith) (omega arith) (omega arith) (omega arith), omega arith)
  where
    four :
        {p q r t : ℕ}
        → p ≡ a
        → q ≡ b
        → r ≡ c
        → t ≡ d
        → ◌≡◌ {A = Bytes} (p ∷ q ∷ r ∷ t ∷ []) (a ∷ b ∷ c ∷ d ∷ [])
    four ep eq er et = cc
from_be_bytes-parts [] h l = absurd (omega arith)
from_be_bytes-parts (a ∷ []) h l = absurd (omega arith)
from_be_bytes-parts (a ∷ b ∷ []) h l = absurd (omega arith)
from_be_bytes-parts (a ∷ b ∷ c ∷ []) h l = absurd (omega arith)

long_enough : (body : Bytes) → ltb (length body) 20 ≡ false → 20 ≤ length body
long_enough body h = ground arith

-- The parts of a chunk, put together again.
decode_chunk-rebuilds :
    (body id bytes : Bytes) (seq : ℕ)
    → All IsByte body
    → decode_chunk body ≡ ok (chunk id seq bytes)
    → (body ≡ id ++ (to_be_bytes seq ++ bytes)) × (length id ≡ 16) × (seq < 2 ^ 32)
unfolding decode_chunk
decode_chunk-rebuilds body id bytes seq h e = elim (Bool-cases (ltb (length body) 20)) [
  | inl short ↦ cc (rw short at e)
  | inr long ↦
      let rest : Bytes = drop 16 body in
      let (whole, small) =
        from_be_bytes-parts rest (All-drop IsByte 16 body h)
          (omega (arith, length-drop 16 body, long_enough body long)) in
      let f : ◌≡◌ {A = Result Error Frame}
          (ok (chunk (take 16 body) (from_be_bytes (take 4 rest)) (drop 4 rest)))
          (ok (chunk id seq bytes)) =
        rw long at e in
      let eid : take 16 body ≡ id = cc in
      let eseq : from_be_bytes (take 4 rest) ≡ seq = cc in
      let ebytes : drop 4 rest ≡ bytes = cc in
      (
        sym (take-append-drop 16 body)
            ∙ ap (◌++◌ (take 16 body))
                (sym (take-append-drop 4 rest) ∙ ap (λ (x : Bytes). x ++ drop 4 rest) (sym whole))
            ∙ rw (eid, eseq, ebytes),
        ap (λ (x : Bytes). length x) (sym eid)
            ∙ omega (arith, length-take 16 body, long_enough body long),
        omega arith,
      )
]

not_control :
    (json : Json) (body id bytes : Bytes) (seq : ℕ)
    → decode_control json body ≢ ok (chunk id seq bytes)
unfolding decode_control
not_control json body id bytes seq e = elim (Result-cases (json.from_slice body)) [
  | inl (c, r) ↦ cc (rw r at e)
  | inr (m, r) ↦ cc (rw r at e)
]

-- A frame that decodes to a chunk is the encoding of that chunk, with a transfer id of 16 bytes and
-- a number of 32 bits; so no two frames decode to one chunk.
pub encode_chunk-decode :
    (json : Json) (buf id bytes : Bytes) (seq : ℕ)
    → All IsByte buf
    → decode json buf ≡ ok (chunk id seq bytes)
    → (buf ≡ encode_chunk id seq bytes) × (length id ≡ 16) × (seq < 2 ^ 32)
unfolding decode encode_chunk
encode_chunk-decode json [] id bytes seq h e = cc
encode_chunk-decode json (kind ∷ body) id bytes seq h e = elim (Bool-cases (kind == kind_control)) [
  | inl message ↦ absurd (not_control json body id bytes seq (rw message at e))
  | inr other ↦ elim (Bool-cases (kind == kind_chunk)) [
    | inl data_frame ↦
        let (whole, l, s) =
          decode_chunk-rebuilds body id bytes seq h.1 (rw (other, data_frame) at e) in
        (
          ap (λ (x : Bytes). kind ∷ x) whole
              ∙ ap (λ (k : ℕ). k ∷ (id ++ (to_be_bytes seq ++ bytes))) (ground arith),
          l,
          s,
        )
    | inr unknown ↦ cc (rw (other, unknown) at e)
  ]
]
