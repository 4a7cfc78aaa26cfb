-- ===== src/Codec/Frames.antt =====
-- A frame that `write_frame` sent is the frame that `read_frame` returns.
use mesh_chat.Prelude.{
  ℕ, ◌+◌, ◌%◌, ◌^◌, ◌≤◌, ◌<◌, ◌≡◌, refl, ◌∙◌, ap, inl, inr, ◌⊎◌, Bytes, ◌++◌, append_assoc, arith,
  length, take, drop, ltb, take-append, drop-append, append_cancel, length-append, if◌then◌else◌,
  Bool-cases, false,
}
use mesh_chat.Error.{IoError}
use mesh_chat.Codec.Stream.{OutStream, InStream}
use mesh_chat.Codec.{
  Outcome, done, failed, write_frame, read_frame, read_exact, max_frame, to_be_bytes, from_be_bytes,
  oversized,
}
use mesh_chat.Codec.Writing.{write_all-sent}
use mesh_chat.Codec.Reading.{content, read_exact-content, read_exact_cases}

pub from_be_bytes-to_be_bytes : (n : ℕ) → n < 2 ^ 32 → from_be_bytes (to_be_bytes n) ≡ n
unfolding from_be_bytes to_be_bytes
from_be_bytes-to_be_bytes n h = omega arith

pub length-to_be_bytes : (n : ℕ) → length (to_be_bytes n) ≡ 4
unfolding to_be_bytes
length-to_be_bytes n = refl

-- The bytes of a frame on the wire.
abbrev pub wire : Bytes → Bytes
wire payload = to_be_bytes (length payload % 2 ^ 32) ++ payload

pub write_frame-sent :
    (payload : Bytes) (o o' : OutStream)
    → write_frame payload o ≡ (done tt, o')
    → (length payload ≤ max_frame) × (o'.sent ≡ o.sent ++ wire payload)
unfolding write_frame
write_frame-sent payload o o' e = elim (Bool-cases (ltb max_frame (length payload))) [
  | inl large ↦ absurd (cc (rw large at e))
  | inr fits ↦ (ground arith, write_all-sent (wire payload) o o' (rw fits at e))
]

take-to_be_bytes : (n : ℕ) (xs : Bytes) → take 4 (to_be_bytes n ++ xs) ≡ to_be_bytes n
unfolding to_be_bytes
take-to_be_bytes n xs = refl

drop-to_be_bytes : (n : ℕ) (xs : Bytes) → drop 4 (to_be_bytes n ++ xs) ≡ xs
unfolding to_be_bytes
drop-to_be_bytes n xs = refl

length-wire : (payload : Bytes) → length (wire payload) ≡ length payload + 4
length-wire payload = omega (
  arith,
  length-append (to_be_bytes (length payload % 2 ^ 32)) payload,
  length-to_be_bytes (length payload % 2 ^ 32),
)

-- The length in the header of a payload within the limit.
header_length : (n : ℕ) → n ≤ max_frame → from_be_bytes (to_be_bytes (n % 2 ^ 32)) ≡ n
header_length n h = from_be_bytes-to_be_bytes (n % 2 ^ 32) (omega arith) ∙ omega arith

module _ (payload rest : Bytes) (s : InStream) (e : content s ≡ wire payload ++ rest) where
  content-length : length (content s) ≡ length payload + 4 + length rest
  content-length = omega (
    arith,
    ap (λ (x : Bytes). length x) e,
    length-append (wire payload) rest,
    length-wire payload,
  )

  content_regrouped : content s ≡ to_be_bytes (length payload % 2 ^ 32) ++ (payload ++ rest)
  content_regrouped = e ∙ append_assoc (to_be_bytes (length payload % 2 ^ 32)) payload rest

  read_header :
      (s' : InStream) × (read_exact 4 s ≡ done (to_be_bytes (length payload % 2 ^ 32), s'))
      × (content s' ≡ payload ++ rest)
  read_header =
      let (s', r, c) = read_exact-content 4 s (omega (arith, content-length)) in
      (
        s',
        r
            ∙ ap (λ (x : Bytes). done (x, s'))
                (ap (take 4) content_regrouped ∙ take-to_be_bytes _ (payload ++ rest)),
        c ∙ ap (drop 4) content_regrouped ∙ drop-to_be_bytes _ (payload ++ rest),
      )

  -- `read_frame` on bytes that begin with a frame.
  read_frame-wire :
      length payload ≤ max_frame
      → (s' : InStream) × (read_frame s ≡ done (payload, s')) × (content s' ≡ rest)
  unfolding read_frame
  read_frame-wire h =
      let (s1, r1, c1) = read_header in
      let size : length payload ≤ length (content s1) =
        omega (arith, ap (λ (x : Bytes). length x) c1, length-append payload rest) in
      let (s2, r2, c2) = read_exact-content (length payload) s1 size in
      let small : ltb max_frame (length payload) ≡ false = ground arith in
      (
        s2,
        rw (r1, header_length (length payload) h, small)
            (r2
              ∙ ap (λ (x : Bytes). done (x, s2))
                  (ap (take (length payload)) c1 ∙ take-append payload rest)),
        c2 ∙ ap (drop (length payload)) c1 ∙ drop-append payload rest,
      )

-- A frame within the limit, or an error.
abbrev pub IsFrameResult : Outcome (Bytes × InStream) → Type 0
IsFrameResult o =
    ((payload : Bytes) × (s' : InStream) × (o ≡ done (payload, s')) × (length payload ≤ max_frame))
    ⊎ ((e : IoError) × (o ≡ failed e))

-- What `write_frame` sent, `read_frame` on the other side returns, whatever the network did to the
-- pieces on either side, and the bytes that follow are left in the stream.
pub read_frame-write_frame :
    (payload rest : Bytes) (o o' : OutStream) (s : InStream)
    → write_frame payload o ≡ (done tt, o')
    → o.sent ++ content s ≡ o'.sent ++ rest
    → (s' : InStream) × (read_frame s ≡ done (payload, s')) × (content s' ≡ rest)
read_frame-write_frame payload rest o o' s w e =
    let (h, sent) = write_frame-sent payload o o' w in
    read_frame-wire payload rest s
      (append_cancel o.sent (content s) (wire payload ++ rest)
        (e ∙ ap (λ (x : Bytes). x ++ rest) sent ∙ append_assoc o.sent (wire payload) rest))
      h

frame_body :
    (hdr : Bytes) (s : InStream)
    → IsFrameResult (
        if ltb max_frame (from_be_bytes hdr)
        then failed oversized
        else read_exact (from_be_bytes hdr) s)
frame_body hdr s = elim (Bool-cases (ltb max_frame (from_be_bytes hdr))) [
  | inl large ↦ rw large (inr (oversized, refl))
  | inr small ↦ rw small (elim (read_exact_cases (from_be_bytes hdr) s) [
    | inl (got, s', r, n) ↦ inl (got, s', r, ground arith)
    | inr failure ↦ inr failure
  ])
]

-- `read_frame` always ends, with a frame within the limit or with an error.
pub read_frame_total : (s : InStream) → IsFrameResult (read_frame s)
unfolding read_frame
read_frame_total s = elim (read_exact_cases 4 s) [
  | inl (hdr, s', r, n) ↦ rw r (frame_body hdr s')
  | inr (e, r) ↦ rw r (inr (e, refl))
]
