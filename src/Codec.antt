-- ===== src/Codec.antt =====
-- core/src/codec.rs: length-prefixed frames over a byte stream that may cut reads and writes short,
-- interrupt them, fail or close (`Stream` of core/src/transport/mod.rs).
pub mod Stream
pub mod Reading
pub mod Writing
pub mod Frames
mod Runs
use mesh_chat.Prelude.{
  ℕ, zero, suc, ◌+◌, ◌-◌, ◌*◌, ◌/◌, ◌%◌, ◌^◌, Bytes, text, Option, none, some, List, [], ◌∷◌, ◌++◌,
  length, drop, ltb, ◌==◌, if◌then◌else◌, Bool, true, false,
}
use mesh_chat.Error.{
  IoError, ErrorKind, unexpected_eof, write_zero, invalid_input, invalid_data, interrupted, Result,
  ok, err,
}
use Stream.{InStream, OutStream, read, write}

abbrev pub max_frame : ℕ
max_frame = 65535

-- What a call of `read_exact` or `write_all` ends with. `stuck` is no outcome of the source: the
-- fuel ran out.
pub data Outcome {ℓ} (A : Type ℓ) : Type ℓ where
  done : A → Outcome A
  failed : IoError → Outcome A
  stuck : Outcome A

abbrev closed_connection : IoError
closed_connection = record {
  kind = unexpected_eof;
  message = text "the peer closed the connection";
}

abbrev stopped_accepting : IoError
stopped_accepting = record { kind = write_zero; message = text "the peer stopped accepting data" }

abbrev is_interrupted : ErrorKind → Bool
is_interrupted interrupted = true
is_interrupted _ = false

-- The loop of `read_exact`: `need` bytes are missing (`buf.len() - off`), `got` are in the buffer.
unfoldable pub read_loop : ℕ → ℕ → Bytes → InStream → Outcome (Bytes × InStream)
unfolding read
read_loop zero need got s = stuck
read_loop (suc fuel) need got s =
    let (r, s') = read need s in
    let more : Outcome (Bytes × InStream) = elim r [
      | ok [] ↦ failed closed_connection
      | ok (b ∷ bs) ↦ read_loop fuel (need - length (b ∷ bs)) (got ++ (b ∷ bs)) s'
      | err e ↦ elim (is_interrupted e.kind) [
        | true ↦ read_loop fuel need got s'
        | false ↦ failed e
      ]
    ] in
    if need == 0 then done (got, s) else more

-- Every round but the last takes an entry of `s`, so this fuel is enough (Codec.Reading).
unfoldable pub read_exact : ℕ → InStream → Outcome (Bytes × InStream)
unfolding read_loop
read_exact n s = read_loop (suc (length s)) n [] s

-- The loop of `write_all` over what is left of the buffer, `&buf[off..]`.
unfoldable pub write_loop : ℕ → Bytes → OutStream → Outcome (Unit {0}) × OutStream
unfolding write
write_loop zero buf o = (stuck, o)
write_loop (suc fuel) [] o = (done tt, o)
write_loop (suc fuel) (b ∷ buf) o =
    let (r, o') = write (b ∷ buf) o in
    elim r [
      | ok zero ↦ (failed stopped_accepting, o')
      | ok (suc n) ↦ write_loop fuel (drop n buf) o'
      | err e ↦ elim (is_interrupted e.kind) [
        | true ↦ write_loop fuel (b ∷ buf) o'
        | false ↦ (failed e, o')
      ]
    ]

unfoldable pub write_all : Bytes → OutStream → Outcome (Unit {0}) × OutStream
unfolding write_loop
write_all buf o = write_loop (suc (length o.rooms)) buf o

-- `u32::to_be_bytes` and `u32::from_be_bytes`.
unfoldable pub to_be_bytes : ℕ → Bytes
to_be_bytes n = (n / 2 ^ 24 % 256) ∷ (n / 2 ^ 16 % 256) ∷ (n / 2 ^ 8 % 256) ∷ (n % 256) ∷ []

unfoldable pub from_be_bytes : Bytes → ℕ
from_be_bytes (a ∷ b ∷ c ∷ d ∷ []) = a * 2 ^ 24 + b * 2 ^ 16 + c * 2 ^ 8 + d
from_be_bytes _ = 0

unfoldable pub write_frame : Bytes → OutStream → Outcome (Unit {0}) × OutStream
unfolding write_all
write_frame payload o =
    if ltb max_frame (length payload)
    then (failed (record { kind = invalid_input; message = text "frame too large" }), o)
    else write_all (to_be_bytes (length payload % 2 ^ 32) ++ payload) o

abbrev oversized : IoError
oversized = record {
  kind = invalid_data;
  message = text "oversized frame - not a peer speaking this protocol";
}

infixl 5 ◌>>=◌
abbrev pub ◌>>=◌ {ℓ κ} : {A : Type ℓ} {B : Type κ} → Outcome A → (A → Outcome B) → Outcome B
done a >>= f = f a
failed e >>= f = failed e
stuck >>= f = stuck

unfoldable pub read_frame : InStream → Outcome (Bytes × InStream)
read_frame s = do
  (hdr, s') ← read_exact 4 s
  if ltb max_frame (from_be_bytes hdr) then failed oversized else read_exact (from_be_bytes hdr) s'
