-- ===== src/Codec/Stream.antt =====
-- The two directions of a `Stream` as its caller sees them: what each later call will meet, chosen
-- by the network. A closed connection is the end of the list.
use mesh_chat.Prelude.{ℕ, Bytes, List, [], ◌∷◌, ◌++◌, length, take, drop, leb, if◌then◌else◌}
use mesh_chat.Error.{IoError, Result, ok, err}

-- `arrives bs`: bytes that the transport holds ready; `fails e`: one call returns the error.
pub data Arrival : Type 0 where
  arrives : Bytes → Arrival
  fails : IoError → Arrival

abbrev pub InStream : Type 0
InStream = List Arrival

-- `Stream::read` with a buffer of `cap` bytes: at most `cap` of the bytes that are ready.
unfoldable pub read : ℕ → InStream → Result IoError Bytes × InStream
read cap [] = (ok [], [])
read cap (arrives bs ∷ s) =
    if leb (length bs) cap then (ok bs, s) else (ok (take cap bs), arrives (drop cap bs) ∷ s)
read cap (fails e ∷ s) = (err e, s)

-- `accepts k`: the transport has room for `k` bytes.
pub data Room : Type 0 where
  accepts : ℕ → Room
  refuses : IoError → Room

pub record OutStream : Type 0 where
  pub rooms : List Room
  pub sent : Bytes

write_to : List Room → Bytes → Bytes → Result IoError ℕ × OutStream
write_to [] sent buf = (ok 0, record { rooms = []; sent = sent })
write_to (accepts k ∷ r) sent buf =
    (ok (length (take k buf)), record { rooms = r; sent = sent ++ take k buf })
write_to (refuses e ∷ r) sent buf = (err e, record { rooms = r; sent = sent })

-- `Stream::write`: the number of bytes taken, which may be less than all.
unfoldable pub write : Bytes → OutStream → Result IoError ℕ × OutStream
unfolding write_to
write buf o = write_to o.rooms o.sent buf
