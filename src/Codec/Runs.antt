-- ===== src/Codec/Runs.antt =====
-- Frames over streams that cut, interrupt and close.
use mesh_chat.Prelude.{◌≤◌, ◌≡◌, ◌≢◌, refl, Bytes, [], ◌∷◌, ◌++◌, length}
use mesh_chat.Error.{IoError, interrupted}
use mesh_chat.Codec.{done, stuck, write_frame, read_frame, write_all, to_be_bytes}
use mesh_chat.Codec.Stream.{InStream, OutStream, arrives, fails, accepts, refuses}
use mesh_chat.Codec.Reading.{content}
use mesh_chat.Codec.Writing.{Sends, total_room, write_all_correct}
use mesh_chat.Codec.Frames.{IsFrameResult, read_frame-write_frame, read_frame_total}

abbrev try_again : IoError
try_again = record { kind = interrupted; message = [] }

-- Three bytes of payload, in pieces, with an interruption on either side.
abbrev before : OutStream
before = record { rooms = accepts 5 ∷ refuses try_again ∷ accepts 9 ∷ []; sent = [] }

abbrev after : OutStream
after = record { rooms = []; sent = 0 ∷ 0 ∷ 0 ∷ 3 ∷ 7 ∷ 8 ∷ 9 ∷ [] }

abbrev arriving : InStream
arriving = arrives (0 ∷ 0 ∷ []) ∷ fails try_again ∷ arrives (0 ∷ 3 ∷ 7 ∷ 8 ∷ 9 ∷ 4 ∷ []) ∷ []

sent_in_pieces : write_frame (7 ∷ 8 ∷ 9 ∷ []) before ≡ (done tt, after)
unfolding write_frame to_be_bytes
sent_in_pieces = refl

arrives_whole : before.sent ++ content arriving ≡ after.sent ++ 4 ∷ []
unfolding content
arrives_whole = refl

read_frame-write_frame_example :
    (s' : InStream) × (read_frame arriving ≡ done (7 ∷ 8 ∷ 9 ∷ [], s')) × (content s' ≡ 4 ∷ [])
read_frame-write_frame_example =
    read_frame-write_frame (7 ∷ 8 ∷ 9 ∷ []) (4 ∷ []) before after arriving sent_in_pieces
      arrives_whole

abbrev two : Bytes
two = 7 ∷ 8 ∷ []

write_all_correct_example :
    Sends two [] (write_all two before)
    × ((write_all two before).0 ≢ stuck)
    × (length two ≤ total_room before.rooms → (write_all two before).0 ≡ done tt)
write_all_correct_example = write_all_correct two before

read_frame_total_example : IsFrameResult (read_frame arriving)
read_frame_total_example = read_frame_total arriving
