-- ===== src/Node/Events.antt =====
-- core/src/mesh.rs: `PeerState` and `Event`, everything the interface hears of, in the order it
-- happened.
use mesh_chat.Prelude.{ℕ, Text, text, Bool}
use mesh_chat.Protocol.{ℤ}

pub data PeerState : Type 0 where
  connecting connected disconnected failed : PeerState

unfoldable pub as_str : PeerState → Text
as_str connecting = text "Connecting"
as_str connected = text "Connected"
as_str disconnected = text "Disconnected"
as_str failed = text "Failed"

pub data Event : Type 0 where
  status : Text → Event
  system : Text → Event
  room_opened : (code transport dial : Text) (expires_secs : ℕ) → Event
  joined : (room transport : Text) → Event
  join_request : (req name addr fingerprint : Text) → Event
  join_resolved : (req : Text) (accepted : Bool) → Event
  peer : (id name : Text) (state : PeerState) (detail : Text) → Event
  chat : (from name : Text) (ts : ℤ) (body : Text) (mine : Bool) → Event
  file_offer : (transfer from name : Text) (size : ℕ) → Event
  file_progress : (transfer name peer : Text) (done total : ℕ) (incoming : Bool) → Event
  file_finished : (transfer name : Text) (incoming ok : Bool) (detail : Text) → Event
  error : Text → Event
  room_closed : Text → Event
