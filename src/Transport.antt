-- ===== src/Transport.antt =====
-- core/src/transport/mod.rs: the kinds of transport, and their names and tags. Sockets themselves
-- are the operating system's; `Codec.Stream` models a stream as its users see it.
pub mod Dialling
pub mod Bluetooth
pub mod Lan
pub mod Rfcomm
pub mod Endpoints
pub mod Probes
pub mod Reaching
pub mod Leaks
mod Runs
use mesh_chat.Prelude.{
  ℕ, ◌≡◌, refl, Text, text, Option, none, some, List, [], ◌∷◌, map, ◌==◌, ◌||◌, key_eq, Bool, true,
  false, if◌then◌else◌,
}
use mesh_chat.Text.{to_ascii_uppercase, to_ascii_lowercase}
use mesh_chat.Text.Trim.{trim}

pub data TransportKind : Type 0 where
  lan bluetooth : TransportKind

unfoldable pub as_str : TransportKind → Text
as_str lan = text "LAN"
as_str bluetooth = text "Bluetooth"

-- A transport named by the user, in any case.
unfoldable pub parse : Text → Option TransportKind
parse s =
    let name = map to_ascii_lowercase (trim s) in
    if key_eq name (text "lan") || key_eq name (text "tcp") || key_eq name (text "local")
    then some lan
    else if key_eq name (text "bluetooth") || key_eq name (text "bt") || key_eq name (text "rfcomm")
    then some bluetooth
    else none

-- The first character of a room code.
unfoldable pub tag : TransportKind → ℕ
tag lan = b'L'
tag bluetooth = b'B'

unfoldable pub from_tag : ℕ → Option TransportKind
unfolding to_ascii_uppercase
from_tag c =
    if to_ascii_uppercase c == b'L'
    then some lan
    else if to_ascii_uppercase c == b'B'
    then some bluetooth
    else none

pub from_tag-tag : (kind : TransportKind) → from_tag (tag kind) ≡ some kind
unfolding from_tag tag
from_tag-tag lan = refl
from_tag-tag bluetooth = refl

-- `code_kind != kind`
unfoldable pub kind_eq : TransportKind → TransportKind → Bool
kind_eq lan lan = true
kind_eq bluetooth bluetooth = true
kind_eq _ _ = false
