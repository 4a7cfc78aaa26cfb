-- ===== src/Transport/Rfcomm.antt =====
-- core/src/transport/bluetooth_windows.rs: listening and dialling over RFCOMM. A socket is a number,
-- what Winsock answers to a call is a parameter, and the open sockets are state that is
-- passed on.
use mesh_chat.Prelude.{
  ℕ, ◌-◌, ◌%◌, ◌^◌, Text, Bytes, text, cat, Option, none, some, List, [], ◌∷◌, ◌==◌, keep, min, not,
  Bool, true, false, if◌then◌else◌,
}
use mesh_chat.Error.{Error, IoError, other, unsupported, closed, io, Result, ok, err}
use mesh_chat.Text.Decimal.{decimal}
use mesh_chat.Transport.Bluetooth.{format_addr, format_dial, parse_dial}

abbrev pub rfcomm_channel : ℕ
rfcomm_channel = 25

abbrev pub bt_port_any : ℕ
bt_port_any = 4_294_967_295

-- `SockaddrBth`, whose other fields are constants.
pub record SockaddrBth : Type 0 where
  pub bt_addr : ℕ
  pub port : ℕ

abbrev pub sockaddr : ℕ → ℕ → SockaddrBth
sockaddr addr port = record { bt_addr = addr; port = port }

pub record Winsock : Type 0 where
  pub socket : (live : List ℕ) → Result IoError ℕ
  pub bind : ℕ → SockaddrBth → Result IoError (Unit {0})
  pub getsockname : ℕ → Result IoError SockaddrBth
  pub listen : ℕ → (backlog : ℕ) → Result IoError (Unit {0})
  pub connect : ℕ → SockaddrBth → Result IoError (Unit {0})
  pub accept : ℕ → Result IoError (ℕ × SockaddrBth)

pub record BtStream : Type 0 where
  pub sock : ℕ
  pub label : Text
  pub closed : Bool

pub record BtListener : Type 0 where
  pub sock : ℕ
  pub dial : Text
  pub closed : Bool

unfoldable pub closesocket : ℕ → List ℕ → List ℕ
closesocket s live = keep (λ x. not (x == s)) live

abbrev pub no_socket : IoError → Error
no_socket e =
    unsupported (cat (text "could not create a Bluetooth socket (" ∷ e.message ∷ text ")" ∷ []))

abbrev pub bind_failed : IoError → Error
bind_failed e = unsupported (cat (text "Bluetooth bind failed: " ∷ e.message ∷ []))

abbrev pub ready :
    ℕ → SockaddrBth → Result IoError (Unit {0}) → List ℕ → Result Error BtListener × List ℕ
ready s actual (err e) live = (err (io e), closesocket s live)
ready s actual (ok _) live =
    (ok (record { sock = s; dial = format_dial actual.bt_addr actual.port; closed = false }), live)

abbrev pub named :
    Winsock → ℕ → Result IoError SockaddrBth → List ℕ → Result Error BtListener × List ℕ
named ws s (err e) live = (err (io e), closesocket s live)
named ws s (ok actual) live = ready s actual (ws.listen s 8) live

abbrev pub bound :
    Winsock → ℕ → Result IoError (Unit {0}) → List ℕ → Result Error BtListener × List ℕ
bound ws s (err e) live = (err (bind_failed e), closesocket s live)
bound ws s (ok _) live = named ws s (ws.getsockname s) live

abbrev pub listening : Winsock → Result IoError ℕ → List ℕ → Result Error BtListener × List ℕ
listening ws (err e) live = (err (no_socket e), live)
listening ws (ok s) live = bound ws s (ws.bind s (sockaddr 0 bt_port_any)) (s ∷ live)

unfoldable pub listen : Winsock → List ℕ → Result Error BtListener × List ℕ
listen ws live = listening ws (ws.socket live) live

abbrev pub unreachable : SockaddrBth → IoError → Error
unreachable target e = closed (
    cat (
      text "could not reach Bluetooth device "
      ∷ format_addr target.bt_addr
      ∷ text " on channel "
      ∷ decimal target.port
      ∷ text " ("
      ∷ e.message
      ∷ text
          "). Make sure the two devices are paired in Windows Settings and that the host is waiting for a joiner."
      ∷ []))

abbrev pub reached :
    ℕ → SockaddrBth → Result IoError (Unit {0}) → List ℕ → Result Error BtStream × List ℕ
reached s target (err e) live = (err (unreachable target e), closesocket s live)
reached s target (ok _) live =
    (ok (record { sock = s; label = format_addr target.bt_addr; closed = false }), live)

abbrev pub dialling :
    Winsock → SockaddrBth → Result IoError ℕ → List ℕ → Result Error BtStream × List ℕ
dialling ws target (err e) live = (err (no_socket e), live)
dialling ws target (ok s) live = reached s target (ws.connect s target) (s ∷ live)

-- `connect` once the address is parsed.
unfoldable pub connect_to : Winsock → SockaddrBth → List ℕ → Result Error BtStream × List ℕ
connect_to ws target live = dialling ws target (ws.socket live) live

abbrev pub parsed : Winsock → Result Error (ℕ × ℕ) → List ℕ → Result Error BtStream × List ℕ
parsed ws (err e) live = (err e, live)
parsed ws (ok (target, channel)) live = connect_to ws (sockaddr target channel) live

unfoldable pub connect : Winsock → Text → List ℕ → Result Error BtStream × List ℕ
connect ws addr live = parsed ws (parse_dial addr) live

abbrev pub listener_closed : IoError
listener_closed = record { kind = other; message = text "listener closed" }

abbrev pub accepted :
    Bool → Result IoError (ℕ × SockaddrBth) → List ℕ → Result IoError BtStream × List ℕ
accepted is_closed (err e) live = (err (if is_closed then listener_closed else e), live)
accepted is_closed (ok (s, addr)) live =
    (ok (record { sock = s; label = format_addr addr.bt_addr; closed = false }), s ∷ live)

unfoldable pub accept : Winsock → BtListener → List ℕ → Result IoError BtStream × List ℕ
accept ws l live = accepted l.closed (ws.accept l.sock) live

-- `swap(true)`: only the first close reaches the socket. `Drop` closes too.
unfoldable pub close : BtStream → List ℕ → BtStream × List ℕ
close s live = (record s { closed = true }, if s.closed then live else closesocket s.sock live)

unfoldable pub close_listener : BtListener → List ℕ → BtListener × List ℕ
close_listener l live =
    (record l { closed = true }, if l.closed then live else closesocket l.sock live)

-- `read`: no call for an empty buffer.
abbrev pub read : (cap : ℕ) → (recv : Result IoError Bytes) → Result IoError Bytes
read cap recv = if cap == 0 then ok [] else recv

-- The milliseconds of a timeout, capped, and 0 for none.
abbrev pub timeout_ms : Option ℕ → ℕ
timeout_ms none = 0
timeout_ms (some ms) = min ms (2 ^ 32 - 1)

-- What the radio of this machine answers: a search handle with the radio, and its address or an
-- error code.
abbrev pub radio_info : Result ℕ ℕ → Result Error ℕ
radio_info (err rc) = err (
    unsupported (
      cat (
        text "could not read the local Bluetooth radio information (Windows error "
        ∷ decimal rc
        ∷ text ")"
        ∷ [])))
radio_info (ok address) = ok (address % 2 ^ 48)

unfoldable pub local_radio_address : Option (Result ℕ ℕ) → Result Error ℕ
local_radio_address none =
    err (unsupported (text "no Bluetooth radio found on this machine (is Bluetooth switched on?)"))
local_radio_address (some info) = radio_info info
