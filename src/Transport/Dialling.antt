-- ===== src/Transport/Dialling.antt =====
-- core/src/transport/bluetooth_windows.rs with core/src/roomcode.rs: the code of a Bluetooth host leads a joiner to the host's listener.
use mesh_chat.Prelude.{
  ℕ, ◌^◌, ◌≤◌, ◌<◌, ◌≡◌, refl, sym, ap, subst, Text, Option, none, some, List, ◌∷◌, Bool, arith,
}
use mesh_chat.Error.{Error, IoError, Result, ok, err, ◌>>=◌}
use mesh_chat.RoomCode.{encode, decode}
use mesh_chat.RoomCode.RoundTrip.{decode-encode_bluetooth}
use mesh_chat.Transport.{bluetooth}
use mesh_chat.Transport.Bluetooth.{format_dial, parse_dial-format_dial}
use mesh_chat.Transport.Rfcomm.{Winsock, SockaddrBth, sockaddr, bt_port_any, BtListener, connect_to}
use mesh_chat.Transport.Rfcomm

-- A dial string that stands for a radio and a channel: the room code carries it, and dialling it is
-- a connection to them.
pub record ReachesBluetooth (is_v6 : Text → Bool) (target : SockaddrBth) (dial : Text)
    : Type 0 where
  pub decoded : (encode is_v6 bluetooth dial >>= decode) ≡ ok (bluetooth, dial)
  pub dialled :
      (ws : Winsock) (live : List ℕ) → Rfcomm.connect ws dial live ≡ connect_to ws target live

pub bluetooth_reaches :
    (is_v6 : Text → Bool) (target : SockaddrBth)
    → target.bt_addr < 2 ^ 48
    → 0 < target.port
    → target.port ≤ 30
    → ReachesBluetooth is_v6 target (format_dial target.bt_addr target.port)
unfolding Rfcomm.connect
bluetooth_reaches is_v6 target a lo hi = record {
  decoded = decode-encode_bluetooth is_v6 target.bt_addr target.port a lo hi;
  dialled = λ ws live.
      ap (λ r. Rfcomm.parsed ws r live)
        (parse_dial-format_dial target.bt_addr target.port a (omega arith));
}

-- What a listener that opened is, by the name of its socket.
abbrev pub Opened : Winsock → BtListener → Type 0
Opened ws l =
    (target : SockaddrBth) × (ws.getsockname l.sock ≡ ok target)
    × (l.dial ≡ format_dial target.bt_addr target.port)

abbrev pub listener_of : Result Error BtListener × List ℕ → Option BtListener
listener_of (ok l, now) = some l
listener_of (err e, now) = none

pub some_inj : (x y : BtListener) → some x ≡ some y → x ≡ y
some_inj x y e = cc

pub listen-Opened :
    (ws : Winsock) (l : BtListener) (live now : List ℕ)
    → Rfcomm.listen ws live ≡ (ok l, now)
    → Opened ws l
unfolding Rfcomm.listen
listen-Opened ws l live now e = socketed (ws.socket live) (ap listener_of e)
  where
    readied :
        (s : ℕ) (actual : SockaddrBth) (r : Result IoError (Unit {0})) (rest : List ℕ)
        → ws.getsockname s ≡ ok actual
        → listener_of (Rfcomm.ready s actual r rest) ≡ some l
        → Opened ws l
    readied s actual (err x) rest n e = cc e
    readied s actual (ok _) rest n e =
        subst (λ (k : BtListener). Opened ws k) (some_inj _ l e) (actual, n, refl)

    named :
        (s : ℕ) (r : Result IoError SockaddrBth) (rest : List ℕ)
        → ws.getsockname s ≡ r
        → listener_of (Rfcomm.named ws s r rest) ≡ some l
        → Opened ws l
    named s (err x) rest n e = cc e
    named s (ok actual) rest n e = readied s actual (ws.listen s 8) rest n e

    bound :
        (s : ℕ) (r : Result IoError (Unit {0})) (rest : List ℕ)
        → listener_of (Rfcomm.bound ws s r rest) ≡ some l
        → Opened ws l
    bound s (err x) rest e = cc e
    bound s (ok _) rest e = named s (ws.getsockname s) rest refl e

    socketed :
        (r : Result IoError ℕ) → listener_of (Rfcomm.listening ws r live) ≡ some l → Opened ws l
    socketed (err x) e = cc e
    socketed (ok s) e = bound s (ws.bind s (sockaddr 0 bt_port_any)) (s ∷ live) e

-- When the name of a listener's socket is a 48-bit radio address and a channel from 1 to 30, the
-- listener's dial address is carried by the room code: a joiner decodes the code to this very
-- address and dials this radio and this channel, whichever channel the system chose.
pub connect-listen_bluetooth :
    (is_v6 : Text → Bool) (ws : Winsock) (l : BtListener) (live now : List ℕ)
    → Rfcomm.listen ws live ≡ (ok l, now)
    → ((target : SockaddrBth)
        → ws.getsockname l.sock ≡ ok target
        → (target.bt_addr < 2 ^ 48) × (0 < target.port) × (target.port ≤ 30))
    → (target : SockaddrBth) × (ws.getsockname l.sock ≡ ok target)
      × ReachesBluetooth is_v6 target l.dial
connect-listen_bluetooth is_v6 ws l live now e h =
    let (target, n, d) = listen-Opened ws l live now e in
    let (a, lo, hi) = h target n in
    (
      target,
      n,
      subst (λ (t : Text). ReachesBluetooth is_v6 target t) (sym d)
          (bluetooth_reaches is_v6 target a lo hi),
    )
