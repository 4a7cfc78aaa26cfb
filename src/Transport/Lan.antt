-- ===== src/Transport/Lan.antt =====
-- core/src/transport/lan.rs: listening and dialling over TCP. A socket is a number, and what the
-- operating system answers to a call is a parameter.
use mesh_chat.Prelude.{
  ℕ, Text, text, cat, Option, none, some, List, [], ◌∷◌, ◌++◌, ◌==◌, ◌&&◌, Bool, true, false,
  if◌then◌else◌,
}
use mesh_chat.Error.{
  Error, IoError, other, room_code, closed, Result, ok, err, ◌>>=◌, lift_io, ok_or,
}
use mesh_chat.Text.Decimal.{decimal}
use mesh_chat.Text.SocketAddr.{SocketAddr, parse}

pub record Ip : Type 0 where
  pub a : ℕ
  pub b : ℕ
  pub c : ℕ
  pub d : ℕ

unfoldable pub display_ip : Ip → Text
display_ip ip =
    decimal ip.a ++ (b'.' ∷ (decimal ip.b ++ (b'.' ∷ (decimal ip.c ++ (b'.' ∷ decimal ip.d)))))

abbrev pub is_unspecified : Ip → Bool
is_unspecified ip = ip.a == 0 && ip.b == 0 && ip.c == 0 && ip.d == 0

pub data LocalAddr : Type 0 where
  ipv4 : Ip → LocalAddr
  ipv6 : LocalAddr

-- What a UDP socket answers when it is bound and "connected" to a probe.
pub record Route : Type 0 where
  pub binds : Bool
  pub connects : Bool
  pub local_addr : Option LocalAddr

abbrev pub ip_of : Option LocalAddr → Option Ip
ip_of none = none
ip_of (some ipv6) = none
ip_of (some (ipv4 ip)) = if is_unspecified ip then none else some ip

abbrev pub probed : Route → Option Ip
probed r = if r.binds && r.connects then ip_of r.local_addr else none

abbrev pub or_else : Option Ip → Ip → Ip
or_else none rest = rest
or_else (some ip) rest = ip

abbrev pub loopback : Ip
loopback = record { a = 127; b = 0; c = 0; d = 1 }

-- The address of the first probe that has one, or else the loopback address.
unfoldable pub first_ip : List Route → Ip
first_ip [] = loopback
first_ip (r ∷ routes) = or_else (probed r) (first_ip routes)

-- What the system answers to the calls of a listener and a dialler: a socket, a port, the routes to
-- the three probes, and a connection with the text of its other end, if the socket knows it.
pub record Tcp : Type 0 where
  pub bind : Result IoError ℕ
  pub local_port : (socket : ℕ) → Result IoError ℕ
  pub route : (probe : Text) → Route
  pub connect_timeout : SocketAddr → Result IoError (ℕ × Option Text)

unfoldable pub local_ipv4 : Tcp → Ip
local_ipv4 tcp = first_ip (
    tcp.route (text "8.8.8.8:80")
    ∷ tcp.route (text "192.168.1.1:80")
    ∷ tcp.route (text "10.0.0.1:80")
    ∷ [])

pub record TcpStreamConn : Type 0 where
  pub socket : ℕ
  pub label : Text

abbrev pub label_or : Option Text → Text
label_or none = text "unknown"
label_or (some t) = t

abbrev pub new_conn : ℕ → Option Text → TcpStreamConn
new_conn socket peer = record { socket = socket; label = label_or peer }

pub record TcpListenerEndpoint : Type 0 where
  pub socket : ℕ
  pub dial : Text
  pub port : ℕ
  pub closed : Bool

unfoldable pub listen : Tcp → Result Error TcpListenerEndpoint
listen tcp = do
  socket ← lift_io tcp.bind
  port ← lift_io (tcp.local_port socket)
  ok (record {
    socket = socket;
    dial = display_ip (local_ipv4 tcp) ++ (b':' ∷ decimal port);
    port = port;
    closed = false;
  })

abbrev pub unreachable : Text → IoError → Error
unreachable addr e = closed (
    cat (
      text "could not reach "
      ∷ addr
      ∷ text " over the local network ("
      ∷ e.message
      ∷ text
          ") - check that both machines are on the same network and that the host's firewall allows chat.exe"
      ∷ []))

abbrev pub connected : Text → Result IoError (ℕ × Option Text) → Result Error TcpStreamConn
connected addr (err e) = err (unreachable addr e)
connected addr (ok (socket, peer)) = ok (new_conn socket peer)

abbrev pub bad_address : Text → Error
bad_address addr =
    room_code (cat (text "'" ∷ addr ∷ text "' is not a valid IPv4 address:port" ∷ []))

unfoldable pub connect : (is_v6 : Text → Bool) → Tcp → Text → Result Error TcpStreamConn
connect is_v6 tcp addr = do
  sockaddr ← ok_or (parse is_v6 addr) (bad_address addr)
  connected addr (tcp.connect_timeout sockaddr)

abbrev pub listener_closed : IoError
listener_closed = record { kind = other; message = text "listener closed" }

-- What `accept` returns, and the sockets that it shut down: a connection that comes when the flag is
-- set already is shut down.
unfoldable pub accept :
    TcpListenerEndpoint → Result IoError (ℕ × Option Text) → Result IoError TcpStreamConn × List ℕ
accept l (err e) = (err e, [])
accept l (ok (socket, peer)) =
    if l.closed then (err listener_closed, socket ∷ []) else (ok (new_conn socket peer), [])

-- The poke at the listener's own port, which wakes the accepting thread.
abbrev pub poked : Result IoError ℕ → List ℕ
poked (err e) = []
poked (ok socket) = socket ∷ []

-- `close`, with the answer to the connection to 127.0.0.1 and the sockets that were shut down.
unfoldable pub close :
    (connect_timeout : Ip → ℕ → Result IoError ℕ)
    → TcpListenerEndpoint
    → TcpListenerEndpoint × List ℕ
close connect_timeout l = (record l { closed = true }, poked (connect_timeout loopback l.port))
