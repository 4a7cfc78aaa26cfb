-- ===== src/Transport/Runs.antt =====
-- Runs of the transports with a small operating system.
use mesh_chat.Prelude.{
  ℕ, ◌+◌, ◌<◌, ◌≤◌, ◌^◌, ◌≡◌, ◌≢◌, refl, ap, subst, Text, text, none, some, List, [], ◌∷◌, ◌++◌,
  false, true, Bool, arith,
}
use mesh_chat.Error.{IoError, other, Result, ok, err}
use mesh_chat.Text.Decimal.{decimal}
use mesh_chat.Transport.Bluetooth.{format_dial}
use mesh_chat.Transport.Lan.{
  Ip, ipv4, first_ip, Route, Tcp, TcpListenerEndpoint, local_ipv4, display_ip,
}
use mesh_chat.Transport.Lan
use mesh_chat.Transport.Rfcomm.{Winsock, SockaddrBth, sockaddr, BtListener}
use mesh_chat.Transport.Rfcomm
use mesh_chat.Transport.Leaks.{
  GivesFresh, IsFresh, ListensWithoutLeak, DialsWithoutLeak, listen-connect-close,
}
use mesh_chat.Transport.Reaching.{IsLocal, IsTcp, ReachesLan, connect-listen_lan}
use mesh_chat.Transport.Dialling.{ReachesBluetooth, connect-listen_bluetooth}

abbrev never : Text → Bool
never t = false

abbrev home : Ip
home = record { a = 192; b = 168; c = 1; d = 24 }

-- The first probe has no route, the others lead out of the home network.
abbrev route : Text → Route
route [] = record { binds = true; connects = false; local_addr = none }
route (c ∷ probe) = record { binds = true; connects = true; local_addr = some (ipv4 home) }

abbrev tcp : Tcp
tcp = record {
  bind = ok 5;
  local_port = λ socket. ok 47021;
  route = route;
  connect_timeout = λ addr. ok (6, none);
}

abbrev endpoint : TcpListenerEndpoint
endpoint = record {
  socket = 5;
  dial = display_ip (local_ipv4 tcp) ++ (b':' ∷ decimal 47021);
  port = 47021;
  closed = false;
}

abbrev port_of : Result IoError ℕ → ℕ
port_of (ok port) = port
port_of (err e) = 0

tcp-IsTcp : IsTcp tcp
tcp-IsTcp = record { locals = locals; ports = ports }
  where
    locals : (probe : Text) → IsLocal (route probe).local_addr
    locals [] = tt
    locals (c ∷ probe) = record {
      a_byte = omega arith;
      b_byte = omega arith;
      c_byte = omega arith;
      d_byte = omega arith;
    }

    ports : (socket port : ℕ) → tcp.local_port socket ≡ ok port → (port < 65536) × (port ≢ 0)
    ports socket port e =
        let same = ap port_of e in (omega (arith, same), λ z. absurd (omega (arith, same, z)))

connect-listen_lan_example : ReachesLan never tcp endpoint
unfolding Lan.listen
connect-listen_lan_example = connect-listen_lan never tcp endpoint tcp-IsTcp refl

dial_lem : endpoint.dial ≡ text "192.168.1.24:47021"
unfolding local_ipv4 display_ip decimal text first_ip
dial_lem = refl

refused : IoError
refused = record { kind = other; message = text "refused" }

-- Handles are one more than all the open ones; every connection is refused.
abbrev above : List ℕ → ℕ
above [] = 1
above (s ∷ live) = s + above live

abbrev winsock : Winsock
winsock = record {
  socket = λ live. ok (above live);
  bind = λ s addr. ok tt;
  getsockname = λ s. ok (sockaddr 11 7);
  listen = λ s backlog. ok tt;
  connect = λ s addr. err refused;
  accept = λ s. err refused;
}

abbrev handle_of : Result IoError ℕ → ℕ
handle_of (ok s) = s
handle_of (err e) = 0

above-IsFresh : (live : List ℕ) (n : ℕ) → above live ≤ n → IsFresh n live
above-IsFresh [] n h = tt
above-IsFresh (s ∷ live) n h =
    (ground (arith, above_positive live), above-IsFresh live n (omega arith))
  where
    above_positive : (live : List ℕ) → 0 < above live
    above_positive [] = omega arith
    above_positive (s ∷ live) = omega (arith, above_positive live)

winsock-GivesFresh : GivesFresh winsock
winsock-GivesFresh live s e = above-IsFresh live s (omega (arith, ap handle_of e))

listen-connect-close_example :
    ListensWithoutLeak (3 ∷ []) (Rfcomm.listen winsock (3 ∷ []))
    × DialsWithoutLeak (3 ∷ []) (Rfcomm.connect winsock (text "A4B1C2D3E4F5:25") (3 ∷ []))
listen-connect-close_example =
    listen-connect-close winsock (text "A4B1C2D3E4F5:25") (3 ∷ []) winsock-GivesFresh

abbrev radio : BtListener
radio = record { sock = 4; dial = format_dial 11 7; closed = false }

abbrev name_of : Result IoError SockaddrBth → SockaddrBth
name_of (ok t) = t
name_of (err e) = sockaddr 0 0

named_within :
    (target : SockaddrBth)
    → winsock.getsockname radio.sock ≡ ok target
    → (target.bt_addr < 2 ^ 48) × (0 < target.port) × (target.port ≤ 30)
named_within target e =
    subst (λ (t : SockaddrBth). (t.bt_addr < 2 ^ 48) × (0 < t.port) × (t.port ≤ 30)) (ap name_of e)
      (omega arith, omega arith, omega arith)

connect-listen_bluetooth_example :
    (target : SockaddrBth) × (winsock.getsockname radio.sock ≡ ok target)
    × ReachesBluetooth never target radio.dial
unfolding Rfcomm.listen
connect-listen_bluetooth_example =
    connect-listen_bluetooth never winsock radio (3 ∷ []) (4 ∷ 3 ∷ []) refl named_within
