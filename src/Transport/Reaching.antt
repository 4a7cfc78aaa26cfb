-- ===== src/Transport/Reaching.antt =====
-- core/src/transport/lan.rs and core/src/transport/bluetooth_windows.rs with core/src/roomcode.rs: the
-- code of a host leads a joiner to the host's listener.
use mesh_chat.Prelude.{
  ℕ, ◌<◌, ◌≡◌, ◌≢◌, refl, sym, ap, ◌∙◌, subst, Text, Option, none, some, List, [], ◌∷◌, ◌++◌, All,
  Bool, true, false, if◌then◌else◌, ◌&&◌, append_assoc, arith,
}
use mesh_chat.Error.{Error, IoError, Result, ok, err, ◌>>=◌, >>=-succeeds, lift_io, ok_or}
use mesh_chat.Text.Decimal.{decimal}
use mesh_chat.Text.SocketAddr.{
  SocketAddr, SocketAddrV4, IsV4, display_v4, parse, parse_v4-display_v4, v4,
}
use mesh_chat.RoomCode.{encode, decode}
use mesh_chat.RoomCode.RoundTrip.{decode-encode_lan}
use mesh_chat.Transport.{lan}
use mesh_chat.Transport.Probes.{Chosen, probes, local_ipv4-Chosen}
use mesh_chat.Transport.Lan.{
  Ip, display_ip, is_unspecified, LocalAddr, ipv4, ipv6, Route, ip_of, probed, or_else, loopback,
  first_ip, Tcp, local_ipv4, TcpListenerEndpoint, connected,
}
use mesh_chat.Transport.Lan

pub record IsIp (ip : Ip) : Type 0 where
  pub a_byte : ip.a < 256
  pub b_byte : ip.b < 256
  pub c_byte : ip.c < 256
  pub d_byte : ip.d < 256

abbrev pub at_port : Ip → ℕ → SocketAddrV4
at_port ip port = record { a = ip.a; b = ip.b; c = ip.c; d = ip.d; port = port }

-- The dial string of a listener is the text of a socket address.
display_ip-display_v4 :
    (ip : Ip) (port : ℕ) → display_ip ip ++ (b':' ∷ decimal port) ≡ display_v4 (at_port ip port)
unfolding display_ip display_v4
display_ip-display_v4 ip port =
    let tail : Text = b':' ∷ decimal port in
    append_assoc (decimal ip.a) _ tail
    ∙ ap (λ (t : Text). decimal ip.a ++ (b'.' ∷ t))
        (append_assoc (decimal ip.b) _ tail
          ∙ ap (λ (t : Text). decimal ip.b ++ (b'.' ∷ t))
              (append_assoc (decimal ip.c) _ tail
                ∙ ap (λ (t : Text). decimal ip.c ++ (b'.' ∷ t)) refl))

abbrev pub IsLocal : Option LocalAddr → Type 0
IsLocal none = Unit
IsLocal (some ipv6) = Unit
IsLocal (some (ipv4 ip)) = IsIp ip

-- What the system's addresses and ports are within, and that a bound listener has a port.
pub record IsTcp (tcp : Tcp) : Type 0 where
  pub locals : (probe : Text) → IsLocal (tcp.route probe).local_addr
  pub ports : (socket port : ℕ) → tcp.local_port socket ≡ ok port → (port < 65536) × (port ≢ 0)

ip_of-IsIp :
    (o : Option LocalAddr) (rest : Ip) → IsLocal o → IsIp rest → IsIp (or_else (ip_of o) rest)
ip_of-IsIp none rest h r = r
ip_of-IsIp (some ipv6) rest h r = r
ip_of-IsIp (some (ipv4 ip)) rest h r = go (is_unspecified ip)
  where
    go : (b : Bool) → IsIp (or_else (if b then none else some ip) rest)
    go true = r
    go false = h

probed-IsIp :
    (x : Route) (rest : Ip) → IsLocal x.local_addr → IsIp rest → IsIp (or_else (probed x) rest)
probed-IsIp x rest h r = go (x.binds && x.connects)
  where
    go : (b : Bool) → IsIp (or_else (if b then ip_of x.local_addr else none) rest)
    go true = ip_of-IsIp x.local_addr rest h r
    go false = r

first_ip-IsIp :
    (routes : List Route) → All (λ x. IsLocal x.local_addr) routes → IsIp (first_ip routes)
unfolding first_ip
first_ip-IsIp [] h = record {
  a_byte = omega arith;
  b_byte = omega arith;
  c_byte = omega arith;
  d_byte = omega arith;
}
first_ip-IsIp (x ∷ routes) h = probed-IsIp x (first_ip routes) h.0 (first_ip-IsIp routes h.1)

local_ipv4-IsIp : (tcp : Tcp) → IsTcp tcp → IsIp (local_ipv4 tcp)
unfolding local_ipv4
local_ipv4-IsIp tcp h = first_ip-IsIp _ (h.locals _, (h.locals _, (h.locals _, tt)))

lift_io-ok : {A : Type 0} (r : Result IoError A) {a : A} → lift_io r ≡ ok a → r ≡ ok a
lift_io-ok (ok x) e = cc
lift_io-ok (err x) e = cc

-- What the code of a listener leads to: the listener is on a socket that was bound, and a joiner
-- decodes the code to the dial string and dials the port that the system gave this socket, at the
-- address that the probes chose.
pub record ReachesLan (is_v6 : Text → Bool) (host : Tcp) (l : TcpListenerEndpoint) : Type 0 where
  pub bound : host.bind ≡ ok l.socket
  pub named : host.local_port l.socket ≡ ok l.port
  pub ip : Ip
  pub chosen : Chosen host.route probes ip
  pub decoded : (encode is_v6 lan l.dial >>= decode) ≡ ok (lan, l.dial)
  pub dialled :
      (joiner : Tcp)
      → Lan.connect is_v6 joiner l.dial
        ≡ connected l.dial (joiner.connect_timeout (v4 (at_port ip l.port)))

parse-display_v4 :
    (is_v6 : Text → Bool) (x : SocketAddrV4) → IsV4 x → parse is_v6 (display_v4 x) ≡ some (v4 x)
unfolding parse
parse-display_v4 is_v6 x v =
    ap
      (λ o. elim o [
        | some addr ↦ some (v4 addr)
        | none ↦ if is_v6 (display_v4 x) then some (SocketAddr.v6 (display_v4 x)) else none
      ])
      (parse_v4-display_v4 x v)

dialled_v4 :
    (is_v6 : Text → Bool) (x : SocketAddrV4) (joiner : Tcp)
    → IsV4 x
    → Lan.connect is_v6 joiner (display_v4 x)
      ≡ connected (display_v4 x) (joiner.connect_timeout (v4 x))
unfolding Lan.connect
dialled_v4 is_v6 x joiner v =
    ap
      (λ (o : Option SocketAddr). ok_or o (Lan.bad_address (display_v4 x)) >>= λ a.
        connected (display_v4 x) (joiner.connect_timeout a))
      (parse-display_v4 is_v6 x v)

abbrev listener : Tcp → ℕ → ℕ → TcpListenerEndpoint
listener tcp socket port = record {
  socket = socket;
  dial = display_ip (local_ipv4 tcp) ++ (b':' ∷ decimal port);
  port = port;
  closed = false;
}

listener-ReachesLan :
    (is_v6 : Text → Bool) (tcp : Tcp) (socket port : ℕ)
    → IsTcp tcp
    → tcp.bind ≡ ok socket
    → tcp.local_port socket ≡ ok port
    → ReachesLan is_v6 tcp (listener tcp socket port)
listener-ReachesLan is_v6 tcp socket port h e f =
    let i = local_ipv4-IsIp tcp h in
    let x : SocketAddrV4 = at_port (local_ipv4 tcp) port in
    let p = h.ports socket port f in
    let v : IsV4 x = record {
      a_byte = i.a_byte;
      b_byte = i.b_byte;
      c_byte = i.c_byte;
      d_byte = i.d_byte;
      port_word = p.0;
    } in
    let shown = sym (display_ip-display_v4 (local_ipv4 tcp) port) in
    record {
      bound = e;
      named = f;
      ip = local_ipv4 tcp;
      chosen = local_ipv4-Chosen tcp;
      decoded =
          subst (λ (d : Text). (encode is_v6 lan d >>= decode) ≡ ok (lan, d)) shown
            (decode-encode_lan is_v6 x v p.1);
      dialled = λ joiner.
          subst
            (λ (d : Text). Lan.connect is_v6 joiner d ≡ connected d (joiner.connect_timeout (v4 x)))
            shown (dialled_v4 is_v6 x joiner v);
    }

-- When the system's addresses are made of bytes and the port of a bound socket is not 0, every
-- listener that opens on the LAN has a dial address that the room code carries: a joiner decodes the
-- code to this very address, and dials the port that the system gave the listener's socket, at the
-- address of the first of the three probes that found one, or else the loopback address.
pub connect-listen_lan :
    (is_v6 : Text → Bool) (tcp : Tcp) (l : TcpListenerEndpoint)
    → IsTcp tcp
    → Lan.listen tcp ≡ ok l
    → ReachesLan is_v6 tcp l
unfolding Lan.listen
connect-listen_lan is_v6 tcp l h e =
    let (socket, x, f) = >>=-succeeds (lift_io tcp.bind) _ e in
    let (port, y, g) = >>=-succeeds (lift_io (tcp.local_port socket)) _ f in
    subst (λ (k : TcpListenerEndpoint). ReachesLan is_v6 tcp k)
      (ap (opened (listener tcp socket port)) g)
      (listener-ReachesLan is_v6 tcp socket port h (lift_io-ok tcp.bind x)
        (lift_io-ok (tcp.local_port socket) y))
  where
    opened : TcpListenerEndpoint → Result Error TcpListenerEndpoint → TcpListenerEndpoint
    opened k (ok l) = l
    opened k (err e) = k
