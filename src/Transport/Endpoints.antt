-- ===== src/Transport/Endpoints.antt =====
-- core/src/transport/mod.rs: listening and dialling over the transport that was chosen.
use mesh_chat.Prelude.{ℕ, Text, List, Bool}
use mesh_chat.Error.{Error, Result, ok, err}
use mesh_chat.Transport.{TransportKind, lan, bluetooth}
use mesh_chat.Transport.Lan.{Tcp, TcpListenerEndpoint, TcpStreamConn}
use mesh_chat.Transport.Lan
use mesh_chat.Transport.Rfcomm.{Winsock, BtListener, BtStream}
use mesh_chat.Transport.Rfcomm

-- `Arc<dyn Listener>` and `Arc<dyn Stream>`.
pub data Listener : Type 0 where
  over_lan : TcpListenerEndpoint → Listener
  over_bluetooth : BtListener → Listener

pub data Stream : Type 0 where
  tcp_stream : TcpStreamConn → Stream
  bt_stream : BtStream → Stream

unfoldable pub dial_address : Listener → Text
dial_address (over_lan l) = l.dial
dial_address (over_bluetooth l) = l.dial

unfoldable pub remote_label : Stream → Text
remote_label (tcp_stream s) = s.label
remote_label (bt_stream s) = s.label

abbrev pub map_ok {ℓ} : {A B : Type ℓ} → (A → B) → Result Error A → Result Error B
map_ok f (ok a) = ok (f a)
map_ok f (err e) = err e

abbrev map_first {ℓ} :
    {A B : Type ℓ} {C : Type 0} → (A → B) → Result Error A × C → Result Error B × C
map_first f (r, c) = (map_ok f r, c)

unfoldable pub listen :
    TransportKind → Tcp → Winsock → (live : List ℕ) → Result Error Listener × List ℕ
listen lan tcp ws live = (map_ok over_lan (Lan.listen tcp), live)
listen bluetooth tcp ws live = map_first over_bluetooth (Rfcomm.listen ws live)

unfoldable pub connect :
    (is_v6 : Text → Bool)
    → TransportKind
    → Tcp
    → Winsock
    → Text
    → (live : List ℕ) → Result Error Stream × List ℕ
connect is_v6 lan tcp ws addr live = (map_ok tcp_stream (Lan.connect is_v6 tcp addr), live)
connect is_v6 bluetooth tcp ws addr live = map_first bt_stream (Rfcomm.connect ws addr live)
