-- ===== src/Transport/Leaks.antt =====
-- core/src/transport/bluetooth_windows.rs: no call leaves a socket open that nobody owns.
use mesh_chat.Prelude.{ℕ, ◌≡◌, refl, List, [], ◌∷◌, All, ◌==◌, ==_iff, keep, not, false, arith}
use mesh_chat.Error.{Error, IoError, Result, ok, err}
use mesh_chat.Transport.Bluetooth.{parse_dial}
use mesh_chat.Transport.Rfcomm.{
  Winsock, SockaddrBth, BtListener, BtStream, closesocket, listen, listening, bound, named, ready,
  connect, connect_to, dialling, reached, parsed, close, close_listener, sockaddr, bt_port_any,
}

-- A handle that is not among the open ones.
abbrev pub IsFresh : ℕ → List ℕ → Type 0
IsFresh s = All λ x. (x == s) ≡ false

-- Winsock gives out a handle only when it is not open.
abbrev pub GivesFresh : Winsock → Type 0
GivesFresh ws = (live : List ℕ) (s : ℕ) → ws.socket live ≡ ok s → IsFresh s live

keep_others : (s : ℕ) (live : List ℕ) → IsFresh s live → keep (λ x. not (x == s)) live ≡ live
keep_others s [] h = refl
keep_others s (x ∷ live) h = ground (arith, keep_others s live h.1, h.0)

-- Closing the last socket that was opened undoes its opening.
closesocket-cons : (s : ℕ) (live : List ℕ) → IsFresh s live → closesocket s (s ∷ live) ≡ live
unfolding closesocket
closesocket-cons s live h = ground (arith, keep_others s live h, ==_iff s s)

-- After an error the open sockets are those from before; after a success they are one more, which
-- closing what was returned takes away.
abbrev pub ListensWithoutLeak : List ℕ → Result Error BtListener × List ℕ → Type 0
ListensWithoutLeak live (err e, now) = now ≡ live
ListensWithoutLeak live (ok l, now) = (now ≡ l.sock ∷ live) × ((close_listener l now).1 ≡ live)

abbrev pub DialsWithoutLeak : List ℕ → Result Error BtStream × List ℕ → Type 0
DialsWithoutLeak live (err e, now) = now ≡ live
DialsWithoutLeak live (ok s, now) = (now ≡ s.sock ∷ live) × ((close s now).1 ≡ live)

module _ (s : ℕ) (live : List ℕ) (h : IsFresh s live) where
  ready_lem :
      (actual : SockaddrBth) (r : Result IoError (Unit {0}))
      → ListensWithoutLeak live (ready s actual r (s ∷ live))
  unfolding close_listener
  ready_lem actual (err e) = closesocket-cons s live h
  ready_lem actual (ok _) = (refl, closesocket-cons s live h)

  named_lem :
      (ws : Winsock) (r : Result IoError SockaddrBth)
      → ListensWithoutLeak live (named ws s r (s ∷ live))
  named_lem ws (err e) = closesocket-cons s live h
  named_lem ws (ok actual) = ready_lem actual (ws.listen s 8)

  bound_lem :
      (ws : Winsock) (r : Result IoError (Unit {0}))
      → ListensWithoutLeak live (bound ws s r (s ∷ live))
  bound_lem ws (err e) = closesocket-cons s live h
  bound_lem ws (ok _) = named_lem ws (ws.getsockname s)

  reached_lem :
      (target : SockaddrBth) (r : Result IoError (Unit {0}))
      → DialsWithoutLeak live (reached s target r (s ∷ live))
  unfolding close
  reached_lem target (err e) = closesocket-cons s live h
  reached_lem target (ok _) = (refl, closesocket-cons s live h)

listen_lem :
    (ws : Winsock) (live : List ℕ) → GivesFresh ws → ListensWithoutLeak live (listen ws live)
unfolding listen
listen_lem ws live f = go (ws.socket live) refl
  where
    go : (r : Result IoError ℕ) → ws.socket live ≡ r → ListensWithoutLeak live (listening ws r live)
    go (err e) h = refl
    go (ok s) h = bound_lem s live (f live s h) ws (ws.bind s (sockaddr 0 bt_port_any))

connect_to_lem :
    (ws : Winsock) (target : SockaddrBth) (live : List ℕ)
    → GivesFresh ws
    → DialsWithoutLeak live (connect_to ws target live)
unfolding connect_to
connect_to_lem ws target live f = go (ws.socket live) refl
  where
    go :
        (r : Result IoError ℕ)
        → ws.socket live ≡ r
        → DialsWithoutLeak live (dialling ws target r live)
    go (err e) h = refl
    go (ok s) h = reached_lem s live (f live s h) target (ws.connect s target)

-- When Winsock gives out no handle that is open, listening and dialling over Bluetooth leak no
-- socket, whatever the address and at whatever call they fail: after an error the open sockets are
-- those from before, and after a success one more, which closing the listener or the stream closes.
pub listen-connect-close :
    (ws : Winsock) (addr : List ℕ) (live : List ℕ)
    → GivesFresh ws
    → ListensWithoutLeak live (listen ws live) × DialsWithoutLeak live (connect ws addr live)
unfolding connect
listen-connect-close ws addr live f = (listen_lem ws live f, go (parse_dial addr))
  where
    go : (r : Result Error (ℕ × ℕ)) → DialsWithoutLeak live (parsed ws r live)
    go (err e) = refl
    go (ok (target, channel)) = connect_to_lem ws (sockaddr target channel) live f
