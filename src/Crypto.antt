-- ===== src/Crypto.antt =====
-- core/src/crypto.rs: the handshake and the encrypted, framed link. The Noise library (snow) and
-- SHA-256 are parameters. A stream's two directions are `InStream` and `OutStream`; timeouts are the
-- network's, which may fail a read at any time. The locks of a link make its calls one after
-- another, so the cipher is state that is passed on.
pub mod Link
pub mod Agreement
mod Runs
use mesh_chat.Prelude.{
  ℕ, zero, suc, Text, Bytes, text, ◌++◌, Option, none, some, List, [], ◌∷◌, map, take, length, ltb,
  if◌then◌else◌, Bool, true, false,
}
use mesh_chat.Error.{Error, crypto, protocol, io, Result, ok, err}
use mesh_chat.Text.Hex.{upper_byte}
use mesh_chat.Codec.{Outcome, done, failed, stuck, read_frame, write_frame}
use mesh_chat.Codec.Stream.{InStream, OutStream}
use mesh_chat.Node.{max_plaintext}

-- What the link uses of snow: the pattern's parser, the builder for one end with a private key, the
-- messages of the handshake (without payload), the other end's key, the switch to transport mode,
-- and the cipher with its message counters.
pub record Noise (Handshake Cipher : Type 0) : Type 0 where
  pub pattern : Result Text (Unit {0})
  pub generate_keypair : Result Text (Bytes × Bytes)
  pub initiator : (private : Bytes) → Result Text Handshake
  pub responder : (private : Bytes) → Result Text Handshake
  pub write_message : Handshake → Result Text (Bytes × Handshake)
  pub read_message : Bytes → Handshake → Result Text Handshake
  pub remote_static : Handshake → Option Bytes
  pub into_transport : Handshake → Result Text Cipher
  pub encrypt : Bytes → Cipher → Result Text (Bytes × Cipher)
  pub decrypt : Bytes → Cipher → Result Text (Bytes × Cipher)

pub record Identity : Type 0 where
  pub private : Bytes
  pub public : Bytes

unfoldable pub identity_of : Bytes × Bytes → Identity
identity_of (private, public) = record { private = private; public = public }

-- `SecureLink` without its stream and locks.
pub record SecureLink (Cipher : Type 0) : Type 0 where
  pub cipher : Cipher
  pub remote_static : Bytes

abbrev colon_separated : List Text → Text
colon_separated [] = []
colon_separated (x ∷ []) = x
colon_separated (x ∷ y ∷ rest) = x ++ (b':' ∷ colon_separated (y ∷ rest))

-- Six bytes of the digest, in capital hexadecimal digits.
unfoldable pub fingerprint : (sha256 : Bytes → Bytes) → Bytes → Text
fingerprint sha256 public = colon_separated (map upper_byte (take 6 (sha256 public)))

-- What a call ends with; `none` is no outcome of the source, but fuel that ran out.
abbrev pub Attempt : Type 0 → Type 0
Attempt A = Option (Result Error A)

infixl 5 ◌>>=◌
abbrev pub ◌>>=◌ : {A B : Type 0} → Attempt A → (A → Attempt B) → Attempt B
none >>= f = none
some (err e) >>= f = some (err e)
some (ok a) >>= f = f a

-- `.map_err(|e| Error::Crypto(e.to_string()))`
abbrev pub lift_crypto : {A : Type 0} → Result Text A → Attempt A
lift_crypto (ok a) = some (ok a)
lift_crypto (err e) = some (err (crypto e))

abbrev pub lift_pattern : Result Text (Unit {0}) → Attempt (Unit {0})
lift_pattern (ok a) = some (ok a)
lift_pattern (err e) = some (err (crypto (text "bad noise pattern: " ++ e)))

abbrev pub lift_read : {A : Type 0} → Outcome A → Attempt A
lift_read (done a) = some (ok a)
lift_read (failed e) = some (err (io e))
lift_read stuck = none

abbrev pub lift_write : Outcome (Unit {0}) × OutStream → Attempt OutStream
lift_write (done u, o) = some (ok o)
lift_write (failed e, o) = some (err (io e))
lift_write (stuck, o) = none

-- `unwrap_or(&[])`
abbrev pub key_or : Option Bytes → Bytes
key_or none = []
key_or (some k) = k

module _ {Handshake Cipher : Type 0} (noise : Noise Handshake Cipher) where
  -- `Identity::generate`
  unfoldable pub generate : Attempt Identity
  unfolding identity_of
  generate = do
    u ← lift_pattern noise.pattern
    keys ← lift_crypto noise.generate_keypair
    some (ok (identity_of keys))

  -- `SecureLink::fingerprint`
  unfoldable pub link_fingerprint : (sha256 : Bytes → Bytes) → SecureLink Cipher → Text
  link_fingerprint sha256 link = fingerprint sha256 link.remote_static

  abbrev pub finish : Handshake → Attempt (SecureLink Cipher)
  finish hs = do
    cipher ← lift_crypto (noise.into_transport hs)
    some (ok (record { cipher = cipher; remote_static = key_or (noise.remote_static hs) }))

  -- The dialling side: -> e, <- e, ee, s, es, -> s, se.
  unfoldable pub handshake_initiator :
      Identity → InStream → OutStream → Attempt (SecureLink Cipher × InStream × OutStream)
  handshake_initiator me s o = do
    u ← lift_pattern noise.pattern
    hs ← lift_crypto (noise.initiator me.private)
    (m, hs1) ← lift_crypto (noise.write_message hs)
    o1 ← lift_write (write_frame m o)
    (msg, s1) ← lift_read (read_frame s)
    hs2 ← lift_crypto (noise.read_message msg hs1)
    (m2, hs3) ← lift_crypto (noise.write_message hs2)
    o2 ← lift_write (write_frame m2 o1)
    link ← finish hs3
    some (ok (link, s1, o2))

  -- The listening side.
  unfoldable pub handshake_responder :
      Identity → InStream → OutStream → Attempt (SecureLink Cipher × InStream × OutStream)
  handshake_responder me s o = do
    u ← lift_pattern noise.pattern
    hs ← lift_crypto (noise.responder me.private)
    (msg, s1) ← lift_read (read_frame s)
    hs1 ← lift_crypto (noise.read_message msg hs)
    (m, hs2) ← lift_crypto (noise.write_message hs1)
    o1 ← lift_write (write_frame m o)
    (msg2, s2) ← lift_read (read_frame s1)
    hs3 ← lift_crypto (noise.read_message msg2 hs2)
    link ← finish hs3
    some (ok (link, s2, o1))

  -- What a call of `send` ends with, and the link and the stream after it.
  abbrev pub Sending : Type 0
  Sending = Attempt (Unit {0}) × SecureLink Cipher × OutStream

  abbrev pub send_written : SecureLink Cipher → Outcome (Unit {0}) × OutStream → Sending
  send_written link (done u, o) = (some (ok tt), link, o)
  send_written link (failed e, o) = (some (err (io e)), link, o)
  send_written link (stuck, o) = (none, link, o)

  -- The cipher goes on even when the frame cannot be written.
  abbrev pub send_sealed : Result Text (Bytes × Cipher) → SecureLink Cipher → OutStream → Sending
  send_sealed (err e) link o = (some (err (crypto e)), link, o)
  send_sealed (ok (ct, cipher)) link o =
      send_written (record link { cipher = cipher }) (write_frame ct o)

  -- `SecureLink::send`
  unfoldable pub send : Bytes → SecureLink Cipher → OutStream → Sending
  send payload link o =
      if ltb max_plaintext (length payload)
      then (some (err (protocol (text "message too large for one frame"))), link, o)
      else send_sealed (noise.encrypt payload link.cipher) link o

  -- `SecureLink::recv`
  unfoldable pub recv :
      SecureLink Cipher → InStream → Attempt (Bytes × (SecureLink Cipher × InStream))
  recv link s = do
    (ct, s1) ← lift_read (read_frame s)
    (payload, cipher) ← lift_crypto (noise.decrypt ct link.cipher)
    some (ok (payload, (record link { cipher = cipher }, s1)))

  -- A sender's calls one after another, up to the first that fails, and a reader's.
  abbrev pub send_next : (SecureLink Cipher → OutStream → Sending) → Sending → Sending
  send_next next (some (ok u), link, o) = next link o
  send_next next (some (err e), link, o) = (some (err e), link, o)
  send_next next (none, link, o) = (none, link, o)

  unfoldable pub send_all : List Bytes → SecureLink Cipher → OutStream → Sending
  send_all [] link o = (some (ok tt), link, o)
  send_all (p ∷ ps) link o = send_next (send_all ps) (send p link o)

  unfoldable pub recv_all :
      ℕ → SecureLink Cipher → InStream → Attempt (List Bytes × (SecureLink Cipher × InStream))
  recv_all zero link s = some (ok ([], (link, s)))
  recv_all (suc n) link s = do
    (p, (link1, s1)) ← recv link s
    (ps, rest) ← recv_all n link1 s1
    some (ok (p ∷ ps, rest))
