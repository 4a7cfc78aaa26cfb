-- ===== src/RoomCode/Decoded.antt =====
-- Whatever text `decode` accepts, the dial address that it returns is one that can be dialled.
use mesh_chat.Prelude.{
  ℕ, zero, suc, ◌+◌, ◌-◌, ◌/◌, ◌%◌, ◌^◌, ◌≤◌, ◌<◌, ◌≡◌, ◌≢◌, refl, sym, ◌∙◌, subst, inl, inr, Text,
  Bytes, [], ◌∷◌, ◌++◌, length, All, All-append, All-take, ltb, leb, Bool, true, false,
  if◌then◌else◌, arith, Bool-cases, IsByte,
}
use mesh_chat.Error.{Error, Result, ok, err, Result-cases, >>=-succeeds}
use mesh_chat.Text.SocketAddr.{SocketAddrV4, display_v4, IsV4}
use mesh_chat.Transport.{TransportKind, lan, bluetooth}
use mesh_chat.Transport.Bluetooth.{format_dial}
use mesh_chat.RoomCode.Base32.{b32_value, decode_loop, b32_decode, shift_in}
use mesh_chat.RoomCode.{decode, decode_payload, split, lan_addr, bluetooth_addr, byte}

decode_loop_pushes :
    (acc bits c v : ℕ) (out : Bytes) (s : Text)
    → b32_value c ≡ ok v
    → leb 8 (bits + 5) ≡ true
    → decode_loop acc bits out (c ∷ s)
      ≡ decode_loop
          (shift_in acc 5 v)
          (bits + 5 - 8)
          (out ++ (shift_in acc 5 v / 2 ^ (bits + 5 - 8) % 256) ∷ [])
          s
unfolding decode_loop
decode_loop_pushes acc bits c v out s e h = rw e (ground arith)

decode_loop_waits :
    (acc bits c v : ℕ) (out : Bytes) (s : Text)
    → b32_value c ≡ ok v
    → leb 8 (bits + 5) ≡ false
    → decode_loop acc bits out (c ∷ s) ≡ decode_loop (shift_in acc 5 v) (bits + 5) out s
unfolding decode_loop
decode_loop_waits acc bits c v out s e h = rw e (ground arith)

decode_loop_fails :
    (acc bits c : ℕ) (x : Error) (out : Bytes) (s : Text)
    → b32_value c ≡ err x
    → decode_loop acc bits out (c ∷ s) ≡ err x
unfolding decode_loop
decode_loop_fails acc bits c x out s e = rw e

decode_loop-IsByte :
    (acc bits : ℕ) (out : Bytes) (s : Text) (bytes : Bytes)
    → All IsByte out
    → decode_loop acc bits out s ≡ ok bytes
    → All IsByte bytes
decode_loop-IsByte acc bits out [] bytes h e = unfold decode_loop in ground (arith, h)
decode_loop-IsByte acc bits out (c ∷ s) bytes h e = elim (Result-cases (b32_value c)) [
  | inl (v, r) ↦ elim (Bool-cases (leb 8 (bits + 5))) [
    | inl full ↦
        decode_loop-IsByte (shift_in acc 5 v) (bits + 5 - 8)
          (out ++ (shift_in acc 5 v / 2 ^ (bits + 5 - 8) % 256) ∷ []) s bytes
          (All-append IsByte out _ h (omega arith, tt))
          (sym (decode_loop_pushes acc bits c v out s r full) ∙ e)
    | inr short ↦
        decode_loop-IsByte (shift_in acc 5 v) (bits + 5) out s bytes h
          (sym (decode_loop_waits acc bits c v out s r short) ∙ e)
  ]
  | inr (x, r) ↦ cc (decode_loop_fails acc bits c x out s r)
]

b32_decode-IsByte :
    (s : Text) (n : ℕ) (bytes : Bytes) → b32_decode s n ≡ ok bytes → All IsByte bytes
unfolding b32_decode
b32_decode-IsByte s n bytes e =
    let (out, r, f) = >>=-succeeds (decode_loop 0 0 [] s) _ e in
    elim (Bool-cases (ltb (length out) n)) [
      | inl short ↦ cc (rw short at f)
      | inr enough ↦
          ground
            (arith, rw enough at f, All-take IsByte n out (decode_loop-IsByte 0 0 [] s out tt r))
    ]

byte-IsByte : (bytes : Bytes) (i : ℕ) → All IsByte bytes → byte bytes i < 256
byte-IsByte [] i h = omega arith
byte-IsByte (b ∷ bytes) zero h = h.0
byte-IsByte (b ∷ bytes) (suc i) h = byte-IsByte bytes i h.1

-- A printed address and port, or a printed radio address and channel, in range.
abbrev pub IsDialable : TransportKind → Text → Type 0
IsDialable lan dial = (x : SocketAddrV4) × IsV4 x × (x.port ≢ 0) × (dial ≡ display_v4 x)
IsDialable bluetooth dial =
    (addr : ℕ) × (channel : ℕ) × (addr < 2 ^ 48)
    × (0 < channel)
    × (channel ≤ 30)
    × (dial ≡ format_dial addr channel)

lan_addr-IsV4 : (bytes : Bytes) → All IsByte bytes → IsV4 (lan_addr bytes)
unfolding lan_addr
lan_addr-IsV4 bytes h = omega (
  arith,
  byte-IsByte bytes 0 h,
  byte-IsByte bytes 1 h,
  byte-IsByte bytes 2 h,
  byte-IsByte bytes 3 h,
  byte-IsByte bytes 4 h,
  byte-IsByte bytes 5 h,
)

bluetooth_addr-lt : (bytes : Bytes) → All IsByte bytes → bluetooth_addr bytes < 2 ^ 48
unfolding bluetooth_addr
bluetooth_addr-lt bytes h = omega (
  arith,
  byte-IsByte bytes 0 h,
  byte-IsByte bytes 1 h,
  byte-IsByte bytes 2 h,
  byte-IsByte bytes 3 h,
  byte-IsByte bytes 4 h,
  byte-IsByte bytes 5 h,
)

guarded :
    (bad : Bool) (x : Error) (p q : TransportKind × Text)
    → ◌≡◌ {A = Result Error (TransportKind × Text)} (if bad then err x else ok p) (ok q)
    → (bad ≡ false → IsDialable p.0 p.1)
    → IsDialable q.0 q.1
guarded true x p q e h = cc
guarded false x p q e h = subst (λ (t : TransportKind × Text). IsDialable t.0 t.1) (cc) (h refl)

decode_payload-IsDialable :
    (kind : TransportKind) (payload : Text) (k : TransportKind) (dial : Text)
    → decode_payload (kind, payload) ≡ ok (k, dial)
    → IsDialable k dial
unfolding decode_payload
decode_payload-IsDialable lan payload k dial e =
    let (bytes, r, f) = >>=-succeeds (b32_decode payload 6) _ e in
    let h = b32_decode-IsByte payload 6 bytes r in
    guarded _ _ _ (k, dial) f (λ port. (lan_addr bytes, lan_addr-IsV4 bytes h, ground arith, refl))
decode_payload-IsDialable bluetooth payload k dial e =
    let (bytes, r, f) = >>=-succeeds (b32_decode payload 7) _ e in
    let h = b32_decode-IsByte payload 7 bytes r in
    guarded _ _ _ (k, dial) f
      (λ channel. (
        bluetooth_addr bytes,
        byte bytes 6,
        bluetooth_addr-lt bytes h,
        ground arith,
        ground arith,
        refl,
      ))

-- Any text that `decode` accepts, typed by anyone, names an address in range with a port that is
-- not 0, or a radio address of 48 bits with a channel from 1 to 30.
pub decode-IsDialable :
    (code : Text) (kind : TransportKind) (dial : Text)
    → decode code ≡ ok (kind, dial)
    → IsDialable kind dial
unfolding decode
decode-IsDialable code kind dial e =
    let ((k, payload), r, f) = >>=-succeeds (split code) decode_payload e in
    decode_payload-IsDialable k payload kind dial f
