-- ===== src/Protocol/Ids.antt =====
-- Transfer ids: `unhex16` reads back what `hex` wrote, and what it makes of other texts.
use mesh_chat.Prelude.{
  ℕ, zero, suc, ◌*◌, ◌/◌, ◌%◌, ◌≤◌, ◌<◌, ◌≡◌, ◌≢◌, refl, ◌∙◌, ap, inl, inr, Text, Bytes, Option,
  none, some, [], ◌∷◌, ◌++◌, length, All, IsByte, ◌==◌, arith, Bool-cases, append_assoc,
}
use mesh_chat.Error.{Error, Result, ok, err}
use mesh_chat.Text.{byte_len, utf8_width}
use mesh_chat.Text.Hex.{lower_byte, lower_digit, byte_value, byte_value-lower_byte}
use mesh_chat.Protocol.{Checked, returns, panics, hex, unhex_loop, unhex16, add_byte, or_bad}

lower_digit-width : (n : ℕ) → n < 16 → utf8_width (lower_digit n) ≡ 1
unfolding lower_digit
lower_digit-width n h = ground arith

byte_len-hex : (bytes : Bytes) → byte_len (hex bytes) ≡ 2 * length bytes
unfolding byte_len hex lower_byte
byte_len-hex [] = refl
byte_len-hex (b ∷ bytes) = omega (
  arith,
  byte_len-hex bytes,
  lower_digit-width (b / 16 % 16) (omega arith),
  lower_digit-width (b % 16) (omega arith),
)

-- Two characters of one byte each are a byte or a bad id.
unhex_loop_pair :
    (c d : ℕ) (s : Text)
    → utf8_width c ≡ 1
    → utf8_width d ≡ 1
    → unhex_loop (c ∷ d ∷ s) ≡ or_bad (byte_value c d) (unhex_loop s)
unfolding unhex_loop
unhex_loop_pair c d s hc hd = rw (hc, hd)

unhex_loop-hex_append :
    (b : ℕ) (s : Text) → b < 256 → unhex_loop (lower_byte b ++ s) ≡ add_byte b (unhex_loop s)
unfolding lower_byte
unhex_loop-hex_append b s h =
    unhex_loop_pair _ _ s (lower_digit-width (b / 16 % 16) (omega arith))
      (lower_digit-width (b % 16) (omega arith))
    ∙ ap (λ o. or_bad o (unhex_loop s)) (byte_value-lower_byte b h)

unhex_loop-hex : (bytes : Bytes) → All IsByte bytes → unhex_loop (hex bytes) ≡ returns (ok bytes)
unfolding hex
unhex_loop-hex [] h = unfold unhex_loop in refl
unhex_loop-hex (b ∷ bytes) h =
    unhex_loop-hex_append b (hex bytes) h.0 ∙ ap (add_byte b) (unhex_loop-hex bytes h.1)

-- A transfer id survives the wire.
pub unhex16-hex : (id : Bytes) → All IsByte id → length id ≡ 16 → unhex16 (hex id) ≡ returns (ok id)
unfolding unhex16
unhex16-hex id h n = rw (unhex_loop-hex id h) (ground (arith, byte_len-hex id))

or_bad-ne-panics :
    (o : Option ℕ) (r : Checked (Result Error Bytes)) → r ≢ panics → or_bad o r ≢ panics
or_bad-ne-panics none r h = λ e. cc
or_bad-ne-panics (some b) (returns (ok bytes)) h = λ e. cc
or_bad-ne-panics (some b) (returns (err x)) h = λ e. cc
or_bad-ne-panics (some b) panics h = λ e. h e

ascii_width : (c : ℕ) → c < 128 → utf8_width c ≡ 1
ascii_width c h = ground arith

unhex_loop-ne-panics :
    (k : ℕ) (s : Text) → All (λ c. c < 128) s → byte_len s ≡ 2 * k → unhex_loop s ≢ panics
unfolding byte_len
unhex_loop-ne-panics k [] h n = unfold unhex_loop in λ e. cc
unhex_loop-ne-panics k (c ∷ []) h n = absurd (omega (arith, ascii_width c h.0))
unhex_loop-ne-panics zero (c ∷ d ∷ s) h n = absurd (omega (arith, ascii_width c h.0))
unhex_loop-ne-panics (suc k) (c ∷ d ∷ s) h n =
    rw (unhex_loop_pair c d s (ascii_width c h.0) (ascii_width d h.1.0)) (
      or_bad-ne-panics (byte_value c d) (unhex_loop s)
        (unhex_loop-ne-panics k s h.1.1 (omega (arith, ascii_width c h.0, ascii_width d h.1.0))))

unhex_loop_misaligned :
    (front : Bytes) (c d : ℕ) (rest : Text)
    → All IsByte front
    → c < 128
    → 128 ≤ d
    → unhex_loop (hex front ++ c ∷ d ∷ rest) ≡ panics
unfolding hex
unhex_loop_misaligned [] c d rest h hc hd = unfold unhex_loop in ground arith
unhex_loop_misaligned (b ∷ front) c d rest h hc hd =
    ap unhex_loop (append_assoc (lower_byte b) (hex front) (c ∷ d ∷ rest))
    ∙ unhex_loop-hex_append b (hex front ++ c ∷ d ∷ rest) h.0
    ∙ ap (add_byte b) (unhex_loop_misaligned front c d rest h.1 hc hd)

-- A text of ASCII characters never makes `unhex16` panic.
pub unhex16-ne-panics : (s : Text) → All (λ c. c < 128) s → unhex16 s ≢ panics
unfolding unhex16
unhex16-ne-panics s h = elim (Bool-cases (byte_len s == 32)) [
  | inl right ↦ rw right (unhex_loop-ne-panics 16 s h (ground arith))
  | inr wrong ↦ rw wrong (λ e. cc)
]

-- After whole bytes, an ASCII character before one that is not makes the next slice end inside a
-- character: whoever sends such an id stops the receiver.
pub unhex16_panics :
    (front : Bytes) (c d : ℕ) (rest : Text)
    → All IsByte front
    → c < 128
    → 128 ≤ d
    → byte_len (hex front ++ c ∷ d ∷ rest) ≡ 32
    → unhex16 (hex front ++ c ∷ d ∷ rest) ≡ panics
unfolding unhex16
unhex16_panics front c d rest h hc hd n = rw (n, unhex_loop_misaligned front c d rest h hc hd)
