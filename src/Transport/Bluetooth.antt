-- ===== src/Transport/Bluetooth.antt =====
-- core/src/transport/bluetooth_windows.rs (and, word for word, bluetooth_stub.rs): the text form of
-- Bluetooth addresses and of the dial strings `AABBCCDDEEFF:CHANNEL`.
use mesh_chat.Prelude.{
  ℕ, ◌+◌, ◌-◌, ◌*◌, ◌/◌, ◌%◌, ◌^◌, ◌<◌, ◌≡◌, refl, ◌∙◌, ap, Text, text, some, [], ◌∷◌, ◌++◌, length,
  keep, All, All-mono, ◌==◌, not, Bool, true, false, if◌then◌else◌, arith,
}
use mesh_chat.Error.{Error, room_code, Result, ok, err, ◌>>=◌, ok_or}
use mesh_chat.Text.{is_ascii_hexdigit, is_ascii_digit, rsplit_once}
use mesh_chat.Text.Split.{rsplit_once-append}
use mesh_chat.Text.Decimal.{decimal, parse_unsigned, parse_unsigned-decimal, decimal-IsDigits}
use mesh_chat.Text.Hex.{upper_byte, hex_value, digit_value, upper_digit, digit_value-upper_digit}

-- `{:012X}` of the low 48 bits.
unfoldable pub format_addr : ℕ → Text
format_addr addr =
    upper_byte (addr / 2 ^ 40 % 256)
    ++ (upper_byte (addr / 2 ^ 32 % 256)
        ++ (upper_byte (addr / 2 ^ 24 % 256)
            ++ (upper_byte (addr / 2 ^ 16 % 256)
                ++ (upper_byte (addr / 2 ^ 8 % 256) ++ (upper_byte (addr % 256) ++ [])))))

unfoldable pub parse_addr : Text → Result Error ℕ
parse_addr s =
    let hex = keep is_ascii_hexdigit s in
    if not (length hex == 12)
    then err (room_code (text "'" ++ (s ++ text "' is not a 12 hex digit Bluetooth address")))
    else ok_or (hex_value 0 hex) (room_code (text "invalid digit found in string"))

abbrev u32_max : ℕ
u32_max = 2 ^ 32 - 1

unfoldable pub parse_dial : Text → Result Error (ℕ × ℕ)
parse_dial s = do
  (mac, chan) ←
      ok_or (rsplit_once b':' s) (room_code (text "'" ++ (s ++ text "' is not ADDRESS:CHANNEL")))
  addr ← parse_addr mac
  chan ←
      ok_or (parse_unsigned u32_max chan)
        (room_code (text "'" ++ (chan ++ text "' is not a valid RFCOMM channel")))
  ok (addr, chan)

-- A dial string as `listen` builds it.
unfoldable pub format_dial : ℕ → ℕ → Text
format_dial addr channel = format_addr addr ++ (b':' ∷ decimal channel)

abbrev IsHex : Text → Type 0
IsHex = All λ c. is_ascii_hexdigit c ≡ true

hexdigit-upper_digit : (n : ℕ) → n < 16 → is_ascii_hexdigit (upper_digit n) ≡ true
unfolding is_ascii_hexdigit upper_digit
hexdigit-upper_digit n h = ground arith

upper_byte-hexdigits : (b : ℕ) (s : Text) → IsHex s → IsHex (upper_byte b ++ s)
unfolding upper_byte
upper_byte-hexdigits b s h = (
  hexdigit-upper_digit (b / 16 % 16) (omega arith),
  (hexdigit-upper_digit (b % 16) (omega arith), h),
)

format_addr-IsHex : (addr : ℕ) → IsHex (format_addr addr)
unfolding format_addr
format_addr-IsHex addr = upper_byte-hexdigits (addr / 2 ^ 40 % 256) _ (
    upper_byte-hexdigits (addr / 2 ^ 32 % 256) _ (
      upper_byte-hexdigits (addr / 2 ^ 24 % 256) _ (
        upper_byte-hexdigits (addr / 2 ^ 16 % 256) _
          (upper_byte-hexdigits (addr / 2 ^ 8 % 256) _ (upper_byte-hexdigits (addr % 256) [] tt)))))

keep_full : (p : ℕ → Bool) (s : Text) → All (λ c. p c ≡ true) s → keep p s ≡ s
keep_full p [] h = refl
keep_full p (c ∷ s) h = ground (arith, keep_full p s h.1)

length-format_addr : (addr : ℕ) → length (format_addr addr) ≡ 12
unfolding format_addr
length-format_addr addr = unfold upper_byte in refl

hex_value_step :
    (n c d : ℕ) (s : Text) → digit_value c ≡ some d → hex_value n (c ∷ s) ≡ hex_value (n * 16 + d) s
unfolding hex_value
hex_value_step n c d s e = ground arith

-- Two digits more are one byte more.
hex_value-upper_byte :
    (n b : ℕ) (s : Text) → b < 256 → hex_value n (upper_byte b ++ s) ≡ hex_value (n * 256 + b) s
unfolding upper_byte
hex_value-upper_byte n b s h =
    hex_value_step n _ (b / 16 % 16) _ (digit_value-upper_digit (b / 16 % 16) (omega arith))
    ∙ hex_value_step _ _ (b % 16) s (digit_value-upper_digit (b % 16) (omega arith))
    ∙ ap (λ (k : ℕ). hex_value k s) {x = (n * 16 + b / 16 % 16) * 16 + b % 16} {y = n * 256 + b}
        (omega arith)

hex_value-format_addr : (addr : ℕ) → addr < 2 ^ 48 → hex_value 0 (format_addr addr) ≡ some addr
hex_value-format_addr addr h =
    unfold format_addr in
    hex_value-upper_byte 0 (addr / 2 ^ 40 % 256) _ (omega arith)
    ∙ hex_value-upper_byte _ (addr / 2 ^ 32 % 256) _ (omega arith)
    ∙ hex_value-upper_byte _ (addr / 2 ^ 24 % 256) _ (omega arith)
    ∙ hex_value-upper_byte _ (addr / 2 ^ 16 % 256) _ (omega arith)
    ∙ hex_value-upper_byte _ (addr / 2 ^ 8 % 256) _ (omega arith)
    ∙ hex_value-upper_byte _ (addr % 256) [] (omega arith)
    ∙ unfold hex_value in ap some (omega arith)

pub parse_addr-format_addr : (addr : ℕ) → addr < 2 ^ 48 → parse_addr (format_addr addr) ≡ ok addr
unfolding parse_addr
parse_addr-format_addr addr h = rw (
  keep_full is_ascii_hexdigit (format_addr addr) (format_addr-IsHex addr),
  hex_value-format_addr addr h,
  length-format_addr addr,
)

digit_no_colon : (c : ℕ) → is_ascii_digit c ≡ true → (c == b':') ≡ false
unfolding is_ascii_digit
digit_no_colon c h = ground arith

-- A dial string is read back as the address and channel that it was made of.
pub parse_dial-format_dial :
    (addr channel : ℕ)
    → addr < 2 ^ 48
    → channel < 2 ^ 32
    → parse_dial (format_dial addr channel) ≡ ok (addr, channel)
unfolding parse_dial format_dial
parse_dial-format_dial addr channel h c = rw (
  rsplit_once-append b':' (format_addr addr) (decimal channel)
      (All-mono _ _ (decimal channel) digit_no_colon (decimal-IsDigits channel)),
  parse_addr-format_addr addr h,
  parse_unsigned-decimal u32_max channel (omega arith) (omega arith),
)
