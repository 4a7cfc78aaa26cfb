-- ===== src/Text/Hex.antt =====
-- `{:02x}`, `{:02X}` and reading hexadecimal digits.
use mesh_chat.Prelude.{
  ℕ, ◌+◌, ◌-◌, ◌*◌, ◌/◌, ◌%◌, ◌<◌, ◌≡◌, ap, Text, Option, none, some, [], ◌∷◌, ltb, leb, ◌==◌, ◌&&◌,
  false, if◌then◌else◌, arith,
}

unfoldable pub lower_digit : ℕ → ℕ
lower_digit n = if ltb n 10 then 48 + n else 87 + n

unfoldable pub upper_digit : ℕ → ℕ
upper_digit n = if ltb n 10 then 48 + n else 55 + n

-- `char::to_digit(16)`
unfoldable pub digit_value : ℕ → Option ℕ
digit_value c =
    if leb 48 c && leb c 57
    then some (c - 48)
    else if leb 97 c && leb c 102
    then some (c - 87)
    else if leb 65 c && leb c 70
    then some (c - 55)
    else none

-- `{:02x}` and `{:02X}` of a byte.
unfoldable pub lower_byte : ℕ → Text
lower_byte b = lower_digit (b / 16 % 16) ∷ lower_digit (b % 16) ∷ []

unfoldable pub upper_byte : ℕ → Text
upper_byte b = upper_digit (b / 16 % 16) ∷ upper_digit (b % 16) ∷ []

abbrev pub combine : Option ℕ → Option ℕ → Option ℕ
combine none y = none
combine (some x) none = none
combine (some x) (some y) = some (x * 16 + y)

-- `from_str_radix(s, 16)` on two characters; it reads a leading `+` as a sign.
unfoldable pub byte_value : ℕ → ℕ → Option ℕ
byte_value c d = if c == b'+' then digit_value d else combine (digit_value c) (digit_value d)

-- `from_str_radix(s, 16)` on digits, with room in the type for all of them.
unfoldable pub hex_value : ℕ → Text → Option ℕ
hex_value n [] = some n
hex_value n (c ∷ s) = elim (digit_value c) [ none ↦ none | some d ↦ hex_value (n * 16 + d) s ]

pub digit_value-lower_digit : (n : ℕ) → n < 16 → digit_value (lower_digit n) ≡ some n
unfolding digit_value lower_digit
digit_value-lower_digit n h = ground arith

pub digit_value-upper_digit : (n : ℕ) → n < 16 → digit_value (upper_digit n) ≡ some n
unfolding digit_value upper_digit
digit_value-upper_digit n h = ground arith

pub lower_digit-ne_plus : (n : ℕ) → (lower_digit n == b'+') ≡ false
unfolding lower_digit
lower_digit-ne_plus n = ground arith

pub byte_value-lower_byte :
    (b : ℕ) → b < 256 → byte_value (lower_digit (b / 16 % 16)) (lower_digit (b % 16)) ≡ some b
unfolding byte_value
byte_value-lower_byte b h =
    rw
      (
        lower_digit-ne_plus (b / 16 % 16),
        digit_value-lower_digit (b / 16 % 16) (omega arith),
        digit_value-lower_digit (b % 16) (omega arith),
      )
      (ap some {x = b / 16 % 16 * 16 + b % 16} {y = b} (omega arith))
