-- ===== src/Text.antt =====
-- What the source uses of Rust's `char`, `str` and number formatting. A text is its list of code
-- points.
pub mod Split
pub mod Trim
pub mod Decimal
pub mod Hex
pub mod SocketAddr
use mesh_chat.Prelude.{
  ℕ, zero, suc, ◌+◌, ◌-◌, ◌*◌, ◌/◌, ◌%◌, ◌≤◌, ◌<◌, ◌≡◌, Text, Option, none, some, List, [], ◌∷◌,
  ◌++◌, length, ltb, leb, ◌==◌, ◌&&◌, ◌||◌, not, Bool, true, false, if◌then◌else◌, arith,
}

-- `char::is_control`: the category Cc.
unfoldable pub is_control : ℕ → Bool
is_control c = ltb c 32 || (leb 127 c && leb c 159)

-- `char::is_whitespace`: the property White_Space.
unfoldable pub is_whitespace : ℕ → Bool
is_whitespace c =
    (leb 9 c && leb c 13)
    || c == 32
    || c == 133
    || c == 160
    || c == 5760
    || (leb 8192 c && leb c 8202)
    || c == 8232
    || c == 8233
    || c == 8239
    || c == 8287
    || c == 12288

unfoldable pub is_ascii_digit : ℕ → Bool
is_ascii_digit c = leb 48 c && leb c 57

unfoldable pub is_ascii_uppercase : ℕ → Bool
is_ascii_uppercase c = leb 65 c && leb c 90

unfoldable pub is_ascii_lowercase : ℕ → Bool
is_ascii_lowercase c = leb 97 c && leb c 122

unfoldable pub is_ascii_alphanumeric : ℕ → Bool
unfolding is_ascii_digit is_ascii_uppercase is_ascii_lowercase
is_ascii_alphanumeric c = is_ascii_digit c || is_ascii_uppercase c || is_ascii_lowercase c

unfoldable pub is_ascii_hexdigit : ℕ → Bool
unfolding is_ascii_digit
is_ascii_hexdigit c = is_ascii_digit c || (leb 65 c && leb c 70) || (leb 97 c && leb c 102)

unfoldable pub to_ascii_uppercase : ℕ → ℕ
unfolding is_ascii_lowercase
to_ascii_uppercase c = if is_ascii_lowercase c then c - 32 else c

unfoldable pub to_ascii_lowercase : ℕ → ℕ
unfolding is_ascii_uppercase
to_ascii_lowercase c = if is_ascii_uppercase c then c + 32 else c

-- `str::len`: the bytes of the UTF-8 form.
abbrev pub utf8_width : ℕ → ℕ
utf8_width c = if ltb c 128 then 1 else if ltb c 2048 then 2 else if ltb c 65536 then 3 else 4

unfoldable pub byte_len : Text → ℕ
byte_len [] = 0
byte_len (c ∷ s) = utf8_width c + byte_len s

-- `String::into_bytes`: the UTF-8 form.
abbrev utf8_char : ℕ → List ℕ
utf8_char c =
    if ltb c 128
    then c ∷ []
    else if ltb c 2048
    then (192 + c / 64) ∷ (128 + c % 64) ∷ []
    else if ltb c 65536
    then (224 + c / 4096) ∷ (128 + c / 64 % 64) ∷ (128 + c % 64) ∷ []
    else (240 + c / 262144) ∷ (128 + c / 4096 % 64) ∷ (128 + c / 64 % 64) ∷ (128 + c % 64) ∷ []

unfoldable pub utf8 : Text → List ℕ
utf8 [] = []
utf8 (c ∷ s) = utf8_char c ++ utf8 s

-- `str::rsplit_once(c)`: before and after the last `c`.
unfoldable pub rsplit_once : ℕ → Text → Option (Text × Text)
rsplit_once c [] = none
rsplit_once c (x ∷ s) = elim (rsplit_once c s) [
  | some (front, back) ↦ some (x ∷ front, back)
  | none ↦ if x == c then some ([], s) else none
]

abbrev pub is_empty : Text → Bool
is_empty [] = true
is_empty (x ∷ s) = false
