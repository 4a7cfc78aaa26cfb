-- ===== src/Text/SocketAddr.antt =====
-- `std::net::SocketAddr`, as far as room codes need it: its parser and printer on IPv4 addresses.
-- Which texts are IPv6 addresses is a parameter.
use mesh_chat.Prelude.{
  ℕ, ◌<◌, ◌≡◌, refl, Text, Option, none, some, [], ◌∷◌, ◌++◌, length, ltb, ◌==◌, ◌||◌, Bool, false,
  if◌then◌else◌, arith, dec_lt,
}
use mesh_chat.Text.{is_ascii_digit, is_empty}
use mesh_chat.Text.Decimal.{
  decimal, digits_value, digits_value-decimal, decimal-IsDigits, IsDigits, decimal_one, decimal_two,
  decimal_three, length-decimal_pos,
}

pub record SocketAddrV4 : Type 0 where
  pub a : ℕ
  pub b : ℕ
  pub c : ℕ
  pub d : ℕ
  pub port : ℕ

pub data SocketAddr : Type 0 where
  v4 : SocketAddrV4 → SocketAddr
  v6 : Text → SocketAddr

infixl 5 ◌>>=◌
abbrev ◌>>=◌ {ℓ κ} : {A : Type ℓ} {B : Type κ} → Option A → (A → Option B) → Option B
none >>= f = none
some x >>= f = f x

unfoldable pub span_digits : Text → Text × Text
span_digits [] = ([], [])
span_digits (c ∷ s) =
    let (ds, rest) = span_digits s in if is_ascii_digit c then (c ∷ ds, rest) else ([], c ∷ s)

abbrev has_leading_zero : Text → Bool
has_leading_zero (c ∷ d ∷ s) = c == b'0'
has_leading_zero _ = false

abbrev with_rest : Text → Option ℕ → Option (ℕ × Text)
with_rest rest none = none
with_rest rest (some v) = some (v, rest)

-- `read_number(10, Some(3), false)`
unfoldable pub octet : Text → Option (ℕ × Text)
octet s =
    let (ds, rest) = span_digits s in
    if is_empty ds || ltb 3 (length ds) || has_leading_zero ds
    then none
    else with_rest rest (digits_value 255 0 ds)

-- `read_number(10, None, true)`
unfoldable pub port_number : Text → Option (ℕ × Text)
port_number s =
    let (ds, rest) = span_digits s in
    if is_empty ds then none else with_rest rest (digits_value 65535 0 ds)

abbrev expect : ℕ → Text → Option Text
expect c [] = none
expect c (x ∷ s) = if x == c then some s else none

abbrev at_end : Text → SocketAddrV4 → Option SocketAddrV4
at_end [] addr = some addr
at_end (x ∷ s) addr = none

unfoldable pub parse_v4 : Text → Option SocketAddrV4
parse_v4 s = do
  (a, s) ← octet s
  s ← expect b'.' s
  (b, s) ← octet s
  s ← expect b'.' s
  (c, s) ← octet s
  s ← expect b'.' s
  (d, s) ← octet s
  s ← expect b':' s
  (port, s) ← port_number s
  at_end s (record { a = a; b = b; c = c; d = d; port = port })

unfoldable pub parse : (Text → Bool) → Text → Option SocketAddr
parse is_v6 s = elim (parse_v4 s) [
  | some addr ↦ some (v4 addr)
  | none ↦ if is_v6 s then some (v6 s) else none
]

-- `format!("{}.{}.{}.{}", ..)` and `format!("{ip}:{port}")`
unfoldable pub display_v4 : SocketAddrV4 → Text
display_v4 x =
    decimal x.a
    ++ (b'.'
        ∷ (decimal x.b
            ++ (b'.' ∷ (decimal x.c ++ (b'.' ∷ (decimal x.d ++ (b':' ∷ decimal x.port)))))))

span_digits-append :
    (ds : Text) (c : ℕ) (rest : Text)
    → IsDigits ds
    → is_ascii_digit c ≡ false
    → span_digits (ds ++ c ∷ rest) ≡ (ds, c ∷ rest)
unfolding span_digits
span_digits-append [] c rest d h = rw h
span_digits-append (x ∷ ds) c rest d h = rw (d.0, span_digits-append ds c rest d.1 h)

span_digits_all : (ds : Text) → IsDigits ds → span_digits ds ≡ (ds, [])
unfolding span_digits
span_digits_all [] d = refl
span_digits_all (x ∷ ds) d = rw (d.0, span_digits_all ds d.1)

octet_shape :
    (n : ℕ)
    → n < 256
    → (is_empty (decimal n) || ltb 3 (length (decimal n)) || has_leading_zero (decimal n)) ≡ false
octet_shape n h = elim (dec_lt n 10) [
  | yes one ↦ rw (decimal_one n one)
  | no more ↦ elim (dec_lt n 100) [
    | yes two ↦ rw (decimal_two n (omega arith) two) (ground arith)
    | no three ↦ rw (decimal_three n (omega arith) (omega arith)) (ground arith)
  ]
]

octet-decimal :
    (n c : ℕ) (rest : Text)
    → n < 256
    → is_ascii_digit c ≡ false
    → octet (decimal n ++ c ∷ rest) ≡ some (n, c ∷ rest)
unfolding octet
octet-decimal n c rest h d =
    rw (span_digits-append (decimal n) c rest (decimal-IsDigits n) d)
      (rw (octet_shape n h, digits_value-decimal 255 n (omega arith) (omega arith)))

not-is_empty : (s : Text) → 0 < length s → is_empty s ≡ false
not-is_empty [] h = absurd (omega arith)
not-is_empty (c ∷ s) h = refl

port_number-decimal : (n : ℕ) → n < 65536 → port_number (decimal n) ≡ some (n, [])
unfolding port_number
port_number-decimal n h = rw (span_digits_all (decimal n) (decimal-IsDigits n)) (
    rw (
      not-is_empty (decimal n) (length-decimal_pos n),
      digits_value-decimal 65535 n (omega arith) (omega arith),
    ))

-- Octets and port within their types.
pub record IsV4 (x : SocketAddrV4) : Type 0 where
  pub a_byte : x.a < 256
  pub b_byte : x.b < 256
  pub c_byte : x.c < 256
  pub d_byte : x.d < 256
  pub port_word : x.port < 65536

dot_no_digit : is_ascii_digit b'.' ≡ false
unfolding is_ascii_digit
dot_no_digit = refl

colon_no_digit : is_ascii_digit b':' ≡ false
unfolding is_ascii_digit
colon_no_digit = refl

-- The parser reads back what was printed.
pub parse_v4-display_v4 : (x : SocketAddrV4) → IsV4 x → parse_v4 (display_v4 x) ≡ some x
unfolding parse_v4 display_v4
parse_v4-display_v4 x v = rw (octet-decimal x.a b'.' _ v.a_byte dot_no_digit) (
    rw (octet-decimal x.b b'.' _ v.b_byte dot_no_digit) (
      rw (octet-decimal x.c b'.' _ v.c_byte dot_no_digit) (
        rw (octet-decimal x.d b':' _ v.d_byte colon_no_digit)
          (rw (port_number-decimal x.port v.port_word)))))
