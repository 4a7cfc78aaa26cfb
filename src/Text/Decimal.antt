-- ===== src/Text/Decimal.antt =====
-- `{}` on unsigned numbers below 10 ^ 20 (so on every `u64`), and the decimal parsers.
use mesh_chat.Prelude.{
  ℕ, zero, suc, ◌+◌, ◌-◌, ◌*◌, ◌/◌, ◌%◌, ◌^◌, ◌≤◌, ◌<◌, ◌≡◌, refl, ◌∙◌, ap, inl, inr, Text, Option,
  none, some, [], ◌∷◌, ◌++◌, length, length-append, All, All-append, ltb, leb, ◌==◌, ◌&&◌, true,
  if◌then◌else◌, arith, Bool-cases,
}
use native.Mathlib.Nat.{pow-suc}
use mesh_chat.Text.{is_ascii_digit}

unfoldable pub decimal_loop : ℕ → ℕ → Text
decimal_loop zero n = []
decimal_loop (suc fuel) n =
    let front = decimal_loop fuel (n / 10) in
    if ltb n 10 then (48 + n) ∷ [] else front ++ (48 + n % 10) ∷ []

unfoldable pub decimal : ℕ → Text
unfolding decimal_loop
decimal n = decimal_loop 20 n

-- One more digit of a number that must not pass `max` (`checked_mul`, `checked_add`).
abbrev add_digit : ℕ → ℕ → ℕ → Option ℕ
add_digit max n c =
    if is_ascii_digit c && leb (n * 10 + (c - 48)) max then some (n * 10 + (c - 48)) else none

abbrev and_digit : ℕ → Option ℕ → ℕ → Option ℕ
and_digit max none c = none
and_digit max (some n) c = add_digit max n c

unfoldable pub digits_value : ℕ → ℕ → Text → Option ℕ
unfolding is_ascii_digit
digits_value max n [] = some n
digits_value max n (c ∷ s) = elim (add_digit max n c) [
  | none ↦ none
  | some m ↦ digits_value max m s
]

-- `str::parse` into an unsigned type whose largest value is `max`: a `+` may stand in front.
unfoldable pub parse_unsigned : ℕ → Text → Option ℕ
unfolding digits_value
parse_unsigned max [] = none
parse_unsigned max (c ∷ []) = digits_value max 0 (c ∷ [])
parse_unsigned max (c ∷ d ∷ s) =
    if c == b'+' then digits_value max 0 (d ∷ s) else digits_value max 0 (c ∷ d ∷ s)

digits_value-append :
    (max n c : ℕ) (s : Text)
    → digits_value max n (s ++ c ∷ []) ≡ and_digit max (digits_value max n s) c
unfolding digits_value
digits_value-append max n c [] = ground arith
digits_value-append max n c (x ∷ s) =
    ground (arith, digits_value-append max (n * 10 + (x - 48)) c s)

single_digit : (max n : ℕ) → n < 10 → n ≤ max → digits_value max 0 ((48 + n) ∷ []) ≡ some n
unfolding digits_value
single_digit max n h m = ground arith

last_digit : (max n : ℕ) → n ≤ max → and_digit max (some (n / 10)) (48 + n % 10) ≡ some n
unfolding is_ascii_digit
last_digit max n m = ground arith

next_lt : (fuel n : ℕ) → n < 10 ^ suc fuel → n / 10 < 10 ^ fuel
next_lt fuel n h = omega (arith, pow-suc 10 fuel)

-- Reading back what was printed.
digits_value-decimal_loop :
    (fuel max n : ℕ) → n < 10 ^ fuel → n ≤ max → digits_value max 0 (decimal_loop fuel n) ≡ some n
unfolding decimal_loop digits_value
digits_value-decimal_loop zero max n h m = ap some {x = 0} {y = n} (omega arith)
digits_value-decimal_loop (suc fuel) max n h m = elim (Bool-cases (ltb n 10)) [
  | inl one ↦ rw one (single_digit max n (ground arith) m)
  | inr more ↦
      rw
        (
          more,
          digits_value-append,
          digits_value-decimal_loop fuel max (n / 10) (next_lt fuel n h) (omega arith),
        )
        (last_digit max n m)
]

pub digits_value-decimal :
    (max n : ℕ) → n < 10 ^ 20 → n ≤ max → digits_value max 0 (decimal n) ≡ some n
unfolding decimal
digits_value-decimal max n h m = digits_value-decimal_loop 20 max n h m

abbrev pub IsDigits : Text → Type 0
IsDigits = All λ c. is_ascii_digit c ≡ true

decimal_loop-IsDigits : (fuel n : ℕ) → IsDigits (decimal_loop fuel n)
unfolding decimal_loop is_ascii_digit
decimal_loop-IsDigits zero n = tt
decimal_loop-IsDigits (suc fuel) n = elim (Bool-cases (ltb n 10)) [
  | inl one ↦ rw one (ground arith, tt)
  | inr more ↦ rw more (
      All-append _ (decimal_loop fuel (n / 10)) ((48 + n % 10) ∷ [])
        (decimal_loop-IsDigits fuel (n / 10)) (ground arith, tt))
]

pub decimal-IsDigits : (n : ℕ) → IsDigits (decimal n)
unfolding decimal
decimal-IsDigits n = decimal_loop-IsDigits 20 n

pub parse_unsigned-IsDigits :
    (max : ℕ) (s : Text) → IsDigits s → 0 < length s → parse_unsigned max s ≡ digits_value max 0 s
unfolding parse_unsigned is_ascii_digit
parse_unsigned-IsDigits max [] d h = absurd (omega arith)
parse_unsigned-IsDigits max (c ∷ []) d h = refl
parse_unsigned-IsDigits max (c ∷ x ∷ s) d h = ground arith

-- The shapes of the numbers below 1000.
pub decimal_one : (n : ℕ) → n < 10 → decimal n ≡ (48 + n) ∷ []
unfolding decimal
decimal_one n h = ground arith

pub decimal_two : (n : ℕ) → 10 ≤ n → n < 100 → decimal n ≡ (48 + n / 10) ∷ (48 + n % 10) ∷ []
unfolding decimal
decimal_two n l h = ground arith

pub decimal_three :
    (n : ℕ)
    → 100 ≤ n
    → n < 1000
    → decimal n ≡ (48 + n / 10 / 10) ∷ (48 + n / 10 % 10) ∷ (48 + n % 10) ∷ []
unfolding decimal
decimal_three n l h = ground arith

pub length-decimal_pos : (n : ℕ) → 0 < length (decimal n)
unfolding decimal
length-decimal_pos n = elim (Bool-cases (ltb n 10)) [
  | inl one ↦ rw one (omega arith)
  | inr more ↦
      rw more (omega (arith, length-append (decimal_loop 19 (n / 10)) ((48 + n % 10) ∷ [])))
]

-- `parse` reads back what `{}` printed, for each unsigned type.
pub parse_unsigned-decimal :
    (max n : ℕ) → n < 10 ^ 20 → n ≤ max → parse_unsigned max (decimal n) ≡ some n
parse_unsigned-decimal max n h m =
    parse_unsigned-IsDigits max (decimal n) (decimal-IsDigits n) (length-decimal_pos n)
    ∙ digits_value-decimal max n h m
