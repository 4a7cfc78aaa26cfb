-- ===== src/Error.antt =====
-- core/src/lib.rs: the engine's error type, its messages, and results.
use mesh_chat.Prelude.{ℕ, Text, text, ◌++◌, Option, none, some, ◌≡◌, ◌⊎◌, inl, inr, refl}

-- `std::io::ErrorKind`, as far as the source tells kinds apart.
pub data ErrorKind : Type 0 where
  unexpected_eof write_zero invalid_input invalid_data interrupted other : ErrorKind

-- `std::io::Error`: its kind and what it displays.
pub record IoError : Type 0 where
  pub kind : ErrorKind
  pub message : Text

pub data Error : Type 0 where
  io : IoError → Error
  crypto protocol room_code unsupported config closed : Text → Error

unfoldable pub display : Error → Text
display (io e) = e.message
display (crypto m) = text "encryption error: " ++ m
display (protocol m) = text "protocol error: " ++ m
display (room_code m) = text "room code error: " ++ m
display (unsupported m) = m
display (config m) = m
display (closed m) = m

pub data Result {ℓ κ} (E : Type ℓ) (A : Type κ) : Type (ℓ ⊔ κ) where
  ok : A → Result E A
  err : E → Result E A

-- `?`: a chain stops at its first error.
infixl 5 ◌>>=◌
abbrev pub ◌>>=◌ {ℓ κ μ} :
    {Failure : Type ℓ} {In : Type κ} {Out : Type μ}
    → Result Failure In
    → (In → Result Failure Out)
    → Result Failure Out
err failure >>= next = err failure
ok value >>= next = next value

-- `o.ok_or_else(|| e)`
abbrev pub ok_or {ℓ κ} : {E : Type ℓ} {A : Type κ} → Option A → E → Result E A
ok_or none e = err e
ok_or (some a) e = ok a

-- `?` on an `io::Result` inside a function that returns the crate's `Result`.
abbrev pub lift_io {ℓ} : {A : Type ℓ} → Result IoError A → Result Error A
lift_io (ok a) = ok a
lift_io (err e) = err (io e)

abbrev pub protocol_version : ℕ
protocol_version = 1

pub Result-cases {ℓ κ} :
    {E : Type ℓ} {A : Type κ} (r : Result E A) → ((a : A) × (r ≡ ok a)) ⊎ ((e : E) × (r ≡ err e))
Result-cases (ok a) = inl (a, refl)
Result-cases (err e) = inr (e, refl)

-- The steps of a chain that succeeded.
pub >>=-succeeds {ℓ κ μ} :
    {Failure : Type ℓ} {In : Type κ} {Out : Type μ} (start : Result Failure In)
    (next : In → Result Failure Out) {out : Out}
    → (start >>= next) ≡ ok out
    → (value : In) × (start ≡ ok value) × (next value ≡ ok out)
>>=-succeeds (err failure) next whole = cc
>>=-succeeds (ok value) next whole = (value, refl, whole)

pub ok_or-eq-ok {ℓ κ} :
    {E : Type ℓ} {A : Type κ} (o : Option A) (e : E) {a : A} → ok_or o e ≡ ok a → o ≡ some a
ok_or-eq-ok none e h = cc
ok_or-eq-ok (some x) e h = cc
