-- ===== src/Ui/Rows/Transcript.antt =====
-- ui/src/main.rs: the lines on screen against the whole transcript.
use mesh_chat.Prelude.{
  ℕ, zero, suc, ◌+◌, ◌-◌, ◌≤◌, ◌≡◌, refl, sym, ap, ◌∙◌, inl, inr, List, [], ◌∷◌, ◌++◌, length, drop,
  leb, arith, Bool-cases, length-append, drop-append_le, length-drop, leb→le,
}
use mesh_chat.Ui.{MessageRow, max_visible_messages}
use mesh_chat.Ui.Rows.{push_message}

-- The last lines of a transcript.
abbrev pub latest {ℓ} : {A : Type ℓ} → ℕ → List A → List A
latest n xs = drop (length xs - n) xs

pub latest_all {ℓ} : {A : Type ℓ} (n : ℕ) (xs : List A) → length xs ≤ n → latest n xs ≡ xs
latest_all n xs h = ap (λ k. drop k xs) {x = length xs - n} {y = 0} (omega arith)

drop-nil {ℓ} : {A : Type ℓ} (k : ℕ) → drop {A = A} k [] ≡ []
drop-nil zero = refl
drop-nil (suc k) = refl

drop-drop {ℓ} : {A : Type ℓ} (j k : ℕ) (xs : List A) → drop j (drop k xs) ≡ drop (k + j) xs
drop-drop j zero xs = ap (λ i. drop i xs) {x = j} {y = 0 + j} (omega arith)
drop-drop j (suc k) [] = drop-nil j ∙ sym (drop-nil (suc k + j))
drop-drop j (suc k) (x ∷ xs) =
    drop-drop j k xs ∙ ap (λ i. drop i (x ∷ xs)) {x = suc (k + j)} {y = suc k + j} (omega arith)

-- What was cut off before is cut off later.
pub latest-latest {ℓ} :
    {A : Type ℓ} (n : ℕ) (xs ys : List A) → latest n (latest n xs ++ ys) ≡ latest n (xs ++ ys)
latest-latest n xs ys =
    ap (λ (zs : List _). latest n zs) (sym (drop-append_le (length xs - n) xs ys (omega arith)))
    ∙ drop-drop (length (drop (length xs - n) (xs ++ ys)) - n) (length xs - n) (xs ++ ys)
    ∙ ap (λ k. drop k (xs ++ ys))
        {x = (length xs - n) + (length (drop (length xs - n) (xs ++ ys)) - n)}
        {y = length (xs ++ ys) - n}
        (omega (arith, length-drop (length xs - n) (xs ++ ys), length-append xs ys))

-- The view stays within its bound.
pub length-push_message :
    (row : MessageRow) (rows : List MessageRow)
    → length rows ≤ max_visible_messages
    → length (push_message row rows) ≤ max_visible_messages
unfolding push_message
length-push_message row rows h = elim (Bool-cases (leb max_visible_messages (length rows))) [
  | inl full ↦ rw full (omega (arith, length-append (drop 1 rows) (row ∷ []), length-drop 1 rows))
  | inr room ↦ rw room (ground (arith, length-append rows (row ∷ [])))
]

-- Dropping the oldest line of a full view keeps the last lines.
pub push_message-latest :
    (row : MessageRow) (rows : List MessageRow)
    → length rows ≤ max_visible_messages
    → push_message row rows ≡ latest max_visible_messages (rows ++ row ∷ [])
unfolding push_message
push_message-latest row rows h = elim (Bool-cases (leb max_visible_messages (length rows))) [
  | inl full ↦ rw full (
      sym (
        drop-append_le 1 rows (row ∷ [])
          (omega (arith, leb→le max_visible_messages (length rows) full)))
      ∙ ap (λ k. drop k (rows ++ row ∷ [])) {x = 1}
          {y = length (rows ++ row ∷ []) - max_visible_messages}
          (omega
            (arith, length-append rows (row ∷ []), leb→le max_visible_messages (length rows) full)))
  | inr room ↦ rw room (
      sym (
        latest_all max_visible_messages (rows ++ row ∷ [])
          (ground (arith, length-append rows (row ∷ [])))))
]
