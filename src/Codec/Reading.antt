-- ===== src/Codec/Reading.antt =====
-- `read_exact` delivers what the stream holds, however it is cut into pieces and interrupted.
use mesh_chat.Prelude.{
  ℕ, zero, suc, ◌-◌, ◌≤◌, ◌<◌, ◌≡◌, refl, sym, ◌∙◌, ap, subst, ◌⊎◌, inl, inr, Bytes, true, false,
  [], ◌∷◌, ◌++◌, append_assoc, append-nil, arith, length, take, drop, length-append, length-take,
  length-drop, if◌then◌else◌, Bool-cases, take-append_ge, drop-append_ge, take-append_le,
  drop-append_le, dec_le,
}
use mesh_chat.Error.{IoError}
use mesh_chat.Codec.Stream.{InStream, arrives, fails}
use mesh_chat.Codec.{done, failed, read_loop, read_exact, is_interrupted, closed_connection}

-- The bytes that come before the end of the stream or a lasting error. An empty arrival is read as
-- the end, as `Ok(0)` is.
unfoldable pub content : InStream → Bytes
content [] = []
content (arrives [] ∷ s) = []
content (arrives (b ∷ bs) ∷ s) = (b ∷ bs) ++ content s
content (fails e ∷ s) = if is_interrupted e.kind then content s else []

read_loop_full :
    (fuel : ℕ) (got : Bytes) (s : InStream) → 0 < fuel → read_loop fuel 0 got s ≡ done (got, s)
unfolding read_loop
read_loop_full zero got s h = absurd (omega arith)
read_loop_full (suc fuel) got s h = refl

-- One round on bytes that all fit, and on bytes that the buffer cannot hold.
read_loop_fits :
    (fuel n b : ℕ) (bs got : Bytes) (s : InStream)
    → length bs ≤ n
    → read_loop (suc fuel) (suc n) got (arrives (b ∷ bs) ∷ s)
      ≡ read_loop fuel (suc n - length (b ∷ bs)) (got ++ (b ∷ bs)) s
unfolding read_loop
read_loop_fits fuel n b bs got s h = ground arith

read_loop_cuts :
    (fuel n b : ℕ) (bs got : Bytes) (s : InStream)
    → n < length bs
    → 0 < fuel
    → read_loop (suc fuel) (suc n) got (arrives (b ∷ bs) ∷ s)
      ≡ done (got ++ (b ∷ take n bs), arrives (drop n bs) ∷ s)
unfolding read_loop
read_loop_cuts fuel n b bs got s h f = ground (
  arith,
  length-take n bs,
  read_loop_full fuel (got ++ (b ∷ take n bs)) (arrives (drop n bs) ∷ s) f,
)

read_loop_again :
    (fuel n : ℕ) (got : Bytes) (s : InStream) (e : IoError)
    → is_interrupted e.kind ≡ true
    → read_loop (suc fuel) (suc n) got (fails e ∷ s) ≡ read_loop fuel (suc n) got s
unfolding read_loop
read_loop_again fuel n got s e h = ground arith

content_again :
    (e : IoError) (s : InStream) → is_interrupted e.kind ≡ true → content (fails e ∷ s) ≡ content s
unfolding content
content_again e s h = ground arith

content_lasting :
    (e : IoError) (s : InStream) → is_interrupted e.kind ≡ false → content (fails e ∷ s) ≡ []
unfolding content
content_lasting e s h = ground arith

content-arrives :
    (bs : Bytes) (s : InStream) → 0 < length bs → content (arrives bs ∷ s) ≡ bs ++ content s
unfolding content
content-arrives [] s h = absurd (omega arith)
content-arrives (b ∷ bs) s h = refl

-- The loop takes the missing bytes off the front of the content.
read_loop-content :
    (fuel need : ℕ) (got : Bytes) (s : InStream)
    → length s < fuel
    → need ≤ length (content s)
    → (s' : InStream) × (read_loop fuel need got s ≡ done (got ++ take need (content s), s'))
      × (content s' ≡ drop need (content s))
unfolding content
read_loop-content fuel zero got s h n =
    (s, rw append-nil (read_loop_full fuel got s (omega arith)), refl)
read_loop-content zero (suc need) got s h n = absurd (omega arith)
read_loop-content (suc fuel) (suc need) got [] h n = absurd (omega arith)
read_loop-content (suc fuel) (suc need) got (arrives [] ∷ s) h n = absurd (omega arith)
read_loop-content (suc fuel) (suc need) got (arrives (b ∷ bs) ∷ s) h n =
    elim (dec_le (length bs) need) [
      | yes fits ↦
          let (s', r, c) =
            read_loop-content fuel (suc need - length (b ∷ bs)) (got ++ (b ∷ bs)) s (omega arith)
              (omega (arith, length-append bs (content s))) in
          (
            s',
            read_loop_fits fuel need b bs got s fits
                ∙ r
                ∙ rw (take-append_ge (suc need) (b ∷ bs) (content s) (omega arith), append_assoc),
            c ∙ sym (drop-append_ge (suc need) (b ∷ bs) (content s) (omega arith)),
          )
      | no more ↦ (
        arrives (drop need bs) ∷ s,
        rw (take-append_le need bs (content s) (omega arith))
            (read_loop_cuts fuel need b bs got s (omega arith) (omega arith)),
        content-arrives (drop need bs) s (omega (arith, length-drop need bs))
            ∙ sym (drop-append_le need bs (content s) (omega arith)),
      )
    ]
read_loop-content (suc fuel) (suc need) got (fails e ∷ s) h n =
    elim (Bool-cases (is_interrupted e.kind)) [
      | inl again ↦
          let (s', r, c) =
            read_loop-content fuel (suc need) got s (omega arith)
              (subst (λ x. suc need ≤ length x) (content_again e s again) n) in
          (
            s',
            rw (content_again e s again) (read_loop_again fuel need got s e again ∙ r),
            c ∙ sym (ap (drop (suc need)) (content_again e s again)),
          )
      | inr lasting ↦
          absurd (omega (arith, ap (λ (x : Bytes). length x) (content_lasting e s lasting)))
    ]

-- `read_exact` returns the first `n` bytes and leaves the others for the next call.
pub read_exact-content :
    (n : ℕ) (s : InStream)
    → n ≤ length (content s)
    → (s' : InStream) × (read_exact n s ≡ done (take n (content s), s'))
      × (content s' ≡ drop n (content s))
unfolding read_exact
read_exact-content n s h = read_loop-content (suc (length s)) n [] s (omega arith) h

read_loop_short :
    (fuel need : ℕ) (got : Bytes) (s : InStream)
    → length s < fuel
    → length (content s) < need
    → (e : IoError) × (read_loop fuel need got s ≡ failed e)
unfolding content
read_loop_short fuel zero got s h n = absurd (omega arith)
read_loop_short zero (suc need) got s h n = absurd (omega arith)
read_loop_short (suc fuel) (suc need) got [] h n =
    (closed_connection, unfold read_loop in ground arith)
read_loop_short (suc fuel) (suc need) got (arrives [] ∷ s) h n =
    (closed_connection, unfold read_loop in ground arith)
read_loop_short (suc fuel) (suc need) got (arrives (b ∷ bs) ∷ s) h n =
    let (e, r) =
      read_loop_short fuel (suc need - length (b ∷ bs)) (got ++ (b ∷ bs)) s (omega arith)
        (omega (arith, length-append bs (content s))) in
    (e, read_loop_fits fuel need b bs got s (omega (arith, length-append bs (content s))) ∙ r)
read_loop_short (suc fuel) (suc need) got (fails e ∷ s) h n =
    elim (Bool-cases (is_interrupted e.kind)) [
      | inl again ↦
          let (e', r) =
            read_loop_short fuel (suc need) got s (omega arith)
              (subst (λ x. length x < suc need) (content_again e s again) n) in
          (e', read_loop_again fuel need got s e again ∙ r)
      | inr lasting ↦ (e, unfold read_loop in ground arith)
    ]

-- With fewer than `n` bytes before the end `read_exact` fails; it never returns a short buffer.
pub read_exact_short :
    (n : ℕ) (s : InStream) → length (content s) < n → (e : IoError) × (read_exact n s ≡ failed e)
unfolding read_exact
read_exact_short n s h = read_loop_short (suc (length s)) n [] s (omega arith) h

-- What `read_exact` returns is the front of the content, of the length that was asked for.
pub read_exact_cases :
    (n : ℕ) (s : InStream)
    → ((got : Bytes) × (s' : InStream) × (read_exact n s ≡ done (got, s')) × (length got ≡ n))
      ⊎ ((e : IoError) × (read_exact n s ≡ failed e))
read_exact_cases n s = elim (dec_le n (length (content s))) [
  | yes h ↦
      let (s', r, c) = read_exact-content n s h in
      inl (take n (content s), s', r, omega (arith, length-take n (content s)))
  | no h ↦ inr (read_exact_short n s (omega arith))
]
