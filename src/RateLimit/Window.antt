-- ===== src/RateLimit/Window.antt =====
-- core/src/ratelimit.rs: what the limiter knows of the log of accepted attempts.
use mesh_chat.Prelude.{
  ℕ, ◌≤◌, ◌<◌, ◌≡◌, refl, sym, ◌∙◌, ap, inl, inr, ◌⊎◌, Text, Option, none, some, List, [], ◌∷◌,
  ◌++◌, length, keep, any, ltb, leb, ◌&&◌, ◌||◌, Bool, true, false, if◌then◌else◌, arith, keep-keep,
  keep-append, key_eq, Bool-cases, key_eq→eq, append-nil,
}
use mesh_chat.Prelude.Assoc.{
  Assoc, lookup, insert, lookup-insert, Unique, insert-Unique, filter_option, lookup-retain,
  retain-Unique,
}
use mesh_chat.RateLimit.{RateLimiter, is_fresh, or_default, entry, allow, sweep}

-- The accepted attempts, oldest first.
abbrev pub Log : Type 0
Log = List (ℕ × Text)

abbrev pub times : Log → List ℕ
times [] = []
times ((t, k) ∷ log) = t ∷ times log

abbrev pub times_from : Text → Log → List ℕ
times_from source [] = []
times_from source ((t, k) ∷ log) =
    if key_eq k source then t ∷ times_from source log else times_from source log

pub times-append : (a b : Log) → times (a ++ b) ≡ times a ++ times b
times-append [] b = refl
times-append ((t, k) ∷ a) b = ap (◌∷◌ t) (times-append a b)

times_from-append :
    (source : Text) (a b : Log)
    → times_from source (a ++ b) ≡ times_from source a ++ times_from source b
times_from-append source [] b = refl
times_from-append source ((t, k) ∷ a) b = ground (arith, times_from-append source a b)

is_fresh-earlier :
    (w now later t : ℕ) → now ≤ later → is_fresh w later t ≡ true → is_fresh w now t ≡ true
is_fresh-earlier w now later t h f = ground arith

-- Filtering at one instant does not change what is fresh at a later one.
pub keep-fresh :
    (w now later : ℕ) (ts : List ℕ)
    → now ≤ later
    → keep (is_fresh w later) (keep (is_fresh w now) ts) ≡ keep (is_fresh w later) ts
keep-fresh w now later ts h =
    keep-keep (is_fresh w later) (is_fresh w now) ts (λ t. is_fresh-earlier w now later t h)

-- From `now` on the limiter knows of every accepted attempt that is still in the window.
pub record Tracks (now : ℕ) (log : Log) (rl : RateLimiter) : Type 0 where
  pub unique : Unique rl.hits
  pub recent :
      (t : ℕ)
      → now ≤ t
      → keep (is_fresh rl.window t) rl.all ≡ keep (is_fresh rl.window t) (times log)
  pub each :
      (k : Text) (t : ℕ)
      → now ≤ t
      → keep (is_fresh rl.window t) (entry k rl.hits)
        ≡ keep (is_fresh rl.window t) (times_from k log)

-- The reference: the verdict on an attempt, from the log of the accepted ones alone.
abbrev pub within_budget : ℕ → ℕ → ℕ → Log → ℕ → Text → Bool
within_budget w p g log now source =
    ltb (length (keep (is_fresh w now) (times_from source log))) p
    && ltb (length (keep (is_fresh w now) (times log))) g

abbrev pub log_after : Bool → ℕ → Text → Log → Log
log_after accepted now source log = if accepted then log ++ (now, source) ∷ [] else log

entry-insert :
    (source k : Text) (ts : List ℕ) (m : Assoc (List ℕ))
    → entry k (insert source ts m) ≡ (if key_eq source k then ts else entry k m)
entry-insert source k ts m = rw (lookup-insert source k ts m) (or_default_if (key_eq source k))
  where
    or_default_if :
        (b : Bool)
        → or_default (if b then some ts else lookup k m)
          ≡ (if b then ts else or_default (lookup k m))
    or_default_if true = refl
    or_default_if false = refl

abbrev pub fresh_all : ℕ → RateLimiter → List ℕ
fresh_all now rl = keep (is_fresh rl.window now) rl.all

abbrev pub fresh_mine : ℕ → Text → RateLimiter → List ℕ
fresh_mine now source rl = keep (is_fresh rl.window now) (entry source rl.hits)

-- The two ways in which `allow` ends.
abbrev pub Refuses : ℕ → Text → RateLimiter → Type 0
Refuses now source rl = allow now source rl ≡ (
  false,
  record rl { hits = insert source (fresh_mine now source rl) rl.hits; all = fresh_all now rl },
)

abbrev pub Accepts : ℕ → Text → RateLimiter → Type 0
Accepts now source rl =
    (allow now source rl ≡ (
      true,
      record rl {
        hits = insert source (fresh_mine now source rl ++ now ∷ []) rl.hits;
        all = fresh_all now rl ++ now ∷ [];
      },
    ))
    × (length (fresh_mine now source rl) < rl.per_source)
    × (length (fresh_all now rl) < rl.global)

pub allow_cases :
    (now : ℕ) (source : Text) (rl : RateLimiter) → Refuses now source rl ⊎ Accepts now source rl
unfolding allow
allow_cases now source rl =
    elim (Bool-cases (
      leb rl.per_source (length (fresh_mine now source rl))
      || leb rl.global (length (fresh_all now rl)))) [
        | inl full ↦ inl (rw full)
        | inr room ↦ inr (rw room, ground arith, ground arith)
      ]

-- One more entry at the end is kept or dropped on its own.
keep_pushed :
    (w now t : ℕ) (ts log more : List ℕ)
    → now ≤ t
    → keep (is_fresh w t) ts ≡ keep (is_fresh w t) log
    → keep (is_fresh w t) (keep (is_fresh w now) ts ++ more) ≡ keep (is_fresh w t) (log ++ more)
keep_pushed w now t ts log more h e =
    keep-append (is_fresh w t) (keep (is_fresh w now) ts) more
    ∙ ap (λ (x : List ℕ). x ++ keep (is_fresh w t) more) (keep-fresh w now t ts h ∙ e)
    ∙ sym (keep-append (is_fresh w t) log more)

pub times_from-pushed :
    (k source : Text) (now : ℕ) (log : Log)
    → times_from k (log ++ (now, source) ∷ [])
      ≡ (if key_eq source k then times_from k log ++ now ∷ [] else times_from k log)
times_from-pushed k source now log =
    times_from-append k log ((now, source) ∷ []) ∙ go (key_eq source k)
  where
    go :
        (b : Bool)
        → times_from k log ++ (if b then now ∷ [] else [])
          ≡ (if b then times_from k log ++ now ∷ [] else times_from k log)
    go true = refl
    go false = append-nil (times_from k log)

if_append-nil : (b : Bool) (ts : List ℕ) → (if b then ts ++ [] else ts) ≡ ts
if_append-nil true ts = append-nil ts
if_append-nil false ts = refl

module _ (before now : ℕ) (source : Text) (log : Log) (rl : RateLimiter) (h : before ≤ now)
    (i : Tracks before log rl) where
  pub allow-verdict :
      (allow now source rl).0 ≡ within_budget rl.window rl.per_source rl.global log now source
  unfolding allow
  allow-verdict = rw (i.recent now h, i.each source now h) (ground arith)

  -- The entry of `source` after its old times were filtered and `more` was added.
  entry_pushed :
      (k : Text) (t : ℕ) (more : List ℕ)
      → now ≤ t
      → keep
          (is_fresh rl.window t)
          (entry k (insert source (fresh_mine now source rl ++ more) rl.hits))
        ≡ keep
            (is_fresh rl.window t)
            (if key_eq source k then times_from k log ++ more else times_from k log)
  entry_pushed k t more le =
      rw (entry-insert source k (fresh_mine now source rl ++ more) rl.hits)
        (elim (Bool-cases (key_eq source k)) [
          | inl same ↦ rw same (
              keep_pushed rl.window now t (entry source rl.hits) (times_from k log) more le (
                ap (λ (x : Text). keep (is_fresh rl.window t) (entry x rl.hits))
                  (key_eq→eq source k same)
                ∙ i.each k t (omega arith)))
          | inr other ↦ rw other (i.each k t (omega arith))
        ])

  pub refused-Tracks : Refuses now source rl → Tracks now log (allow now source rl).1
  refused-Tracks r = rw r (record {
    unique = insert-Unique source (fresh_mine now source rl) rl.hits i.unique;
    recent = λ t le. keep-fresh rl.window now t rl.all le ∙ i.recent t (omega arith);
    each = λ k t le.
        ap (λ (x : List ℕ). keep (is_fresh rl.window t) (entry k (insert source x rl.hits)))
          (sym (append-nil (fresh_mine now source rl)))
        ∙ entry_pushed k t [] le
        ∙ ap (keep (is_fresh rl.window t)) (if_append-nil (key_eq source k) (times_from k log));
  })

  pub accepted-Tracks :
      Accepts now source rl → Tracks now (log ++ (now, source) ∷ []) (allow now source rl).1
  accepted-Tracks r = rw (r.0) (record {
    unique = insert-Unique source (fresh_mine now source rl ++ now ∷ []) rl.hits i.unique;
    recent = λ t le.
        keep_pushed rl.window now t rl.all (times log) (now ∷ []) le (i.recent t (omega arith))
        ∙ ap (keep (is_fresh rl.window t)) (sym (times-append log ((now, source) ∷ [])));
    each = λ k t le.
        entry_pushed k t (now ∷ []) le
        ∙ ap (keep (is_fresh rl.window t)) (sym (times_from-pushed k source now log));
  })

any-keep : (p : ℕ → Bool) (ts : List ℕ) → any p ts ≡ false → keep p ts ≡ []
any-keep p [] h = refl
any-keep p (t ∷ ts) h = ground (arith, any-keep p ts)

-- A source whose times are all stale counts for nothing later.
stale_dropped :
    (w now t : ℕ) (o : Option (List ℕ))
    → now ≤ t
    → keep (is_fresh w t) (or_default (filter_option (any (is_fresh w now)) o))
      ≡ keep (is_fresh w t) (or_default o)
stale_dropped w now t none h = refl
stale_dropped w now t (some ts) h = elim (Bool-cases (any (is_fresh w now) ts)) [
  | inl live ↦ rw live
  | inr stale ↦ rw stale (
      ap (keep (is_fresh w t)) (sym (any-keep (is_fresh w now) ts stale)) ∙ keep-fresh w now t ts h)
]

pub sweep-Tracks :
    (before now : ℕ) (log : Log) (rl : RateLimiter)
    → before ≤ now
    → Tracks before log rl
    → Tracks now log (sweep now rl)
unfolding sweep
sweep-Tracks before now log rl h i = record {
  unique = retain-Unique (any (is_fresh rl.window now)) rl.hits i.unique;
  recent = λ t le. i.recent t (omega arith);
  each = λ k t le.
      rw (lookup-retain (any (is_fresh rl.window now)) k rl.hits i.unique)
        (stale_dropped rl.window now t (lookup k rl.hits) le ∙ i.each k t (omega arith));
}
