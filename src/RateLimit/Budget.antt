-- ===== src/RateLimit/Budget.antt =====
-- No window of time holds more accepted attempts than the budgets allow.
use mesh_chat.Prelude.{
  ℕ, ◌+◌, ◌≤◌, ◌<◌, ◌≡◌, refl, sym, ◌∙◌, ap, subst, inl, inr, Text, List, [], ◌∷◌, ◌++◌, length,
  keep, Bool, arith, keep-append, length-append, length-keep-le, key_eq, key_eq→eq, Bool-cases,
}
use mesh_chat.Prelude.Assoc.{lookup-nil}
use mesh_chat.RateLimit.{RateLimiter, new, is_fresh, allow, sweep}
use mesh_chat.RateLimit.Window.{
  Log, times, times_from, times-append, times_from-pushed, keep-fresh, Tracks, allow_cases,
  refused-Tracks, accepted-Tracks, sweep-Tracks, log_after,
}
use mesh_chat.RateLimit.Verdicts.{attempts, sweeps, Call, IsOrdered}

abbrev count : ℕ → ℕ → List ℕ → ℕ
count w t ts = length (keep (is_fresh w t) ts)

count_mono : (w now t : ℕ) (ts : List ℕ) → now ≤ t → count w t ts ≤ count w now ts
count_mono w now t ts h = omega (
  arith,
  length-keep-le (is_fresh w t) (keep (is_fresh w now) ts),
  ap (λ (x : List ℕ). length x) (keep-fresh w now t ts h),
)

count_pushed : (w t now : ℕ) (ts : List ℕ) → count w t (ts ++ now ∷ []) ≤ count w t ts + 1
count_pushed w t now ts = omega (
  arith,
  ap (λ (x : List ℕ). length x) (keep-append (is_fresh w t) ts (now ∷ [])),
  length-append (keep (is_fresh w t) ts) (keep (is_fresh w t) (now ∷ [])),
  length-keep-le (is_fresh w t) (now ∷ []),
)

-- At every instant from `now` on, the accepted attempts of the window before it are within the
-- budget of the room, and those of each source within the source's.
pub record Within (w p g now : ℕ) (log : Log) : Type 0 where
  pub overall : (t : ℕ) → now ≤ t → count w t (times log) ≤ g
  pub each : (k : Text) (t : ℕ) → now ≤ t → count w t (times_from k log) ≤ p

module _ (w p g now : ℕ) (source : Text) (log : Log) (i : Within w p g now log)
    (room : count w now (times log) < g) (mine : count w now (times_from source log) < p) where
  accepted-Within : Within w p g now (log ++ (now, source) ∷ [])
  accepted-Within = record {
    overall = λ t le. omega (
      arith,
      ap (count w t) (times-append log ((now, source) ∷ [])),
      count_pushed w t now (times log),
      count_mono w now t (times log) le,
    );
    each = λ k t le. rw (times_from-pushed k source now log) (elim (Bool-cases (key_eq source k)) [
      | inl same ↦ rw same (
          omega (
            arith,
            ap (λ (x : Text). count w now (times_from x log)) (key_eq→eq source k same),
            count_pushed w t now (times_from k log),
            count_mono w now t (times_from k log) le,
          ))
      | inr other ↦ rw other (i.each k t le)
    ]);
  }

Within-later :
    (w p g before now : ℕ) (log : Log)
    → before ≤ now
    → Within w p g before log
    → Within w p g now log
Within-later w p g before now log h i = record {
  overall = λ t le. i.overall t (omega arith);
  each = λ k t le. i.each k t (omega arith);
}

-- The log of the attempts that `allow` accepts along a history.
unfoldable pub accepted : RateLimiter → Log → List (ℕ × Call) → Log
accepted rl log [] = log
accepted rl log ((now, attempts source) ∷ cs) =
    accepted (allow now source rl).1 (log_after (allow now source rl).0 now source log) cs
accepted rl log ((now, sweeps) ∷ cs) = accepted (sweep now rl) log cs

-- The last instant of a history that starts at `before`.
abbrev pub last_instant : ℕ → List (ℕ × Call) → ℕ
last_instant before [] = before
last_instant before ((now, c) ∷ cs) = last_instant now cs

module _ (before now : ℕ) (source : Text) (log : Log) (rl : RateLimiter) (h : before ≤ now)
    (i : Tracks before log rl) (b : Within rl.window rl.per_source rl.global before log) where
  allow-Within :
      Within rl.window rl.per_source rl.global now
        (log_after (allow now source rl).0 now source log)
      × Tracks now (log_after (allow now source rl).0 now source log) (allow now source rl).1
  allow-Within = elim (allow_cases now source rl) [
    | inl r ↦ (
      subst (λ x. Within rl.window rl.per_source rl.global now (log_after x now source log))
          (sym (ap (λ (x : Bool × RateLimiter). x.0) r))
          (Within-later rl.window rl.per_source rl.global before now log h b),
      subst (λ x. Tracks now (log_after x now source log) (allow now source rl).1)
          (sym (ap (λ (x : Bool × RateLimiter). x.0) r))
          (refused-Tracks before now source log rl h i r),
    )
    | inr r ↦ (
      subst (λ x. Within rl.window rl.per_source rl.global now (log_after x now source log))
          (sym (ap (λ (x : Bool × RateLimiter). x.0) (r.0)))
          (accepted-Within rl.window rl.per_source rl.global now source log
            (Within-later rl.window rl.per_source rl.global before now log h b)
            (omega (arith, r.2, ap (λ (x : List ℕ). length x) (i.recent now h)))
            (omega (arith, r.1, ap (λ (x : List ℕ). length x) (i.each source now h)))),
      subst (λ x. Tracks now (log_after x now source log) (allow now source rl).1)
          (sym (ap (λ (x : Bool × RateLimiter). x.0) (r.0)))
          (accepted-Tracks before now source log rl h i r),
    )
  ]

allow_params :
    (now : ℕ) (source : Text) (rl : RateLimiter)
    → ((allow now source rl).1.window ≡ rl.window)
      × ((allow now source rl).1.per_source ≡ rl.per_source)
      × ((allow now source rl).1.global ≡ rl.global)
unfolding allow
allow_params now source rl = ground arith

Within-same :
    (w w' p p' g g' now : ℕ) (log : Log)
    → w ≡ w'
    → p ≡ p'
    → g ≡ g'
    → Within w p g now log
    → Within w' p' g' now log
Within-same w w' p p' g g' now log ew ep eg b = rw (← ew, ← ep, ← eg) b

accepted-Within_from :
    (w p g before : ℕ) (log : Log) (rl : RateLimiter) (cs : List (ℕ × Call))
    → rl.window ≡ w
    → rl.per_source ≡ p
    → rl.global ≡ g
    → Tracks before log rl
    → Within w p g before log
    → IsOrdered before cs
    → Within w p g (last_instant before cs) (accepted rl log cs)
unfolding accepted
accepted-Within_from w p g before log rl [] ew ep eg i b o = b
accepted-Within_from w p g before log rl ((now, attempts source) ∷ cs) ew ep eg i b o =
    let (b', i') = allow-Within before now source log rl o.0 i (
      Within-same w rl.window p rl.per_source g rl.global before log (sym ew) (sym ep) (sym eg)
        b) in
    let (pw, pp, pg) = allow_params now source rl in
    accepted-Within_from w p g now _ (allow now source rl).1 cs (pw ∙ ew) (pp ∙ ep) (pg ∙ eg) i'
      (Within-same rl.window w rl.per_source p rl.global g now _ ew ep eg b') o.1
accepted-Within_from w p g before log rl ((now, sweeps) ∷ cs) ew ep eg i b o =
    accepted-Within_from w p g now log (sweep now rl) cs (unfold sweep in ew) (unfold sweep in ep)
      (unfold sweep in eg) (sweep-Tracks before now log rl o.0 i)
      (Within-later w p g before now log o.0 b) o.1

-- After any history in the order of time, each window that ends then or later holds at most
-- `global` accepted attempts, and at most `per_source` from any one source.
pub accepted-Within-new :
    (per_source global window : ℕ) (cs : List (ℕ × Call))
    → IsOrdered 0 cs
    → Within window per_source global
        (last_instant 0 cs)
        (accepted (new per_source global window) [] cs)
unfolding new
accepted-Within-new per_source global window cs o =
    accepted-Within_from window per_source global 0 [] (new per_source global window) cs refl refl
      refl (record { unique = tt; recent = λ t h. refl; each = λ k t h. rw lookup-nil })
      (record { overall = λ t h. omega arith; each = λ k t h. omega arith }) o
