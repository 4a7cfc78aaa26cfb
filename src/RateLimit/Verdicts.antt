-- ===== src/RateLimit/Verdicts.antt =====
-- core/src/ratelimit.rs: the limiter decides as if it kept the whole log of accepted attempts.
use mesh_chat.Prelude.{
  ℕ, ◌≤◌, ◌≡◌, refl, sym, ◌∙◌, ap, subst, inl, inr, Text, List, [], ◌∷◌, ◌++◌, Bool, true, false,
}
use mesh_chat.Prelude.Assoc.{lookup-nil}
use mesh_chat.RateLimit.{RateLimiter, new, allow, sweep}
use mesh_chat.RateLimit.Window.{
  allow-verdict, refused-Tracks, accepted-Tracks, Log, Tracks, allow_cases, log_after, sweep-Tracks,
  within_budget,
}

-- What happens to a limiter: an attempt from a source, or a sweep, each at an instant.
pub data Call : Type 0 where
  attempts : Text → Call
  sweeps : Call

-- The verdicts on the attempts of a history.
unfoldable pub verdicts : RateLimiter → List (ℕ × Call) → List Bool
verdicts rl [] = []
verdicts rl ((now, attempts source) ∷ cs) =
    (allow now source rl).0 ∷ verdicts (allow now source rl).1 cs
verdicts rl ((now, sweeps) ∷ cs) = verdicts (sweep now rl) cs

unfoldable pub reference : ℕ → ℕ → ℕ → Log → List (ℕ × Call) → List Bool
reference w p g log [] = []
reference w p g log ((now, attempts source) ∷ cs) =
    within_budget w p g log now source
    ∷ reference w p g (log_after (within_budget w p g log now source) now source log) cs
reference w p g log ((now, sweeps) ∷ cs) = reference w p g log cs

-- Instants do not fall along a history that starts at `before`.
abbrev pub IsOrdered : ℕ → List (ℕ × Call) → Type 0
IsOrdered before [] = Unit
IsOrdered before ((now, c) ∷ cs) = (before ≤ now) × IsOrdered now cs

pub verdicts-reference :
    (before : ℕ) (log : Log) (rl : RateLimiter) (cs : List (ℕ × Call))
    → Tracks before log rl
    → IsOrdered before cs
    → verdicts rl cs ≡ reference rl.window rl.per_source rl.global log cs
unfolding verdicts reference
verdicts-reference before log rl [] i o = refl
verdicts-reference before log rl ((now, attempts source) ∷ cs) i o =
    let v = allow-verdict before now source log rl o.0 i in
    elim (allow_cases now source rl) [
      | inl r ↦
          let b : within_budget rl.window rl.per_source rl.global log now source ≡ false =
            sym v ∙ ap (λ (x : Bool × RateLimiter). x.0) r in
          rw (b, r)
            (ap (◌∷◌ false) (
              verdicts-reference now log _ cs
                (subst (Tracks now log) (ap (λ (x : Bool × RateLimiter). x.1) r)
                  (refused-Tracks before now source log rl o.0 i r))
                o.1))
      | inr r ↦
          let b : within_budget rl.window rl.per_source rl.global log now source ≡ true =
            sym v ∙ ap (λ (x : Bool × RateLimiter). x.0) r.0 in
          rw (b, r.0)
            (ap (◌∷◌ true) (
              verdicts-reference now (log ++ (now, source) ∷ []) _ cs
                (subst (Tracks now (log ++ (now, source) ∷ []))
                  (ap (λ (x : Bool × RateLimiter). x.1) (r.0))
                  (accepted-Tracks before now source log rl o.0 i r))
                o.1))
    ]
verdicts-reference before log rl ((now, sweeps) ∷ cs) i o =
    verdicts-reference now log (sweep now rl) cs (sweep-Tracks before now log rl o.0 i) o.1
    ∙ unfold sweep in refl

-- Over any history in the order of time, with sweeps anywhere, the limiter accepts exactly those
-- attempts for which the accepted ones of the window before leave room, in the source's budget and
-- in the room's.
pub verdicts-new :
    (per_source global window : ℕ) (cs : List (ℕ × Call))
    → IsOrdered 0 cs
    → verdicts (new per_source global window) cs ≡ reference window per_source global [] cs
unfolding new
verdicts-new per_source global window cs o =
    verdicts-reference 0 [] (new per_source global window) cs
      (record { unique = tt; recent = λ t h. refl; each = λ k t h. rw lookup-nil }) o
