-- ===== src/RateLimit.antt =====
-- core/src/ratelimit.rs: join-attempt throttling. The clock's reading is an argument of each call.
pub mod Verdicts
pub mod Window
pub mod Budget
mod Runs
use mesh_chat.Prelude.{
  ℕ, ◌-◌, Text, Option, none, some, List, [], ◌∷◌, ◌++◌, length, keep, any, ltb, leb, ◌||◌, Bool,
  true, false, if◌then◌else◌,
}
use mesh_chat.Prelude.Assoc.{Assoc, lookup, insert}

pub record RateLimiter : Type 0 where
  pub window : ℕ
  pub per_source : ℕ
  pub global : ℕ
  pub hits : Assoc (List ℕ)
  pub all : List ℕ

unfoldable pub new : ℕ → ℕ → ℕ → RateLimiter
new per_source global window = record {
  window = window;
  per_source = per_source;
  global = global;
  hits = [];
  all = [];
}

-- Times are milliseconds.
unfoldable pub default_policy : RateLimiter
unfolding new
default_policy = new 5 30 60_000

-- `now.duration_since(t) < window`; the difference stops at 0 for an instant in the future.
abbrev pub is_fresh : ℕ → ℕ → ℕ → Bool
is_fresh window now t = ltb (now - t) window

-- `hits.entry(source).or_default()`
abbrev pub or_default : Option (List ℕ) → List ℕ
or_default none = []
or_default (some ts) = ts

abbrev pub entry : Text → Assoc (List ℕ) → List ℕ
entry source hits = or_default (lookup source hits)

-- Records an attempt. `false` means "refuse this one".
unfoldable pub allow : ℕ → Text → RateLimiter → Bool × RateLimiter
allow now source rl =
    let recent = keep (is_fresh rl.window now) rl.all in
    let mine = keep (is_fresh rl.window now) (entry source rl.hits) in
    if leb rl.per_source (length mine) || leb rl.global (length recent)
    then (false, record rl { hits = insert source mine rl.hits; all = recent })
    else (
      true,
      record rl { hits = insert source (mine ++ now ∷ []) rl.hits; all = recent ++ now ∷ [] },
    )

-- Drops bookkeeping for sources with nothing left in the window.
unfoldable pub sweep : ℕ → RateLimiter → RateLimiter
sweep now rl = record rl { hits = keep (λ h. any (is_fresh rl.window now) h.1) rl.hits }
