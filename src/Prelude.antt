-- ===== src/Prelude.antt =====
-- The names that the other modules share: the libraries', passed on, and those of four children:
-- tests on numbers, lists measured by native numbers, texts and byte strings as keys, and maps.
mod Tests
mod Lists
mod Keys
pub mod Assoc
pub use Tests.*
pub use Lists.*
pub use Keys.*
unfoldable pub use Keys.{text, cat, key_eq}
pub use Prim.Native.Nat.{ℕ, zero, suc, ◌+◌, ◌-◌, ◌*◌, ◌/◌, ◌%◌, ◌^◌, ◌≤◌, ◌<◌, min}
pub use mathlib.Core.Path.{◌≡◌, refl, sym, ap, subst, ◌∙◌}
pub use mathlib.Core.Logic.{◌≢◌, ◌↔◌, ◌⊎◌, inl, inr}
pub use mathlib.Core.Bool.{Bool, true, false, ◌&&◌, ◌||◌, not}
pub use mathlib.Core.Option.{Option, none, some}
pub use mathlib.Core.List.{List, [], ◌∷◌, ◌++◌, map, append_assoc, append-nil}
pub use native.Mathlib.Omega.{arith}
unfoldable pub use native.Mathlib.Decide.{dec_lt, dec_le, ℕ_discrete}
