-- ===== src/RateLimit/Runs.antt =====
-- A history of attempts, with a sweep: the fourth of one source is refused and another source's is not.
use mesh_chat.Prelude.{ℕ, ◌≡◌, refl, List, [], ◌∷◌, true, false, arith, key_eq}
use mesh_chat.RateLimit.{new}
use mesh_chat.RateLimit.Verdicts.{
  attempts, sweeps, Call, IsOrdered, verdicts, reference, verdicts-new,
}
use mesh_chat.RateLimit.Budget.{Within, accepted, last_instant, accepted-Within-new}

abbrev calls : List (ℕ × Call)
calls =
    (1, attempts (65 ∷ []))
    ∷ (2, attempts (65 ∷ []))
    ∷ (2, sweeps)
    ∷ (3, attempts (65 ∷ []))
    ∷ (4, attempts (65 ∷ []))
    ∷ (5, attempts (66 ∷ []))
    ∷ []

calls-IsOrdered : IsOrdered 0 calls
calls-IsOrdered =
    (omega arith, (omega arith, (omega arith, (omega arith, (omega arith, (omega arith, tt))))))

verdicts-new_example : verdicts (new 3 9 100) calls ≡ reference 100 3 9 [] calls
verdicts-new_example = verdicts-new 3 9 100 calls calls-IsOrdered

accepted-Within-new_example :
    Within 100 3 9 (last_instant 0 calls) (accepted (new 3 9 100) [] calls)
accepted-Within-new_example = accepted-Within-new 3 9 100 calls calls-IsOrdered

fourth_refused : reference 100 3 9 [] calls ≡ true ∷ true ∷ true ∷ false ∷ true ∷ []
unfolding reference key_eq
fourth_refused = refl
