-- ===== src/Context/Samples.antt =====
-- A window of three sources, one of them unknown.
use free_model_orchestrator.Base.{◌≡◌, refl, ◌↔◌, true, false, none, some, [], ◌∷◌, arith}
use free_model_orchestrator.Context.{effective_context_window, context_eligible}
use free_model_orchestrator.Context.Window.{AllAtLeast, context_eligible_iff}

least : effective_context_window (some 8000 ∷ none ∷ some 4000 ∷ []) ≡ some 4000
unfolding effective_context_window
least = refl

context_eligible_iff_example :
    ((context_eligible
        (effective_context_window (some 8000 ∷ none ∷ some 4000 ∷ []))
        4000
        false).eligible
      ≡ true)
    ↔ AllAtLeast 4000 (some 8000 ∷ none ∷ some 4000 ∷ [])
context_eligible_iff_example =
    context_eligible_iff (some 8000 ∷ none ∷ some 4000 ∷ []) 4000 4000 false (omega arith) least
