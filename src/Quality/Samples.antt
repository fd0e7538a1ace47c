-- ===== src/Quality/Samples.antt =====
-- The gate over whole numbers.
use free_model_orchestrator.Base.{
  ℕ, ◌≡◌, refl, ◌↔◌, String, Bool, true, false, Option, none, some, List, [], ◌∷◌, ◌+◌, ◌-◌, ◌*◌,
  ◌/◌, leb, string_eq,
}
use free_model_orchestrator.Base.Dict.{lookup}
use free_model_orchestrator.Quality.{evaluate_quality_gate}
use free_model_orchestrator.Quality.Gate.{IsWithin, evaluate_quality_gate-passed}
use free_model_orchestrator.Base.Float.Whole.{whole}

metrics : free_model_orchestrator.Base.Dict.Dict String ℕ
metrics = ("coding_index", 60) ∷ []

evaluate_quality_gate-passed_example :
    ((evaluate_quality_gate whole metrics "coding_index" 50 (some 80) "v1" "v1" false false).status
      ≡ "passed")
    ↔ ((◌≡◌ {A = String} "v1" "v1")
        × (m : ℕ) × (lookup "coding_index" metrics ≡ some m)
        × IsWithin whole metrics "coding_index" 50 (some 80) "v1" "v1" false false m)
evaluate_quality_gate-passed_example =
    evaluate_quality_gate-passed whole metrics "coding_index" 50 (some 80) "v1" "v1" false false
