-- ===== src/Forecast/Samples.antt =====
-- A band widened to reach the demand, and roles that share models in a ring.
use free_model_orchestrator.Base.{ℕ, ◌≡◌, refl, true, false, some, String, string_eq, List, [], ◌∷◌}
use free_model_orchestrator.Base.Float.Whole.{whole, whole-IsOrdered}
use free_model_orchestrator.Effects.{return}
use free_model_orchestrator.Forecast.Cycles.{reject_cycles, cycle_found}
use free_model_orchestrator.Forecast.Cycles.Rejected.{Verdict, reject_cycles-Verdict}
use free_model_orchestrator.Forecast.{
  Candidate, Rated, QualityBand, quality_band_for_demand, rate_all, confirmed_of,
}
use free_model_orchestrator.Forecast.Bands.{IsBandOf, quality_band_for_demand-IsBandOf}

abbrev candidate : (quality capacity : ℕ) → Candidate whole
candidate quality capacity = record {
  confirmed_free = true;
  quality = some quality;
  capacity = some capacity;
}

abbrev candidates : List (Candidate whole)
candidates = candidate 60 10 ∷ candidate 45 20 ∷ candidate 30 90 ∷ []

abbrev band : QualityBand whole
band = record { minimum = 45; maximum = 60; degraded = false }

widened : quality_band_for_demand whole 50 candidates 25 40 ≡ return band
unfolding quality_band_for_demand
widened = refl

quality_band_for_demand-IsBandOf_example :
    (confirmed : List (Rated whole)) × (rate_all whole (confirmed_of whole 40 candidates)
      ≡ return confirmed)
    × IsBandOf whole whole-IsOrdered 50 candidates 25 40 confirmed band
quality_band_for_demand-IsBandOf_example =
    quality_band_for_demand-IsBandOf whole whole-IsOrdered 50 candidates 25 40 band widened

abbrev two_roles_in_a_ring : List (String × String)
two_roles_in_a_ring = ("planner", "coder") ∷ ("coder", "planner") ∷ ("coder", "critic") ∷ []

ring_found : reject_cycles two_roles_in_a_ring ≡ some cycle_found
unfolding reject_cycles string_eq
ring_found = refl

reject_cycles-Verdict_example : Verdict two_roles_in_a_ring (reject_cycles two_roles_in_a_ring)
reject_cycles-Verdict_example = reject_cycles-Verdict two_roles_in_a_ring
