-- ===== src/Stages/Samples.antt =====
-- Two runs of each stage on a small set of tables.
use free_model_orchestrator.Base.{
  ℕ, ◌≡◌, refl, String, true, false, none, some, [], ◌∷◌, ◌++◌, string_eq,
}
use free_model_orchestrator.Base.Float.Whole.{whole}
use free_model_orchestrator.Stages.{
  RoleRecord, StageTables, role_lifecycle_stage, has_previous, cold_start_of,
}
use free_model_orchestrator.Stages.Lifecycle.{
  HasActive, AreSettled, role_lifecycle_stage-AreSettled,
}
use free_model_orchestrator.Stages.Demand.{forecast_from, forecast_from-reserve_once}

abbrev chat : RoleRecord
chat = record { id = "chat"; role_lifecycle_status = "retiring"; missing_since = some 3 }

abbrev old : RoleRecord
old = record { id = "old"; role_lifecycle_status = "active"; missing_since = none }

abbrev tables : StageTables whole
tables = record {
  roles = old ∷ chat ∷ [];
  role_consumers = record { role_id = "chat"; calls_per_run = some 10; active = true } ∷ [];
  role_demand_forecasts = [];
}

abbrev hash : String → ℕ → String → String
hash _ _ _ = "h"

settles :
    (role_lifecycle_stage whole 9 tables).1.roles
    ≡ (record old { role_lifecycle_status = "retiring"; missing_since = some 9 })
      ∷ (record chat { role_lifecycle_status = "active"; missing_since = none })
      ∷ []
unfolding role_lifecycle_stage string_eq
settles = refl

role_lifecycle_stage-AreSettled_example :
    AreSettled
      (HasActive whole tables.role_consumers)
      tables.roles
      (role_lifecycle_stage whole 9 tables).1.roles
role_lifecycle_stage-AreSettled_example = role_lifecycle_stage-AreSettled whole 9 tables

never_forecast : has_previous whole "chat" [] ≡ false
unfolding has_previous
never_forecast = refl

forecast_from-reserve_once_example :
    let first = forecast_from whole hash (("chat", 10) ∷ []) [] chat in
    let second = forecast_from whole hash (("chat", 10) ∷ []) ([] ++ first ∷ []) chat in
    let value = (cold_start_of whole hash (("chat", 10) ∷ []) chat).value in
    let multiplier = whole.div 12 10 in
    (first.expected_requests ≡ whole.mul value multiplier)
    × (first.base_historical_requests ≡ value)
    × (second.expected_requests ≡ value)
    × (second.base_historical_requests ≡ whole.div value multiplier)
forecast_from-reserve_once_example =
    forecast_from-reserve_once whole hash (("chat", 10) ∷ []) [] chat never_forecast
