-- ===== src/Stages/Demand.antt =====
-- The forecasts that the stage "demand-forecast" adds, and the reserve in them.
use free_model_orchestrator.Base.{
  ◌≡◌, refl, ◌≢◌, String, Bool, true, false, List, [], ◌∷◌, ◌++◌, All, string_eq, arith,
}
use free_model_orchestrator.Base.Dict.{Dict}
use free_model_orchestrator.Base.Float.{Float}
use free_model_orchestrator.Stages.{
  RoleRecord, ForecastRecord, has_previous, cold_start_of, forecast_role,
}

-- The ids of the rows are distinct.
abbrev pub AreDistinct : List RoleRecord → Type 0
AreDistinct [] = Unit
AreDistinct (role ∷ roles) = All (λ r. r.id ≢ role.id) roles × AreDistinct roles

module _ (F : Float) (hash_parts : String → F.Number → String → String) where
  -- The forecast of a role by the rows from before the stage.
  abbrev pub forecast_from :
      Dict String F.Number → List (ForecastRecord F) → RoleRecord → ForecastRecord F
  forecast_from demand rows role =
      forecast_role F hash_parts demand (has_previous F role.id rows) role

  has_previous-own :
      (rows : List (ForecastRecord F)) (demand : Dict String F.Number) (previous : Bool)
      (role : RoleRecord)
      → has_previous F role.id (rows ++ forecast_role F hash_parts demand previous role ∷ []) ≡ true
  unfolding has_previous forecast_role
  has_previous-own [] demand previous role = ground arith
  has_previous-own (row ∷ rows) demand previous role =
      rw (has_previous-own rows demand previous role) (ground arith)

  -- The reserve of 20% is added in a role's first forecast only: the next one, for the same demand,
  -- expects the bare value and takes a sixth off its base.
  pub forecast_from-reserve_once :
      (demand : Dict String F.Number) (rows : List (ForecastRecord F)) (role : RoleRecord)
      → has_previous F role.id rows ≡ false
      → let value = (cold_start_of F hash_parts demand role).value in
        let multiplier = F.div (F.of_nat 12) (F.of_nat 10) in
        let first = forecast_from demand rows role in
        let second = forecast_from demand (rows ++ first ∷ []) role in
        (first.expected_requests ≡ F.mul value multiplier)
        × (first.base_historical_requests ≡ value)
        × (second.expected_requests ≡ value)
        × (second.base_historical_requests ≡ F.div value multiplier)
  unfolding forecast_role
  forecast_from-reserve_once demand rows role h =
      rw (has_previous-own rows demand (has_previous F role.id rows) role)
        (rw h (refl, refl, refl, refl))
