-- ===== src/Stages.antt =====
-- The stages "role-lifecycle", "demand-forecast" and "audit" of composition_stages/, on the tables
-- that they read and write. `now` is the time of the transaction; ids are the primary key of `roles`, so that
-- an UPDATE of an id changes one row. Numeric columns hold the float that is written.
pub mod Lifecycle
pub mod Demand
pub mod Inventory
mod Samples
use free_model_orchestrator.Base.{
  ℕ, suc, ◌+◌, String, Bool, true, false, not, Option, none, some, List, [], ◌∷◌, ◌++◌, ◌&&◌, ◌||◌,
  ◌==◌, ◌<>◌, contains, string_eq, if◌then◌else◌, leb,
}
use free_model_orchestrator.Base.Dict.{Dict, lookup, insert, get_or}
use free_model_orchestrator.Base.Float.{Float}
use free_model_orchestrator.Forecast.{
  ReservedDemand, ColdStartDemand, cold_start_demand, apply_historical_reserve, protected_demand,
}
use free_model_orchestrator.Json.{field, end, str}
use free_model_orchestrator.Pipeline.{StageResult}
use free_model_orchestrator.Text.{str_le}

-- `_effect_result`
unfoldable pub effect_result : String → Bool → StageResult
effect_result stage_name changed = record {
  status = "success";
  idempotency_key = some (stage_name <> ":production");
  changed = changed;
  reason = none;
  details =
      field "adapter" (str stage_name)
        (field "effect" (str (if changed then "repository_write" else "idempotent_no_change")) end);
}

-- `_audit_stage`
unfoldable pub audit_stage : StageResult
unfolding effect_result
audit_stage = effect_result "audit" false

pub record RoleRecord : Type 0 where
  pub id : String
  pub role_lifecycle_status : String
  pub missing_since : Option ℕ

-- The status and the time of a row after the UPDATE that the stage runs for it, if any.
abbrev pub is_retiring : String → Bool
is_retiring status = contains ("retiring" ∷ "retired_pending_delete" ∷ []) status

abbrev pub is_live : String → Bool
is_live status = contains ("active" ∷ "bootstrap_pending" ∷ []) status

-- `COALESCE(missing_since, now())`
abbrev coalesce : Option ℕ → ℕ → Option ℕ
coalesce none now = some now
coalesce (some since) now = some since

-- The body of the loop: the row and whether it counts as changed.
unfoldable pub update_role : List String → ℕ → RoleRecord → RoleRecord × Bool
update_role desired now role =
    if contains desired role.id && is_retiring role.role_lifecycle_status
    then (record role { role_lifecycle_status = "active"; missing_since = none }, true)
    else if not (contains desired role.id) && is_live role.role_lifecycle_status
    then (
      record role {
        role_lifecycle_status = "retiring";
        missing_since = coalesce role.missing_since now;
      },
      true,
    )
    else (role, false)

unfoldable pub update_roles : List String → ℕ → List RoleRecord → List RoleRecord × ℕ
unfolding update_role
update_roles desired now [] = ([], 0)
update_roles desired now (role ∷ roles) =
    let (role', touched) = update_role desired now role in
    let (roles', changed) = update_roles desired now roles in
    (role' ∷ roles', if touched then changed + 1 else changed)

-- `ORDER BY id`
unfoldable pub insert_by_id : RoleRecord → List RoleRecord → List RoleRecord
insert_by_id role [] = role ∷ []
insert_by_id role (r ∷ rs) =
    let rest = insert_by_id role rs in if str_le role.id r.id then role ∷ r ∷ rs else r ∷ rest

unfoldable pub order_by_id : List RoleRecord → List RoleRecord
unfolding insert_by_id
order_by_id [] = []
order_by_id (role ∷ roles) = insert_by_id role (order_by_id roles)

abbrev pub any_role : List RoleRecord → Bool
any_role [] = false
any_role (_ ∷ _) = true

module _ (F : Float) where
  open F use {Number, of_nat, add, div}

  -- `calls_per_run` is `none` where it is NULL.
  pub record ConsumerRecord : Type 0 where
    pub role_id : String
    pub calls_per_run : Option Number
    pub active : Bool

  pub record ForecastRecord : Type 0 where
    pub role_id : String
    pub expected_requests : Number
    pub protected_requests : Number
    pub input_state_hash : String
    pub demand_source : String
    pub base_historical_requests : Number
    pub historical_reserve_multiplier : Option Number
    pub bootstrap_weight : Number
    pub history_weight : Number
    pub representative_sample_count : ℕ
    pub representative_history_ready : Bool

  pub record StageTables : Type 0 where
    pub roles : List RoleRecord
    pub role_consumers : List ConsumerRecord
    pub role_demand_forecasts : List ForecastRecord

  -- `SELECT DISTINCT role_id FROM role_consumers WHERE active = true`
  unfoldable pub desired_roles : List ConsumerRecord → List String
  desired_roles [] = []
  desired_roles (c ∷ cs) =
      let rest = desired_roles cs in
      if c.active && not (contains rest c.role_id) then c.role_id ∷ rest else rest

  -- `_role_lifecycle_stage`
  unfoldable pub role_lifecycle_stage : ℕ → StageTables → StageResult × StageTables
  unfolding desired_roles update_roles effect_result
  role_lifecycle_stage now t =
      let (roles, changed) = update_roles (desired_roles t.role_consumers) now t.roles in
      (effect_result "role-lifecycle" (leb 1 changed), record t { roles = roles })

  -- SUM passes over NULL; a sum of NULLs counts as 0.
  abbrev add_calls : Option Number → Number → Number
  add_calls none total = total
  add_calls (some calls) total = add total calls

  -- `consumer_demand`, grouped by role
  unfoldable pub consumer_demand : List ConsumerRecord → Dict String Number
  unfolding lookup insert
  consumer_demand [] = []
  consumer_demand (c ∷ cs) =
      let rest = consumer_demand cs in
      if c.active
      then insert c.role_id (add_calls c.calls_per_run (get_or c.role_id (of_nat 0) rest)) rest
      else rest

  abbrev has_multiplier : Option Number → Bool
  has_multiplier none = false
  has_multiplier (some _) = true

  -- Whether the query for `previous` finds a row.
  unfoldable pub has_previous : String → List ForecastRecord → Bool
  has_previous role_id [] = false
  has_previous role_id (row ∷ rows) =
      row.role_id == role_id && has_multiplier row.historical_reserve_multiplier
      || has_previous role_id rows

  -- `hash_parts` on the role, the printed number and the source is a parameter.
  module _ (hash_parts : String → Number → String → String) where
    abbrev reserve_multiplier : Number
    reserve_multiplier = div (of_nat 12) (of_nat 10)

    abbrev pub cold_start_of : Dict String Number → RoleRecord → ColdStartDemand F
    cold_start_of demand role =
        cold_start_demand F (lookup role.id demand)
          (if role.role_lifecycle_status == "bootstrap_pending" then some (of_nat 1) else none)
          (of_nat 1) (of_nat 1)

    abbrev row_with : String → Bool → ColdStartDemand F → ReservedDemand F → ForecastRecord
    row_with role_id is_consumed cold_start reserve = record {
      role_id = role_id;
      expected_requests = reserve.reserved;
      protected_requests = protected_demand F reserve.reserved reserve.reserved (of_nat 1);
      input_state_hash = hash_parts role_id reserve.reserved cold_start.source;
      demand_source = cold_start.source;
      base_historical_requests = reserve.base;
      historical_reserve_multiplier = some reserve.multiplier;
      bootstrap_weight = if cold_start.source == "bootstrap" then of_nat 1 else of_nat 0;
      history_weight = if cold_start.source == "bootstrap" then of_nat 0 else of_nat 1;
      representative_sample_count = if is_consumed then 1 else 0;
      representative_history_ready = is_consumed;
    }

    -- The row that the body of the loop inserts.
    unfoldable pub forecast_role :
        Dict String Number → (previous : Bool) → RoleRecord → ForecastRecord
    unfolding cold_start_demand apply_historical_reserve protected_demand lookup
    forecast_role demand previous role =
        let cold_start = cold_start_of demand role in
        row_with role.id (elim (lookup role.id demand) [ none ↦ false | some _ ↦ true ]) cold_start
          (apply_historical_reserve F cold_start.value reserve_multiplier previous)

    -- The loop; each turn reads the table that the turns before it have left.
    unfoldable pub forecast_roles :
        List RoleRecord → Dict String Number → List ForecastRecord → List ForecastRecord
    unfolding forecast_role has_previous
    forecast_roles [] demand forecasts = forecasts
    forecast_roles (role ∷ roles) demand forecasts =
        forecast_roles roles demand
          (forecasts ++ forecast_role demand (has_previous role.id forecasts) role ∷ [])

    -- `_demand_forecast_stage`
    unfoldable pub demand_forecast_stage : StageTables → StageResult × StageTables
    unfolding order_by_id consumer_demand forecast_roles effect_result
    demand_forecast_stage t = (
      effect_result "demand-forecast" (any_role t.roles),
      record t {
        role_demand_forecasts =
            forecast_roles (order_by_id t.roles) (consumer_demand t.role_consumers)
              t.role_demand_forecasts;
      },
    )
