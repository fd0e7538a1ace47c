-- ===== src/Composition.antt =====
-- composition.py: the stages "compose", "publish" and "usage-feedback". `Env` is what these stages
-- work on beside sync_runs: the outside world, the tables, and the entries of the context's config
-- that they set and read.
pub mod Publishing
pub mod Commands
pub mod Selection
mod Samples
use free_model_orchestrator.Base.{
  ℕ, ◌+◌, String, Bool, true, false, Option, none, some, List, [], ◌∷◌, ◌++◌, ◌&&◌, ◌==◌, string_eq,
  if◌then◌else◌, map, ◌<>◌,
}
use free_model_orchestrator.Base.Dict.{Dict, lookup, insert}
use free_model_orchestrator.Base.Float.{Float}
use free_model_orchestrator.Effects.{
  Outcome, return, raise, Exception, ExceptionKind, value_error, key_error, Action, ◌>>=?◌,
}
use free_model_orchestrator.Json.{
  Json, Items, nil, cons, Fields, end, field, str, int, pos, arr, obj, truth, get,
}
use free_model_orchestrator.Omniroute.{Outside, OmniRouteClient}
use free_model_orchestrator.Pipeline.{State, Stage, StageResult, no_key}
use free_model_orchestrator.Publisher.{RoleRow, Generation, Pool, compose_pool_generation}
use free_model_orchestrator.Publisher.Publish.{
  Tables, PublishState, Wire, PoolPublishResult, publish_pool_generation, usage_feedback,
}
use free_model_orchestrator.Stages.{ConsumerRecord, ForecastRecord}
use free_model_orchestrator.Text.{str_le}

module _ (F : Float) where
  pub record Config : Type 0 where
    pub generation : Option String
    pub pool_generation : Option (Generation F)
    pub feedback : Option Json

  pub record Env (W : Type 0) : Type 0 where
    pub outside : W
    pub tables : Tables F
    pub roles : List (RoleRow F)
    pub role_consumers : List (ConsumerRecord F)
    pub role_demand_forecasts : List (ForecastRecord F)
    pub config : Config

  unfoldable pub count_active : String → List (ConsumerRecord F) → ℕ
  count_active role_id [] = 0
  count_active role_id (c ∷ cs) =
      let rest = count_active role_id cs in
      if c.active && c.role_id == role_id then rest + 1 else rest

  unfoldable pub insert_row : RoleRow F → List (RoleRow F) → List (RoleRow F)
  insert_row row [] = row ∷ []
  insert_row row (r ∷ rs) =
      let rest = insert_row row rs in if str_le row.id r.id then row ∷ r ∷ rs else r ∷ rest

  -- The first query of `_compose_pool_generation_from_repository`; the count of a stored row is
  -- the join's.
  unfoldable pub role_rows : List (ConsumerRecord F) → List (RoleRow F) → List (RoleRow F)
  unfolding count_active insert_row
  role_rows consumers [] = []
  role_rows consumers (row ∷ rows) =
      insert_row (record row { consumer_count = count_active row.id consumers })
        (role_rows consumers rows)

  -- The second query: the forecasts are in the order of their creation, and the last one counts.
  unfoldable pub latest_demand :
      Dict String F.Number → List (ForecastRecord F) → Dict String F.Number
  unfolding insert
  latest_demand demand [] = demand
  latest_demand demand (row ∷ rows) =
      latest_demand (insert row.role_id row.protected_requests demand) rows

  abbrev count_pools : List (Pool F) → ℕ
  count_pools [] = 0
  count_pools (_ ∷ pools) = count_pools pools + 1

abbrev effect : String → Fields → Fields
effect name fields = field "effect" (str name) fields

abbrev pub failed_result : (status reason : String) → StageResult
failed_result status reason = record {
  status = status;
  idempotency_key = none;
  changed = false;
  reason = some reason;
  details = effect "idempotent_no_change" end;
}

abbrev pub done_result : Option String → Bool → Fields → StageResult
done_result key changed details = record {
  status = "success";
  idempotency_key = key;
  changed = changed;
  reason = none;
  details = details;
}

abbrev count_items : Items → ℕ
count_items nil = 0
count_items (cons _ items) = count_items items + 1

-- `len(feedback.get("pools", []))` of a dict whose entry is a list
abbrev count_feedback : Json → ℕ
count_feedback (obj fields) = elim (get "pools" fields) [ some value ↦ items_of value | none ↦ 0 ]
  where
    items_of : Json → ℕ
    items_of (arr items) = count_items items
    items_of _ = 0
count_feedback _ = 0

module _ {F : Float} {W : Type 0} where
  -- `_compose_pool_generation_from_repository`; `timestamp` is the time that the call reads.
  unfoldable pub compose_from_repository : (timestamp : String) → Env F W → Outcome (Generation F)
  unfolding role_rows latest_demand
  compose_from_repository timestamp env =
      compose_pool_generation F (role_rows F env.role_consumers env.roles)
        (latest_demand F [] env.role_demand_forecasts) env.config.generation none timestamp

  abbrev composed : Env F W → Outcome (Generation F) → Outcome StageResult × Env F W
  composed env (raise e) = elim e.kind [
    | value_error ↦ (return (failed_result "validation_failed" e.message), env)
    | _ ↦ (raise e, env)
  ]
  composed env (return generation) = (
    return (
        done_result none true (
          effect "repository_write"
            (field "pool_count" (int (pos (count_pools F generation.pools))) end))),
    record env { config = record env.config { pool_generation = some generation } },
  )

  -- `_compose_pool_stage`
  unfoldable pub compose_pool_stage : (timestamp : W → String) → Action (Env F W) StageResult
  unfolding compose_from_repository
  compose_pool_stage timestamp env =
      composed env (compose_from_repository (timestamp env.outside) env)

  abbrev pub publish_state : Env F W → PublishState F W
  publish_state env = record { outside = env.outside; tables = env.tables }

  abbrev pub with_published : Env F W → PublishState F W → Env F W
  with_published env s = record env { outside = s.outside; tables = s.tables }

  -- The handler of `_publish_pool_stage` and its result.
  abbrev pub published :
      Env F W → Outcome (PoolPublishResult F) × PublishState F W → Outcome StageResult × Env F W
  published env (raise e, s) = (
    return (failed_result "external_dependency_failed" ("pool_publish:" <> e.message)),
    with_published env s,
  )
  published env (return result, s) = (
    return (
        done_result (some result.payload_hash) true (
          effect "omniroute_call" (
            field "payload_hash" (str result.payload_hash)
              (field "status" (str result.status) end)))),
    with_published env s,
  )

  -- A stage of the pipeline from its work on `Env`.
  abbrev pub on_env : String → (ℕ → Action (Env F W) StageResult) → Stage (Env F W)
  on_env name work = record {
    name = name;
    run = λ run_id s. let (o, env) = work run_id s.env in (o, record s { env = env });
    key = no_key;
  }

  module _ (outside : Outside F W) (client : Option OmniRouteClient) (wire : Wire F)
      (known_apply_versions : List String) where
    abbrev pub publish_with :
        OmniRouteClient → (run_id : ℕ) → Option (Generation F) → Action (Env F W) StageResult
    publish_with c run_id none env =
        (return (failed_result "validation_failed" "pool_generation_required"), env)
    publish_with c run_id (some generation) env = published env (
        publish_pool_generation outside c wire known_apply_versions none (some run_id) generation
          (publish_state env))

    -- `_publish_pool_stage`
    unfoldable pub publish_pool_stage : ℕ → Action (Env F W) StageResult
    publish_pool_stage run_id env = elim client [
      | none ↦
          (return (failed_result "external_dependency_failed" "omniroute_client_required"), env)
      | some c ↦ publish_with c run_id env.config.pool_generation env
    ]

    abbrev fed_back : Env F W → Outcome Json × W → Outcome StageResult × Env F W
    fed_back env (raise e, w) = (
      return (failed_result "external_dependency_failed" ("usage_feedback:" <> e.message)),
      record env { outside = w },
    )
    fed_back env (return value, w) = (
      return (
          done_result none (truth value)
            (effect "omniroute_call" (field "pool_count" (int (pos (count_feedback value))) end))),
      record env { outside = w; config = record env.config { feedback = some value } },
    )

    -- `_usage_feedback_stage`, for an answer that is a dict
    unfoldable pub usage_feedback_stage : Action (Env F W) StageResult
    unfolding usage_feedback truth
    usage_feedback_stage env = elim client [
      | none ↦
          (return (failed_result "external_dependency_failed" "omniroute_client_required"), env)
      | some c ↦ fed_back env (usage_feedback outside c wire env.outside)
    ]
