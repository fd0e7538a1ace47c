-- ===== src/Stages/Inventory.antt =====
-- The stage "hermes-inventory" of composition_stages/inventory.py, on the tables of `Catalog`. `W` is
-- the state of the language model, `now` the time of the transaction. `show` is `str` of a float and
-- `json_of` its JSON value. An adapter set by a test is not modelled.
pub mod Written
pub mod WithRoles
pub mod Seen
pub mod Recorded
mod Samples
use free_model_orchestrator.Base.{
  ℕ, max, ◌≡◌, refl, String, Bool, true, false, not, Option, none, some, List, [], ◌∷◌, ◌++◌, ◌&&◌,
  ◌||◌, ◌==◌, ◌<>◌, contains, string_eq, option_eq, if◌then◌else◌, map, length,
}
use free_model_orchestrator.Base.Dict.{Dict, lookup, insert, get_or, keys}
use free_model_orchestrator.Base.Float.{Float, fmax}
use free_model_orchestrator.Effects.{
  Outcome, return, raise, raise_value_error, Exception, ExceptionKind, value_error, inventory_error,
  Action, ◌>>=?◌,
}
use free_model_orchestrator.Json.{
  Json, Items, nil, cons, Fields, end, field, str, int, pos, arr, obj,
}
use free_model_orchestrator.Text.{sorted_set}
use free_model_orchestrator.Config.{StartupConfig}
use free_model_orchestrator.Pipeline.{StageResult}
use free_model_orchestrator.Catalog.{
  InventoryRun, InventoryRuns, start_inventory_run, complete_inventory_run, RoleSpec, RoleRow,
  upsert_role, has_role, is_role, ConsumerSpec, ConsumerRow, upsert_consumer,
}
use free_model_orchestrator.Hermes.{Consumer, Inventory, join, or_default}
use free_model_orchestrator.Hermes.Sources.{HermesFiles}
use free_model_orchestrator.Hermes.Home.{
  Sources, Completed, Fetched, build_hermes_inventory, read_hermes_home,
  read_hermes_command_sources, read_hermes_http_sources,
}
use free_model_orchestrator.Hermes.Anchors.{
  hash_parts, redact, RoleQualityAnchor, IntelligenceForecastResponse, role_quality_anchors,
}
use free_model_orchestrator.Stages.{effect_result}

abbrev pub given_text : Option String → Bool
given_text none = false
given_text (some s) = not (s == "")

-- The entry of `requirements_by_role`
pub record RoleRequirements : Type 0 where
  pub capabilities : List String
  pub minimum_context_window : ℕ

abbrev pub no_requirements : RoleRequirements
no_requirements = record { capabilities = []; minimum_context_window = 0 }

module _ (F : Float) where
  open F use {Number, of_nat, add}

  pub record InspectorForecast : Type 0 where
    pub role : String
    pub expected_calls : Number
    pub average_input_tokens : Number
    pub average_output_tokens : Number
    pub confidence : String
    pub model_choice : Option (String × String × Number)

  -- `forecast_with_quality_choice`
  unfoldable pub forecast_with_quality_choice :
      InspectorForecast → RoleQualityAnchor F → InspectorForecast
  forecast_with_quality_choice forecast anchor = record forecast {
    model_choice = some (anchor.capability_axis, anchor.tier, anchor.anchor);
  }

  pub record InventoryTables : Type 0 where
    pub roles : List (RoleRow F)
    pub role_consumers : List (ConsumerRow F)
    pub hermes_inventory_runs : InventoryRuns

  -- What the stage calls outside of the program.
  pub record Surroundings (W : Type 0) : Type 0 where
    pub files : HermesFiles F
    -- `subprocess.run(command.split())`
    pub run_process : String → Completed
    pub get_url : String → Fetched
    -- `json.loads`, and the keyword arguments that the value gives
    pub loads : String → Option Sources
    pub sha256 : String → String
    pub show : Number → String
    pub json_of : Number → Json
    -- `run_inspector` and `run_intelligence_inspector` on the runtime, where there is one
    pub inspect_demand : Option (String → Action W InspectorForecast)
    pub inspect_text : String → Action W IntelligenceForecastResponse

  module _ {W : Type 0} (around : Surroundings W) where
    -- `_read_hermes_inventory`
    unfoldable pub read_hermes_inventory : StartupConfig → Outcome (Inventory F)
    read_hermes_inventory config =
        if config.hermes_inventory_mode == "filesystem"
        then (if given_text config.hermes_home
            then read_hermes_home F around.files (or_default config.hermes_home "")
            else raise_value_error "HERMES_HOME is required")
        else if config.hermes_inventory_mode == "command"
        then (if given_text config.hermes_inventory_command
            then (read_hermes_command_sources around.loads
                  (around.run_process (or_default config.hermes_inventory_command ""))
                >>=? λ sources. build_hermes_inventory F around.files sources none)
            else raise_value_error "HERMES_INVENTORY_COMMAND is required")
        else if config.hermes_inventory_mode == "http"
        then (if given_text config.hermes_inventory_url
            then (read_hermes_http_sources around.loads
                  (around.get_url (or_default config.hermes_inventory_url ""))
                >>=? λ sources. build_hermes_inventory F around.files sources none)
            else raise_value_error "HERMES_INVENTORY_URL is required")
        else raise_value_error "HERMES_INVENTORY_MODE is invalid"

    abbrev consumer_line : Consumer F → String
    consumer_line c =
        c.role_id
        <> " "
        <> c.consumer_type
        <> " "
        <> c.consumer
        <> " "
        <> c.cadence
        <> " "
        <> around.show c.calls_per_run

    -- `assemble_inspector_prompt`
    unfoldable pub assemble_inspector_prompt :
        Inventory F → (changes : List String) → Dict String String → String
    unfolding join redact
    assemble_inspector_prompt inventory changes secrets = redact secrets (
        join "\n" (
          "Hermes inventory forecast request" ∷ "Changes:" ∷ changes
          ++ "Consumers:" ∷ map consumer_line inventory.consumers))

    abbrev forecast_or_none : Outcome InspectorForecast → Option InspectorForecast
    forecast_or_none (return forecast) = some forecast
    forecast_or_none (raise _) = none

    -- `_run_hermes_inspector`: an exception gives no forecast.
    unfoldable pub run_hermes_inspector : Inventory F → W → Option InspectorForecast × W
    unfolding assemble_inspector_prompt
    run_hermes_inspector inventory w = elim around.inspect_demand [
      | none ↦ (none, w)
      | some inspect ↦
          let (answer, w') = inspect (assemble_inspector_prompt inventory [] []) w in
          (forecast_or_none answer, w')
    ]

    abbrev consumer_hash : Consumer F → String
    unfolding hash_parts
    consumer_hash c =
        hash_parts around.sha256
          (c.role_id ∷ c.consumer_type ∷ c.consumer ∷ c.cadence ∷ around.show c.calls_per_run ∷ [])

    unfoldable pub inventory_hash : String → List (Consumer F) → String
    unfolding hash_parts consumer_hash
    inventory_hash mode consumers = hash_parts around.sha256 (mode ∷ map consumer_hash consumers)

  -- `by_role[role_id] = by_role.get(role_id, 0.0) + float(calls_per_run)` for each consumer
  unfoldable pub calls_by_role : Dict String Number → List (Consumer F) → Dict String Number
  unfolding lookup insert
  calls_by_role by_role [] = by_role
  calls_by_role by_role (c ∷ cs) =
      calls_by_role
        (insert c.role_id (add (get_or c.role_id (of_nat 0) by_role) c.calls_per_run) by_role) cs

  abbrev extended : Consumer F → RoleRequirements → RoleRequirements
  unfolding sorted_set
  extended c requirements = record {
    capabilities = sorted_set (requirements.capabilities ++ c.required_capabilities);
    minimum_context_window = max requirements.minimum_context_window c.minimum_context_window;
  }

  -- `requirements_by_role`
  unfoldable pub requirements_of :
      Dict String RoleRequirements → List (Consumer F) → Dict String RoleRequirements
  unfolding lookup insert extended
  requirements_of by_role [] = by_role
  requirements_of by_role (c ∷ cs) =
      requirements_of
        (insert c.role_id (extended c (get_or c.role_id no_requirements by_role)) by_role) cs

  abbrev chosen : Option (RoleQualityAnchor F) → InspectorForecast → InspectorForecast
  unfolding forecast_with_quality_choice
  chosen none forecast = forecast
  chosen (some anchor) forecast = forecast_with_quality_choice forecast anchor

  -- The forecast raises the calls of its role.
  unfoldable pub with_forecast :
      Dict String (RoleQualityAnchor F)
      → Option InspectorForecast
      → Dict String Number
      → Dict String Number
  unfolding lookup insert chosen
  with_forecast anchors none by_role = by_role
  with_forecast anchors (some forecast) by_role =
      let f = chosen (lookup forecast.role anchors) forecast in
      insert f.role (fmax F (get_or f.role (of_nat 0) by_role) f.expected_calls) by_role
