-- ===== src/Composition/Commands.antt =====
-- composition.py: the stages of a command, the run of a command and of a scheduler's tick, and the
-- result for the command line.
use free_model_orchestrator.Base.{
  ℕ, String, Bool, true, false, Option, none, some, List, [], ◌∷◌, ◌==◌, string_eq, if◌then◌else◌,
}
use free_model_orchestrator.Base.Dict.{Dict, lookup}
use free_model_orchestrator.Effects.{
  Outcome, return, raise, key_error, Action, pure, lift, ◌>>=◌, ◌>>=?◌,
}
use free_model_orchestrator.Json.{truth, get}
use free_model_orchestrator.Persistence.{StageRecord}
use free_model_orchestrator.Scheduler.{tick}
use free_model_orchestrator.Pipeline.{State, Stage, PipelineRunResult, run_pipeline}

abbrev pub command_stage_names : Dict String String
command_stage_names =
    ("sync-hermes-inventory", "hermes-inventory")
    ∷ ("reconcile-roles", "role-lifecycle")
    ∷ ("forecast-demand", "demand-forecast")
    ∷ []

abbrev pub missing_key {ℓ} : {A : Type ℓ} → String → Outcome A
missing_key key = raise (record { kind = key_error; message = key })

-- `_run_type`
unfoldable pub run_type_of : String → Outcome String
run_type_of command =
    if command == "full" then return "full" else (elim (lookup command command_stage_names) [
      | some name ↦ return name
      | none ↦ missing_key command
    ])

-- `stage_by_name[name]`: the last stage of the name.
unfoldable pub stage_named {ℓ} : {E : Type ℓ} → String → (E → String) → List E → Outcome E
stage_named name name_of [] = missing_key name
stage_named name name_of (stage ∷ stages) = elim (stage_named name name_of stages) [
  | return found ↦ return found
  | raise e ↦ if name_of stage == name then return stage else raise e
]

unfoldable pub stages_for_command :
    {E : Type 0} → String → List (Stage E) → Outcome (List (Stage E))
unfolding stage_named lookup
stages_for_command command stages =
    if command == "full" then return stages else (elim (lookup command command_stage_names) [
      | some name ↦ stage_named name (λ s. s.name) stages >>=? λ stage. return (stage ∷ [])
      | none ↦ missing_key command
    ])

pub record RuntimeCliResult : Type 0 where
  pub exit_code : ℕ
  pub changed : Bool
  pub combo_test_called : Bool
  pub error_reason : Option String
  pub output : Option String

unfoldable pub failing_reason : List StageRecord → Option String
failing_reason [] = none
failing_reason (stage ∷ stages) =
    if stage.status == "success" then failing_reason stages else stage.reason

abbrev tests_combo : StageRecord → Bool
tests_combo stage = elim (get "combo_test_called" stage.details) [
  | some value ↦ truth value
  | none ↦ false
]

unfoldable pub any_combo_test : List StageRecord → Bool
unfolding get truth
any_combo_test [] = false
any_combo_test (stage ∷ stages) = if tests_combo stage then true else any_combo_test stages

-- `_cli_result`
unfoldable pub cli_result : PipelineRunResult → RuntimeCliResult
unfolding failing_reason any_combo_test
cli_result result = record {
  exit_code = result.exit_code;
  changed = result.changed;
  combo_test_called = any_combo_test result.stage_results;
  error_reason = failing_reason result.stage_results;
  output = none;
}

abbrev pub tick_result : Option PipelineRunResult → RuntimeCliResult
tick_result none = record {
  exit_code = 0;
  changed = false;
  combo_test_called = false;
  error_reason = none;
  output = none;
}
tick_result (some result) = cli_result result

module _ {E : Type 0} where
  -- `fresh` gives the run a config of its own.
  abbrev pub with_fresh : {A : Type 0} → (E → E) → Action (State E) A → Action (State E) A
  with_fresh fresh m s = m (record s { env = fresh s.env })

  -- `ComposedRuntime.run_command`
  unfoldable pub run_command :
      (code_version config_hash : String) (fresh : E → E) (stages : List (Stage E))
      (command : String)
      → Action (State E) RuntimeCliResult
  unfolding stages_for_command run_type_of cli_result run_pipeline
  run_command code_version config_hash fresh stages command = do
    selected ← lift (stages_for_command command stages)
    run_type ← lift (run_type_of command)
    result ← with_fresh fresh (run_pipeline code_version config_hash selected command run_type)
    pure (cli_result result)

  -- `ComposedRuntime.run_scheduler_once`; `pipeline_runner` is its `run_pipeline`.
  unfoldable pub run_scheduler_once :
      (pipeline_runner : (trigger run_type : String) → Action (State E) PipelineRunResult)
      → (cron timestamp : String) → Action (State E) RuntimeCliResult
  unfolding tick cli_result
  run_scheduler_once pipeline_runner cron timestamp = do
    result ← tick pipeline_runner cron timestamp
    pure (tick_result result)
