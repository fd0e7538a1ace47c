-- ===== src/Pipeline.antt =====
-- pipeline.py: the stages of a run, their statuses, and `PipelineRunner`.
-- The state is the table sync_runs with the environment `E` that the stages work on: the other
-- tables, the mutable `context.config` and the remote services.
pub mod Status
pub mod Execution
pub mod Frame
pub mod Idempotency
pub mod Samples
use free_model_orchestrator.Base.{
  ℕ, ◌≡◌, String, Bool, true, false, Option, some, none, List, [], ◌∷◌, ◌++◌, ◌&&◌, ◌||◌, not,
  if◌then◌else◌, leb, string_eq, ◌==◌, contains,
}
use free_model_orchestrator.Base.Dict
use free_model_orchestrator.Base.Dict.{Dict}
use free_model_orchestrator.Effects.{
  Outcome, return, raise, raise_value_error, ◌>>=?◌, Action, pure, lift, branch, ◌>>=◌, ◌>>◌,
}
use free_model_orchestrator.Json.{Fields, end}
use free_model_orchestrator.Persistence.{StageRecord, SyncRuns, create, finish}
use free_model_orchestrator.Persistence.Runs.{has_prior_success}
use Prim.Native.String.{◌++◌ as ◌<>◌}

abbrev pub exit_codes : Dict String ℕ
exit_codes =
    ("success", 0)
    ∷ ("partial_stale", 2)
    ∷ ("validation_failed", 3)
    ∷ ("not_implemented", 3)
    ∷ ("external_dependency_failed", 4)
    ∷ []

abbrev pub canonical_stage_names : List String
canonical_stage_names = "hermes-inventory" ∷ "role-lifecycle" ∷ "demand-forecast" ∷ "audit" ∷ []

abbrev pub stop_statuses : List String
stop_statuses = "validation_failed" ∷ "not_implemented" ∷ "external_dependency_failed" ∷ []

unfoldable pub is_stop : String → Bool
is_stop status = contains stop_statuses status

unfoldable pub outcome_exit_code : String → Outcome ℕ
outcome_exit_code status = elim (Dict.lookup status exit_codes) [
  | some code ↦ return code
  | none ↦ raise_value_error ("unknown pipeline status: " <> status)
]

unfoldable pub worse_status : String → String → Outcome String
worse_status left right = outcome_exit_code right >>=? λ r.
    outcome_exit_code left >>=? λ l. return (if leb l r then right else left)

pub record StageResult : Type 0 where
  pub status : String
  pub idempotency_key : Option String
  pub changed : Bool
  pub reason : Option String
  pub details : Fields

pub record State (E : Type 0) : Type 0 where
  pub runs : SyncRuns
  pub env : E

-- `Stage.idempotency_key`: None, a text, or a callable that gets the context.
pub data KeySource (E : Type 0) : Type 0 where
  no_key : KeySource E
  fixed : String → KeySource E
  computed : (ℕ → Action (State E) (Option String)) → KeySource E

-- A stage gets the run's id; the repository and the config of its context are the state.
pub record Stage (E : Type 0) : Type 0 where
  pub name : String
  pub run : ℕ → Action (State E) StageResult
  pub key : KeySource E

-- `run_id` is "" in the source where no run was made, and `none` here.
pub record PipelineRunResult : Type 0 where
  pub run_id : Option ℕ
  pub status : String
  pub exit_code : ℕ
  pub changed : Bool
  pub stage_results : List StageRecord
  pub skipped_stages : List String

abbrev pub stage_record : String → StageResult → (skipped changed : Bool) → StageRecord
stage_record name result skipped changed = record {
  name = name;
  status = result.status;
  idempotency_key = result.idempotency_key;
  skipped = skipped;
  changed = changed;
  reason = result.reason;
  details = result.details;
}

abbrev pub skipped_result : Option String → StageResult
skipped_result key = record {
  status = "success";
  idempotency_key = key;
  changed = false;
  reason = none;
  details = end;
}

-- The key of the stage fills in for a result with none.
abbrev pub with_key : Option String → StageResult → StageResult
with_key key result = elim result.idempotency_key [
  | none ↦ record result { idempotency_key = key }
  | some _ ↦ result
]

-- `idempotency_key and self._has_prior_success(...)`: an empty key counts as none.
unfoldable pub is_done : String → Option String → SyncRuns → Bool
is_done name none t = false
is_done name (some key) t = not (key == "") && has_prior_success name key t

module _ {E : Type 0} where
  -- `_idempotency_key`
  unfoldable pub stage_key : ℕ → KeySource E → Action (State E) (Option String)
  stage_key run_id no_key = pure none
  stage_key run_id (fixed key) = pure (some key)
  stage_key run_id (computed f) = f run_id

  abbrev run_fresh : ℕ → Stage E → Option String → Action (State E) StageRecord
  run_fresh run_id stage key = do
    result ← stage.run run_id
    pure (stage_record stage.name (with_key key result) false result.changed)

  -- `_run_stage` from the point where the key is known
  unfoldable pub run_keyed : ℕ → Stage E → Option String → Action (State E) StageRecord
  unfolding is_done
  run_keyed run_id stage key s =
      if is_done stage.name key s.runs
      then (return (stage_record stage.name (skipped_result key) true false), s)
      else run_fresh run_id stage key s

  unfoldable pub run_stage : ℕ → Stage E → Action (State E) StageRecord
  unfolding run_keyed stage_key
  run_stage run_id stage = do key ← stage_key run_id stage.key; run_keyed run_id stage key

-- The variables of the loop in `PipelineRunner.run`.
pub record Progress : Type 0 where
  pub stage_records : List StageRecord
  pub skipped_stages : List String
  pub changed : Bool
  pub status : String

abbrev pub no_progress : Progress
no_progress = record {
  stage_records = [];
  skipped_stages = [];
  changed = false;
  status = "success";
}

-- The body of the loop after the call of `_run_stage`.
unfoldable pub advance : Progress → StageRecord → Outcome Progress
advance p r = worse_status p.status r.status >>=? λ status. return (record {
  stage_records = p.stage_records ++ r ∷ [];
  skipped_stages = if r.skipped then p.skipped_stages ++ r.name ∷ [] else p.skipped_stages;
  changed = p.changed || r.changed;
  status = status;
})

module _ {E : Type 0} where
  unfoldable pub run_stages : ℕ → List (Stage E) → Progress → Action (State E) Progress
  run_stages run_id [] p = pure p
  run_stages run_id (stage ∷ stages) p = do
    r ← run_stage run_id stage
    p' ← lift (advance p r)
    branch (is_stop r.status) (pure p') (run_stages run_id stages p')

  abbrev pub create_run : (run_type trigger code_version config_hash : String) → Action (State E) ℕ
  create_run run_type trigger code_version config_hash s =
      let (run_id, runs) = create run_type trigger "running" code_version config_hash s.runs in
      (return run_id, record s { runs = runs })

  abbrev pub store_runs : State E → Outcome SyncRuns → Outcome (Unit {0}) × State E
  store_runs s (return runs) = (return tt, record s { runs = runs })
  store_runs s (raise e) = (raise e, s)

  abbrev pub finish_run : ℕ → String → List StageRecord → Action (State E) (Unit {0})
  finish_run run_id status stages s = store_runs s (finish run_id status stages s.runs)

  -- `PipelineRunner(...).run(trigger=..., run_type=...)`
  unfoldable pub run_pipeline :
      (code_version config_hash : String)
      → List (Stage E)
      → (trigger run_type : String) → Action (State E) PipelineRunResult
  run_pipeline code_version config_hash stages trigger run_type = do
    run_id ← create_run run_type trigger code_version config_hash
    p ← run_stages run_id stages no_progress
    finish_run run_id p.status p.stage_records
    exit_code ← lift (outcome_exit_code p.status)
    pure (record {
      run_id = some run_id;
      status = p.status;
      exit_code = exit_code;
      changed = p.changed;
      stage_results = p.stage_records;
      skipped_stages = p.skipped_stages;
    })
