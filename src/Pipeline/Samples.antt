-- ===== src/Pipeline/Samples.antt =====
-- Runs of small pipelines. The environment counts the work that was done.
use free_model_orchestrator.Base.{
  ℕ, suc, ◌≡◌, refl, String, true, false, none, some, List, [], ◌∷◌, string_eq, nat_eq, option_eq,
  arith,
}
use free_model_orchestrator.Base.Dict
use free_model_orchestrator.Effects.{return, Action}
use free_model_orchestrator.Json.{end}
use free_model_orchestrator.Persistence.{
  StageRecord, RunRow, no_runs, create, finish, find_stage, last_successful_stage,
}
use free_model_orchestrator.Persistence.Runs.{is_some}
use free_model_orchestrator.Pipeline.{
  State, Stage, StageResult, fixed, no_key, PipelineRunResult, is_stop, outcome_exit_code,
  worse_status, advance, stage_key, run_stage, run_stages, run_pipeline, stage_record,
  skipped_result,
}
use free_model_orchestrator.Pipeline.Status.{IsWorst}
use free_model_orchestrator.Pipeline.Execution.{
  Executed, run_pipeline-IsWorst, run_pipeline-Executed,
}
use free_model_orchestrator.Pipeline.Frame.{LeavesRuns}
use free_model_orchestrator.Pipeline.Idempotency.{run_stage-skipped_after_success}
use text.Mathlib.TextEquality.{eq_iff}

abbrev gives : String → StageResult
gives status = record {
  status = status;
  idempotency_key = none;
  changed = true;
  reason = none;
  details = end;
}

abbrev count_work : String → ℕ → Action (State ℕ) StageResult
count_work status run_id s = (return (gives status), record s { env = suc s.env })

abbrev pub sync_stage : Stage ℕ
sync_stage = record { name = "sync"; run = count_work "success"; key = fixed "k1" }

abbrev pub failing_stage : Stage ℕ
failing_stage = record { name = "publish"; run = count_work "validation_failed"; key = no_key }

abbrev pub stages : List (Stage ℕ)
stages = sync_stage ∷ failing_stage ∷ sync_stage ∷ []

abbrev pub fresh : State ℕ
fresh = record { runs = no_runs; env = 0 }

abbrev sync_record : StageRecord
sync_record =
    stage_record "sync" (record (gives "success") { idempotency_key = some "k1" }) false true

abbrev failed_record : StageRecord
failed_record = stage_record "publish" (gives "validation_failed") false true

abbrev result1 : PipelineRunResult
result1 = record {
  run_id = some 0;
  status = "validation_failed";
  exit_code = 3;
  changed = true;
  stage_results = sync_record ∷ failed_record ∷ [];
  skipped_stages = [];
}

abbrev row1 : RunRow
row1 = record {
  id = 0;
  run_type = "full";
  trigger = "daily";
  status = "validation_failed";
  code_version = "dev";
  config_hash = "default";
  finished = true;
  stages = some (sync_record ∷ failed_record ∷ []);
}

abbrev s1 : State ℕ
s1 = record { runs = record { rows = row1 ∷ []; next = 1 }; env = 2 }

program : Unit {0}
unfolding run_pipeline run_stages run_stage advance worse_status outcome_exit_code is_stop create
    finish last_successful_stage find_stage string_eq nat_eq option_eq Dict.lookup
program = tt

ran1 : run_pipeline "dev" "default" stages "daily" "full" fresh ≡ (return result1, s1)
unfolding program
ran1 = refl

run_pipeline-IsWorst_example :
    IsWorst "validation_failed" (sync_record ∷ failed_record ∷ [])
    × (outcome_exit_code "validation_failed" ≡ return 3)
run_pipeline-IsWorst_example =
    run_pipeline-IsWorst "dev" "default" stages "daily" "full" fresh s1 result1 ran1

run_pipeline-Executed_example : Executed stages (sync_record ∷ failed_record ∷ [])
run_pipeline-Executed_example =
    run_pipeline-Executed "dev" "default" stages "daily" "full" fresh s1 result1 ran1

abbrev result2 : PipelineRunResult
result2 = record {
  run_id = some 1;
  status = "success";
  exit_code = 0;
  changed = false;
  stage_results = stage_record "sync" (skipped_result (some "k1")) true false ∷ [];
  skipped_stages = "sync" ∷ [];
}

abbrev s2 : State ℕ
s2 = record {
  runs = record {
    rows =
        row1
        ∷ record {
          id = 1;
          run_type = "full";
          trigger = "daily";
          status = "success";
          code_version = "dev";
          config_hash = "default";
          finished = true;
          stages = some (stage_record "sync" (skipped_result (some "k1")) true false ∷ []);
        }
        ∷ [];
    next = 2;
  };
  env = 2;
}

ran2 : run_pipeline "dev" "default" (sync_stage ∷ []) "daily" "full" s1 ≡ (return result2, s2)
unfolding program
ran2 = refl

pub sync_stage-LeavesRuns : LeavesRuns sync_stage
unfolding run_stage
sync_stage-LeavesRuns = record { run = λ _ _. refl; key = λ _ _. refl }

recorded1 : is_some (find_stage "sync" "k1" result1.stage_results) ≡ true
unfolding program
recorded1 = refl

run_stage-skipped_after_success_example :
    run_stage 7 sync_stage s2
    ≡ (return (stage_record "sync" (skipped_result (some "k1")) true false), s2)
unfolding stage_key
run_stage-skipped_after_success_example =
    run_stage-skipped_after_success "dev" "default" "daily" "full" "daily" "full" stages
      (sync_stage ∷ []) fresh s1 s2 result1 result2 sync_stage "k1" 7 ran1 recorded1 (omega arith)
      (sync_stage-LeavesRuns, tt) ran2 refl (ground (arith, eq_iff "k1" ""))
