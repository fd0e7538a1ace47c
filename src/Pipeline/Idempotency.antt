-- ===== src/Pipeline/Idempotency.antt =====
-- `_run_stage` against the history of runs: work that succeeded under a key is not done again.
use free_model_orchestrator.Base.{
  ℕ, ◌≡◌, refl, ◌≢◌, String, true, false, none, some, List, [], ◌∷◌, ◌++◌, ◌∙◌, sym, arith,
  string_eq, nat_eq, ap, All,
}
use free_model_orchestrator.Effects.{Outcome, return}
use free_model_orchestrator.Persistence.{RunRow, create, created_row, find_stage}
use free_model_orchestrator.Persistence.Locks.{AreBelow}
use free_model_orchestrator.Persistence.Runs.{
  is_some, has_prior_success, has_prior_success-finish, has_prior_success-finish_old,
  has_prior_success-create, HasNoStages,
}
use free_model_orchestrator.Pipeline.{
  State, Stage, stage_key, Progress, no_progress, PipelineRunResult, is_done, run_stage,
  run_pipeline, stage_record, skipped_result,
}
use free_model_orchestrator.Pipeline.Frame.{LeavesRuns, run_stages-runs}
use free_model_orchestrator.Pipeline.Execution.{run_pipeline-RunTrace}

-- The row of a new run holds no stages, and no older row has its id.
HasNoStages-create :
    (rows : List RunRow) (row : RunRow)
    → AreBelow row.id rows
    → row.stages ≡ none
    → HasNoStages row.id (rows ++ row ∷ [])
HasNoStages-create [] row below e = ((λ _. e), tt)
HasNoStages-create (r ∷ rows) row (b, below) e =
    ((λ same. absurd (omega (arith, same))), HasNoStages-create rows row below e)

module _ {E : Type 0} (code_version config_hash : String) (stages : List (Stage E))
    (trigger run_type : String) (s s' : State E) (result : PipelineRunResult)
    (returned : run_pipeline code_version config_hash stages trigger run_type s
      ≡ (return result, s'))
    (stage_name key : String) where
  -- A success that a run records is found by every later look-up in the history.
  pub run_pipeline-has_prior_success :
      is_some (find_stage stage_name key result.stage_results) ≡ true
      → has_prior_success stage_name key s'.runs ≡ true
  run_pipeline-has_prior_success found =
      let t =
        run_pipeline-RunTrace code_version config_hash stages trigger run_type s s' result
          returned in
      rw t.final (
        has_prior_success-finish stage_name key _ _ t.p.stage_records t.mid.runs t.runs t.finished
          (rw t.records at found))

  -- A later run whose stages leave the table alone keeps what the history says.
  pub run_pipeline-keeps_prior :
      AreBelow s.runs.next s.runs.rows
      → All LeavesRuns stages
      → has_prior_success stage_name key s.runs ≡ true
      → has_prior_success stage_name key s'.runs ≡ true
  unfolding create
  run_pipeline-keeps_prior below leaves old =
      let t =
        run_pipeline-RunTrace code_version config_hash stages trigger run_type s s' result
          returned in
      let kept =
        (sym (ap (λ (x : Outcome Progress × State E). x.1.runs) t.ran)
          ∙ run_stages-runs _ stages no_progress _ leaves) in
      rw t.final (
        has_prior_success-finish_old stage_name key _ _ t.p.stage_records t.mid.runs t.runs
          t.finished
          (rw kept (
            HasNoStages-create s.runs.rows
              (created_row run_type trigger "running" code_version config_hash s.runs.next) below
              refl))
          (rw kept (
            has_prior_success-create stage_name key run_type trigger "running" code_version
              config_hash s.runs
            ∙ old)))

-- Two runs of any trigger and type, and then a stage of the name and key under which the first
-- recorded a success, however its key is found, so long as finding it changes nothing: it is
-- skipped, so its work is not done, and nothing changes. The key is not empty, the stages of the
-- second run leave the table of runs alone, and the ids of the rows are below the next one.
pub run_stage-skipped_after_success :
    {E : Type 0} (code_version config_hash trigger1 run_type1 trigger2 run_type2 : String)
    (first second : List (Stage E)) (s s1 s2 : State E) (result1 result2 : PipelineRunResult)
    (stage : Stage E) (key : String) (run_id : ℕ)
    → run_pipeline code_version config_hash first trigger1 run_type1 s ≡ (return result1, s1)
    → is_some (find_stage stage.name key result1.stage_results) ≡ true
    → AreBelow s1.runs.next s1.runs.rows
    → All LeavesRuns second
    → run_pipeline code_version config_hash second trigger2 run_type2 s1 ≡ (return result2, s2)
    → stage_key run_id stage.key s2 ≡ (return (some key), s2)
    → key ≢ ""
    → run_stage run_id stage s2
      ≡ (return (stage_record stage.name (skipped_result (some key)) true false), s2)
unfolding run_stage is_done
run_stage-skipped_after_success code_version config_hash trigger1 run_type1 trigger2 run_type2 first
      second s s1 s2 result1 result2 stage key run_id ran1 found below leaves ran2 has_key
      nonempty =
    let old =
      run_pipeline-has_prior_success code_version config_hash first trigger1 run_type1 s s1 result1
        ran1 stage.name key found in
    let kept =
      run_pipeline-keeps_prior code_version config_hash second trigger2 run_type2 s1 s2 result2 ran2
        stage.name key below leaves old in
    rw has_key (ground (arith, kept))
