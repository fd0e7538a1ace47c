-- ===== src/Pipeline/Frame.antt =====
-- What a run does to the table sync_runs, whether it returns or raises.
use free_model_orchestrator.Base.{
  ℕ, ◌≡◌, refl, inl, inr, String, Bool, true, false, Option, List, [], ◌∷◌, ◌∙◌, if◌then◌else◌,
  string_eq, nat_eq, ap, Bool-cases, All,
}
use free_model_orchestrator.Effects.{Outcome, return, raise, Action, and_then, ◌>>=◌}
use free_model_orchestrator.Persistence.{
  StageRecord, SyncRuns, create, finish, finish_row, update_rows, has_row,
}
use free_model_orchestrator.Pipeline.{
  State, Stage, Progress, no_progress, is_stop, is_done, run_keyed, run_stage, stage_key,
  run_stages, run_pipeline, finish_run, store_runs, advance, outcome_exit_code,
}

-- The table after a run: the new row was added, and then finished unless something was raised.
pub data RanTo (started : ℕ × SyncRuns) (after : SyncRuns) : Type 0 where
  unfinished : after ≡ started.1 → RanTo started after
  finished :
      (status : String) (records : List StageRecord)
      → after ≡ record started.1 {
        rows = update_rows (finish_row started.0 status records) started.1.rows;
      }
      → RanTo started after

module _ {E : Type 0} where
  -- A stage that does not write sync_runs, in its work or in the computation of its key.
  pub record LeavesRuns (stage : Stage E) : Type 0 where
    pub run : (run_id : ℕ) (w : State E) → (stage.run run_id w).1.runs ≡ w.runs
    pub key : (run_id : ℕ) (w : State E) → (stage_key run_id stage.key w).1.runs ≡ w.runs

  and_then-runs :
      {A B : Type 0} (o : Outcome A) (f : A → Action (State E) B) (w : State E)
      → ((a : A) → (f a w).1.runs ≡ w.runs)
      → (and_then o f w).1.runs ≡ w.runs
  and_then-runs (return a) f w h = h a
  and_then-runs (raise e) f w h = refl

  branch-runs :
      {A : Type 0} (b : Bool) (x y : Outcome A × State E) (w : State E)
      → x.1.runs ≡ w.runs
      → y.1.runs ≡ w.runs
      → (if b then x else y).1.runs ≡ w.runs
  branch-runs true x y w h k = h
  branch-runs false x y w h k = k

  run_keyed-runs :
      (run_id : ℕ) (stage : Stage E) (key : Option String) (w : State E)
      → LeavesRuns stage
      → (run_keyed run_id stage key w).1.runs ≡ w.runs
  unfolding run_keyed
  run_keyed-runs run_id stage key w leaves = elim (Bool-cases (is_done stage.name key w.runs)) [
    | inl h ↦ rw h
    | inr h ↦ rw h (
        and_then-runs (stage.run run_id w).0 _ (stage.run run_id w).1 (λ a. refl)
        ∙ leaves.run run_id w)
  ]

  run_stage-runs :
      (run_id : ℕ) (stage : Stage E) (w : State E)
      → LeavesRuns stage
      → (run_stage run_id stage w).1.runs ≡ w.runs
  unfolding run_stage
  run_stage-runs run_id stage w leaves =
      let found = stage_key run_id stage.key w in
      and_then-runs found.0 (run_keyed run_id stage) found.1
        (λ key. run_keyed-runs run_id stage key found.1 leaves)
      ∙ leaves.key run_id w

  pub run_stages-runs :
      (run_id : ℕ) (stages : List (Stage E)) (p : Progress) (w : State E)
      → All LeavesRuns stages
      → (run_stages run_id stages p w).1.runs ≡ w.runs
  unfolding run_stages
  run_stages-runs run_id [] p w leaves = refl
  run_stages-runs run_id (stage ∷ stages) p w (first, others) =
      let ran = run_stage run_id stage w in
      and_then-runs ran.0 _ ran.1 (λ r. and_then-runs (advance p r) _ ran.1 (λ p1.
        branch-runs (is_stop r.status) (return p1, ran.1) (run_stages run_id stages p1 ran.1) ran.1
          refl (run_stages-runs run_id stages p1 ran.1 others)))
      ∙ run_stage-runs run_id stage w first

  store_runs-RanTo :
      {B : Type 0} (started : ℕ × SyncRuns) (status : String) (records : List StageRecord)
      (f : Unit {0} → Action (State E) B) (w : State E)
      → ((w' : State E) → (f tt w').1.runs ≡ w'.runs)
      → w.runs ≡ started.1
      → RanTo started
          (and_then
            (store_runs w (finish started.0 status records w.runs)).0
            f
            (store_runs w (finish started.0 status records w.runs)).1).1.runs
  unfolding finish
  store_runs-RanTo started status records f w h e =
      elim (Bool-cases (has_row started.0 w.runs.rows)) [
        | inl found ↦ rw found (
            finished status records (
              h _
              ∙ ap
                  (λ (t : SyncRuns). record t {
                    rows = update_rows (finish_row started.0 status records) t.rows;
                  })
                  e))
        | inr missing ↦ rw missing (unfinished e)
      ]

  after_stages-RanTo :
      {B : Type 0} (started : ℕ × SyncRuns) (f : Progress → Unit {0} → Action (State E) B)
      (o : Outcome Progress) (w : State E)
      → ((p : Progress) (w' : State E) → (f p tt w').1.runs ≡ w'.runs)
      → w.runs ≡ started.1
      → RanTo started
          (and_then o (λ p. finish_run started.0 p.status p.stage_records >>= f p) w).1.runs
  after_stages-RanTo started f (return p) w h e =
      store_runs-RanTo started p.status p.stage_records (f p) w (h p) e
  after_stages-RanTo started f (raise x) w h e = unfinished e

module _ {E : Type 0} (code_version config_hash : String) (stages : List (Stage E))
    (trigger run_type : String) (s : State E) (leaves : All LeavesRuns stages) where
  pub run_pipeline-RanTo :
      RanTo
        (create run_type trigger "running" code_version config_hash s.runs)
        (run_pipeline code_version config_hash stages trigger run_type s).1.runs
  unfolding run_pipeline
  run_pipeline-RanTo =
      let started = create run_type trigger "running" code_version config_hash s.runs in
      let start : State E = record s { runs = started.1 } in
      let ran = run_stages started.0 stages no_progress start in
      after_stages-RanTo started _ ran.0 ran.1
        (λ p w. and_then-runs (outcome_exit_code p.status) _ w (λ _. refl))
        (run_stages-runs started.0 stages no_progress start leaves)
