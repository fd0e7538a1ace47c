-- ===== src/Pipeline/Execution.antt =====
-- `PipelineRunner.run`: which stages run, and what the result and the row of the run say.
use free_model_orchestrator.Base.{
  ℕ, ◌≡◌, refl, ◌⊎◌, inl, inr, String, true, false, some, List, [], ◌∷◌, ◌++◌, ◌∙◌, if◌then◌else◌,
  arith, string_eq, ap, subst, Option, Bool-cases,
}
use mathlib.Core.List.{append-nil, append_assoc}
use free_model_orchestrator.Effects.{Outcome, return, raise, Action, and_then, and_then-eq-return}
use free_model_orchestrator.Persistence.{StageRecord, SyncRuns, create, finish}
use free_model_orchestrator.Pipeline.{
  State, Stage, Progress, no_progress, PipelineRunResult, is_stop, outcome_exit_code, advance,
  run_keyed, run_stage, stage_key, run_stages, run_pipeline, store_runs,
}
use free_model_orchestrator.Pipeline.Status.{
  IsWorst, advance-IsWorst, advance-eq-return, no_progress-IsWorst,
}

module _ {E : Type 0} where
  -- The records are those of a run of these stages: stage by stage in order, each but the last
  -- with a status that does not stop the run; all the stages, unless the last status stops it.
  abbrev pub Executed : List (Stage E) → List StageRecord → Type 0
  Executed [] [] = Unit
  Executed [] (r ∷ rs) = ⊥
  Executed (stage ∷ stages) [] = ⊥
  Executed (stage ∷ stages) (r ∷ rs) =
      (r.name ≡ stage.name)
      × ((is_stop r.status ≡ true) × (rs ≡ []) ⊎ (is_stop r.status ≡ false) × Executed stages rs)

  run_keyed-name :
      (run_id : ℕ) (stage : Stage E) (key : Option String) (s s' : State E) (r : StageRecord)
      → run_keyed run_id stage key s ≡ (return r, s')
      → r.name ≡ stage.name
  unfolding run_keyed
  run_keyed-name run_id stage key s s' r e = ground arith

  run_stage-name :
      (run_id : ℕ) (stage : Stage E) (s s' : State E) (r : StageRecord)
      → run_stage run_id stage s ≡ (return r, s')
      → r.name ≡ stage.name
  unfolding run_stage
  run_stage-name run_id stage s s' r e =
      let (o, s1) = stage_key run_id stage.key s in
      let (key, _, e1) = and_then-eq-return o (run_keyed run_id stage) s1 e in
      run_keyed-name run_id stage key s1 s' r e1

  -- One round of the loop that returned.
  pub record Round (run_id : ℕ) (stage : Stage E) (stages : List (Stage E)) (p q : Progress)
      (s s' : State E) : Type 0 where
    pub r : StageRecord
    pub mid : State E
    pub p1 : Progress
    pub ran : run_stage run_id stage s ≡ (return r, mid)
    pub advanced : advance p r ≡ return p1
    pub after :
        (is_stop r.status ≡ true) × (q ≡ p1) × (s' ≡ mid)
        ⊎ (is_stop r.status ≡ false) × (run_stages run_id stages p1 mid ≡ (return q, s'))

  pub run_stages-Round :
      (run_id : ℕ) (stage : Stage E) (stages : List (Stage E)) (p q : Progress) (s s' : State E)
      → run_stages run_id (stage ∷ stages) p s ≡ (return q, s')
      → Round run_id stage stages p q s s'
  unfolding run_stages
  run_stages-Round run_id stage stages p q s s' e =
      let o : Outcome StageRecord = (run_stage run_id stage s).0 in
      let mid : State E = (run_stage run_id stage s).1 in
      let (r, er, e1) = and_then-eq-return o _ mid e in
      let (p1, ep, e2) = and_then-eq-return (advance p r) _ mid e1 in
      record {
        r = r;
        mid = mid;
        p1 = p1;
        ran = λ i. (er i, mid);
        advanced = ep;
        after = split r p1 mid e2;
      }
    where
      split :
          (r : StageRecord) (p1 : Progress) (mid : State E)
          → (if is_stop r.status then (return p1, mid) else run_stages run_id stages p1 mid)
            ≡ (return q, s')
          → (is_stop r.status ≡ true) × (q ≡ p1) × (s' ≡ mid)
            ⊎ (is_stop r.status ≡ false) × (run_stages run_id stages p1 mid ≡ (return q, s'))
      split r p1 mid e2 = elim (Bool-cases (is_stop r.status)) [
        | inl h ↦ inl (h, ground (arith, e2, h), ground (arith, e2, h))
        | inr h ↦ inr (h, rw h at e2)
      ]

  run_stages-IsWorst :
      (run_id : ℕ) (stages : List (Stage E)) (p q : Progress) (s s' : State E)
      → IsWorst p.status p.stage_records
      → run_stages run_id stages p s ≡ (return q, s')
      → IsWorst q.status q.stage_records
  unfolding run_stages
  run_stages-IsWorst run_id [] p q s s' w e = subst_progress (ground arith) w
    where
      subst_progress : p ≡ q → IsWorst p.status p.stage_records → IsWorst q.status q.stage_records
      subst_progress eq w = subst (λ x. IsWorst x.status x.stage_records) eq w
  run_stages-IsWorst run_id (stage ∷ stages) p q s s' w e =
      let round = run_stages-Round run_id stage stages p q s s' e in
      let w1 = advance-IsWorst p round.r w round.p1 round.advanced in
      elim round.after [
        | inl (h, eq, _) ↦ rw eq w1
        | inr (h, e1) ↦ run_stages-IsWorst run_id stages round.p1 q round.mid s' w1 e1
      ]

  run_stages-Executed :
      (run_id : ℕ) (stages : List (Stage E)) (p q : Progress) (s s' : State E)
      → run_stages run_id stages p s ≡ (return q, s')
      → (rs : List StageRecord) × (q.stage_records ≡ p.stage_records ++ rs) × Executed stages rs
  unfolding run_stages
  run_stages-Executed run_id [] p q s s' e = ([], rw append-nil (ground arith), tt)
  run_stages-Executed run_id (stage ∷ stages) p q s s' e =
      let round = run_stages-Round run_id stage stages p q s s' e in
      let named = run_stage-name run_id stage s round.mid round.r round.ran in
      let (_, records) = advance-eq-return p round.p1 round.r round.advanced in
      elim round.after [
        | inl (h, eq, _) ↦ (round.r ∷ [], rw eq records, (named, inl (h, refl)))
        | inr (h, e1) ↦
            let (rs, split, done) = run_stages-Executed run_id stages round.p1 q round.mid s' e1 in
            (
              round.r ∷ rs,
              split ∙ ap (λ l. l ++ rs) records ∙ append_assoc p.stage_records _ _,
              (named, inr (h, done)),
            )
      ]

  -- What a run that returned did: the stages ran from the state with the new row, and the row was
  -- finished with what they gave.
  pub record RunTrace (stages : List (Stage E)) (run_id : ℕ) (start s' : State E)
      (result : PipelineRunResult) : Type 0 where
    pub p : Progress
    pub mid : State E
    pub runs : SyncRuns
    pub ran : run_stages run_id stages no_progress start ≡ (return p, mid)
    pub finished : finish run_id p.status p.stage_records mid.runs ≡ return runs
    pub code : outcome_exit_code p.status ≡ return result.exit_code
    pub id : result.run_id ≡ some run_id
    pub status : result.status ≡ p.status
    pub records : result.stage_results ≡ p.stage_records
    pub final : s' ≡ record mid { runs = runs }

  store_runs-eq-return :
      {B : Type 0} (o : Outcome SyncRuns) (f : Unit {0} → Action (State E) B) (w : State E) {b : B}
      {s' : State E}
      → and_then (store_runs w o).0 f (store_runs w o).1 ≡ (return b, s')
      → (runs : SyncRuns) × (o ≡ return runs) × (f tt (record w { runs = runs }) ≡ (return b, s'))
  store_runs-eq-return (return runs) f w e = (runs, refl, e)
  store_runs-eq-return (raise x) f w e = absurd (ground arith)

module _ {E : Type 0} (code_version config_hash : String) (stages : List (Stage E))
    (trigger run_type : String) (s s' : State E) (result : PipelineRunResult)
    (returned : run_pipeline code_version config_hash stages trigger run_type s
      ≡ (return result, s')) where
  abbrev started : ℕ × SyncRuns
  started = create run_type trigger "running" code_version config_hash s.runs

  pub run_pipeline-RunTrace : RunTrace stages started.0 (record s { runs = started.1 }) s' result
  unfolding run_pipeline
  run_pipeline-RunTrace =
      let ran = run_stages started.0 stages no_progress (record s { runs = started.1 }) in
      let (p, ep, e1) = and_then-eq-return ran.0 _ ran.1 returned in
      let (runs, done, e2) =
        store_runs-eq-return (finish started.0 p.status p.stage_records ran.1.runs) _ ran.1 e1 in
      let (code, known, e3) = and_then-eq-return (outcome_exit_code p.status) _ _ e2 in
      record {
        p = p;
        mid = ran.1;
        runs = runs;
        ran = λ i. (ep i, ran.1);
        finished = done;
        code = known ∙ ap return (ground (arith, e3));
        id = ground (arith, e3);
        status = ground (arith, e3);
        records = ground (arith, e3);
        final = ground (arith, e3);
      }

  -- The status of a run that returned is the worst of its stages' statuses, "success" if it had
  -- none; its exit code is that status's code, and no stage's status has a larger one.
  pub run_pipeline-IsWorst :
      IsWorst result.status result.stage_results
      × (outcome_exit_code result.status ≡ return result.exit_code)
  run_pipeline-IsWorst =
      let t = run_pipeline-RunTrace in
      let w =
        run_stages-IsWorst started.0 stages no_progress t.p _ t.mid no_progress-IsWorst t.ran in
      (rw (t.status, t.records) w, rw t.status t.code)

  -- The stages run in order, and the first one whose status stops the run is the last to run; if
  -- there is none, all of them run.
  pub run_pipeline-Executed : Executed stages result.stage_results
  run_pipeline-Executed =
      let t = run_pipeline-RunTrace in
      let (rs, split, done) = run_stages-Executed started.0 stages no_progress t.p _ t.mid t.ran in
      rw (t.records, split) done
