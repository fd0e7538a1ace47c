-- ===== src/Scheduler/Locking.antt =====
-- The run lock around a triggered run.
use free_model_orchestrator.Base.{
  ℕ, suc, ◌≡◌, refl, ◌≢◌, inl, inr, String, true, false, Option, List, [], ◌∷◌, ◌++◌, arith,
  string_eq, nat_eq, Bool-cases, All,
}
use text.Mathlib.TextEquality.{eq_iff}
use free_model_orchestrator.Effects.{return, Action}
use free_model_orchestrator.Persistence.{
  StageRecord, RunRow, SyncRuns, create, finish_row, update_rows, any_holds, is_held, acquire,
  insert_row, lock_row, release, release_row,
}
use free_model_orchestrator.Persistence.Locks.{
  AreBelow, any_holds-append, update_rows-append, any_holds-release_other,
}
use free_model_orchestrator.Pipeline.{State, Stage, PipelineRunResult, run_pipeline}
use free_model_orchestrator.Pipeline.Frame.{
  LeavesRuns, RanTo, unfinished, finished, run_pipeline-RanTo,
}
use free_model_orchestrator.Scheduler.{trigger, trigger_lock, hold, run_if_acquired, stale_result}

module _ {E : Type 0}
    (pipeline_runner : (trigger run_type : String) → Action (State E) PipelineRunResult) where
  -- While another run holds the lock a trigger returns "partial_stale" and changes nothing: the
  -- pipeline is not called and no lock is released.
  pub trigger-locked :
      (name : String) (provider role : Option String) (s : State E)
      → any_holds (trigger_lock name provider role) s.runs.rows ≡ true
      → trigger pipeline_runner name provider role s ≡ (return stale_result, s)
  unfolding trigger acquire
  trigger-locked name provider role s h = rw h

-- Under `finish_row` of an id that no older row has, the older rows stay.
finish_row_fresh :
    (id : ℕ) (status : String) (records : List StageRecord) (rows : List RunRow)
    → AreBelow id rows
    → update_rows (finish_row id status records) rows ≡ rows
unfolding update_rows
finish_row_fresh id status records [] below = refl
finish_row_fresh id status records (row ∷ rows) (b, below) =
    ground (arith, finish_row_fresh id status records rows below)

module _ (other name : String) (k : ℕ) (rows : List RunRow) (row : RunRow) where
  -- The table of a run under the lock `k`: releasing it leaves the locks as they were before it.
  released_rows :
      AreBelow k rows
      → is_held row ≡ false
      → any_holds other (update_rows (release_row k) ((rows ++ lock_row name k ∷ []) ++ row ∷ []))
        ≡ any_holds other rows
  unfolding any_holds update_rows
  released_rows below idle = ground (
    arith,
    update_rows-append (release_row k) (rows ++ lock_row name k ∷ []) (row ∷ []),
    update_rows-append (release_row k) rows (lock_row name k ∷ []),
    any_holds-append other
        (update_rows (release_row k) rows ++ update_rows (release_row k) (lock_row name k ∷ []))
        (update_rows (release_row k) (row ∷ [])),
    any_holds-append other (update_rows (release_row k) rows)
        (update_rows (release_row k) (lock_row name k ∷ [])),
    any_holds-release_other other k rows below,
  )

AreBelow-insert :
    (rows : List RunRow) (row : RunRow)
    → AreBelow row.id rows
    → AreBelow (suc row.id) (rows ++ row ∷ [])
AreBelow-insert [] row below = (omega arith, tt)
AreBelow-insert (r ∷ rows) row (b, below) = (omega arith, AreBelow-insert rows row below)

running-ne-held : ◌≢◌ {A = String} "running" "held"
running-ne-held = ground (arith, eq_iff "running" "held")

abbrev under_lock : String → SyncRuns → SyncRuns
under_lock name t = insert_row (lock_row name t.next) t

module _ (other name run_type trigger code_version config_hash : String) (t after : SyncRuns)
    (below : AreBelow t.next t.rows) where
  RanTo-released :
      RanTo (create run_type trigger "running" code_version config_hash (under_lock name t)) after
      → any_holds other (release t.next after).rows ≡ any_holds other t.rows
  unfolding release create update_rows
  RanTo-released (unfinished e) =
      rw e (released_rows other name t.next t.rows _ below (ground (arith, running-ne-held)))
  RanTo-released (finished status records e) = rw e (
      rw update_rows-append (
        rw
          (finish_row_fresh (suc t.next) status records _
            (AreBelow-insert t.rows (lock_row name t.next) below))
          (released_rows other name t.next t.rows _ below (ground (arith, running-ne-held)))))

module _ {E : Type 0} (code_version config_hash : String) (stages : List (Stage E))
    (leaves : All LeavesRuns stages) where
  abbrev runner : (trigger run_type : String) → Action (State E) PipelineRunResult
  runner = run_pipeline code_version config_hash stages

  hold-runner :
      (other lock pipeline_trigger run_type : String) (s : State E)
      → AreBelow s.runs.next s.runs.rows
      → any_holds other (hold lock (run_if_acquired runner pipeline_trigger run_type) s).1.runs.rows
        ≡ any_holds other s.runs.rows
  unfolding hold acquire
  hold-runner other lock pipeline_trigger run_type s below =
      elim (Bool-cases (any_holds lock s.runs.rows)) [
        | inl h ↦ rw h
        | inr h ↦ rw h (
            RanTo-released other lock run_type pipeline_trigger code_version config_hash s.runs _
              below
              (run_pipeline-RanTo code_version config_hash stages pipeline_trigger run_type
                (record s { runs = under_lock lock s.runs }) leaves))
      ]

  -- A trigger leaves every lock as it found it, whether the run returns, raises, or finds the lock
  -- taken: no lock leaks.
  pub trigger-any_holds :
      (other name : String) (provider role : Option String) (s : State E)
      → AreBelow s.runs.next s.runs.rows
      → any_holds other (trigger runner name provider role s).1.runs.rows
        ≡ any_holds other s.runs.rows
  unfolding trigger
  trigger-any_holds other name provider role s below =
      hold-runner other (trigger_lock name provider role) _ _ s below
