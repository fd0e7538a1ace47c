-- ===== src/Scheduler/Samples.antt =====
-- Triggers and ticks at small inputs.
use free_model_orchestrator.Base.{
  ℕ, ◌≡◌, refl, String, true, ◌&&◌, none, some, [], ◌∷◌, nat_beq, string_eq, nat_eq,
}
use free_model_orchestrator.Effects.{return, raise, Exception, Action}
use free_model_orchestrator.Persistence.{lock_row, any_holds}
use free_model_orchestrator.Pipeline.{State, PipelineRunResult, run_pipeline}
use free_model_orchestrator.Pipeline.Samples.{sync_stage, sync_stage-LeavesRuns, fresh}
use free_model_orchestrator.Scheduler.{
  trigger, trigger_lock, cron_matches, tick, tick_recalibration,
}
use free_model_orchestrator.Scheduler.Locking.{trigger-any_holds}
use free_model_orchestrator.Scheduler.Cron.{cron_matches-daily, tick-raises}
use free_model_orchestrator.Text.{split, after_first, parse_int}

abbrev runner : (trigger run_type : String) → Action (State ℕ) PipelineRunResult
runner = run_pipeline "dev" "default" (sync_stage ∷ [])

abbrev locked : State ℕ
locked = record { runs = record { rows = lock_row "daily" 0 ∷ []; next = 1 }; env = 0 }

is_locked : any_holds (trigger_lock "scheduled" none none) locked.runs.rows ≡ true
unfolding trigger_lock any_holds string_eq
is_locked = refl

trigger-any_holds_example :
    any_holds "daily" (trigger runner "scheduled" none none fresh).1.runs.rows
    ≡ any_holds "daily" fresh.runs.rows
trigger-any_holds_example =
    trigger-any_holds "dev" "default" (sync_stage ∷ []) (sync_stage-LeavesRuns, tt) "daily"
      "scheduled" none none fresh tt

cron_matches-daily_example :
    cron_matches "0 4 * * 1" "2026-06-16T04:00:00Z" ≡ return (nat_beq 0 0 && nat_beq 4 4)
unfolding split after_first parse_int
cron_matches-daily_example =
    cron_matches-daily "0 4 * * 1" "2026-06-16T04:00:00Z" "0" "4" "04:00:00Z" "04" "00"
      ("*" ∷ "*" ∷ "1" ∷ []) ("00Z" ∷ []) refl refl refl 0 4 0 4 refl refl refl refl

abbrev job : Action (State ℕ) ℕ
job s = (return 1, s)

tick-raises_example :
    (e : Exception) × (tick runner "*/5 * * * *" "2026-06-16T04:00:00Z" fresh ≡ (raise e, fresh))
    × (tick_recalibration (some "*/5 * * * *") (some job) "2026-06-16T04:00:00Z" fresh
        ≡ (raise e, fresh))
unfolding split parse_int
tick-raises_example =
    tick-raises "*/5 * * * *" "*/5" ("*" ∷ "*" ∷ "*" ∷ "*" ∷ []) refl refl runner job
      "2026-06-16T04:00:00Z" fresh
