-- ===== src/Scheduler/Cron.antt =====
-- `_cron_matches` and `tick`: which fields of a cron expression count.
use free_model_orchestrator.Base.{
  ℕ, ◌≡◌, ◌≢◌, refl, Bool, String, none, some, List, ◌∷◌, ◌&&◌, arith, nat_beq,
}
use free_model_orchestrator.Effects.{return, Outcome, raise, Exception, Action}
use free_model_orchestrator.Json.{pos}
use free_model_orchestrator.Pipeline.{State, PipelineRunResult}
use free_model_orchestrator.Scheduler.{cron_matches, tick, tick_recalibration}
use free_model_orchestrator.Text.{split, after_first, parse_int}

module _ (cron timestamp minute hour time current_hour current_minute : String)
    (rest seconds : List String) (cron_fields : split b' ' cron ≡ minute ∷ hour ∷ rest)
    (timed : after_first b'T' timestamp ≡ some time)
    (time_fields : split b':' time ≡ current_hour ∷ current_minute ∷ seconds) where
  -- A cron expression whose first two fields are numbers matches the timestamps of that minute and
  -- hour, on every day: the day, month and weekday fields are not looked at.
  pub cron_matches-daily :
      (m h now_m now_h : ℕ)
      → parse_int minute ≡ some (pos m)
      → parse_int hour ≡ some (pos h)
      → parse_int current_minute ≡ some (pos now_m)
      → parse_int current_hour ≡ some (pos now_h)
      → cron_matches cron timestamp ≡ return (nat_beq m now_m && nat_beq h now_h)
  unfolding cron_matches
  cron_matches-daily m h now_m now_h em eh enm enh =
      ground (arith, cron_fields, timed, time_fields, em, eh, enm, enh)

raises_if_never : (o : Outcome Bool) → ((b : Bool) → o ≢ return b) → (e : Exception) × (o ≡ raise e)
raises_if_never (return b) never = absurd (never b refl)
raises_if_never (raise e) never = (e, refl)

module _ (cron minute : String) (rest : List String) (cron_fields : split b' ' cron ≡ minute ∷ rest)
    (not_number : parse_int minute ≡ none) where
  cron_matches-raises :
      (timestamp : String) → (e : Exception) × (cron_matches cron timestamp ≡ raise e)
  unfolding cron_matches
  cron_matches-raises timestamp =
      raises_if_never (cron_matches cron timestamp)
        (λ b h. ground (arith, cron_fields, not_number, h))

  -- A cron expression whose minute field is not a number, such as "*" or "*/5", never fires: at
  -- every timestamp, well formed or not, the tick of the pipeline and that of a recalibration raise
  -- the same exception, no run and no job starts, and nothing changes.
  pub tick-raises :
      {E A : Type 0}
      (pipeline_runner : (trigger run_type : String) → Action (State E) PipelineRunResult)
      (job : Action (State E) A) (timestamp : String) (s : State E)
      → (e : Exception) × (tick pipeline_runner cron timestamp s ≡ (raise e, s))
        × (tick_recalibration (some cron) (some job) timestamp s ≡ (raise e, s))
  unfolding tick tick_recalibration
  tick-raises pipeline_runner job timestamp s =
      let (e, raises) = cron_matches-raises timestamp in (e, rw raises refl, rw raises refl)
