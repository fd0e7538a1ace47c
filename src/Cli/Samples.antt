-- ===== src/Cli/Samples.antt =====
-- "serve" for two rounds, and with a cron that the scheduler cannot read.
use free_model_orchestrator.Base.{ℕ, ◌+◌, ◌≡◌, refl, String, false, none, some, string_eq}
use free_model_orchestrator.Effects.{return, raise_value_error, Action}
use free_model_orchestrator.Composition.Commands.{RuntimeCliResult, run_scheduler_once}
use free_model_orchestrator.Persistence.{no_runs}
use free_model_orchestrator.Pipeline.{State}
use free_model_orchestrator.Scheduler.{stale_result, cron_matches}
use free_model_orchestrator.Text.{split, after_first, parse_int}
use free_model_orchestrator.Cli.{Runners, Clock, success_with, serve_rounds, run_cli}
use free_model_orchestrator.Cli.Serving.{Served, serve_rounds-Served}

abbrev clock : Clock ℕ
clock = record { utc_timestamp = λ _. "2026-06-16T04:00:00Z"; sleep = λ w. w + 60 }

abbrev runner : String → Action ℕ RuntimeCliResult
runner _ w = (return (success_with none), w + 1)

serve_rounds-Served_example : Served clock runner 2 0 (serve_rounds clock 2 false runner 0)
serve_rounds-Served_example = serve_rounds-Served clock runner 2 0

two_rounds : serve_rounds clock 2 false runner 0 ≡ (return none, 122)
unfolding serve_rounds
two_rounds = refl

abbrev state_clock : Clock (State ℕ)
state_clock = record { utc_timestamp = λ _. "2026-06-16T04:00:00Z"; sleep = λ w. w }

abbrev state : State ℕ
state = record { runs = no_runs; env = 0 }

abbrev serving : Runners (State ℕ)
serving = record {
  pipeline_runner = none;
  diagnostics_reader = none;
  scheduler_runner = some (run_scheduler_once (λ _ _ s. (return stale_result, s)) "*/5 * * * *");
  profile_normalizer = none;
}

serve_stops :
    run_cli state_clock 9
      (record { command = "serve"; role = none; run_once = false })
      serving
      state
    ≡ (raise_value_error "invalid literal for int()", state)
unfolding run_cli run_scheduler_once cron_matches string_eq split after_first parse_int
serve_stops = refl
