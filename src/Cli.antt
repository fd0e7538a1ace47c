-- ===== src/Cli.antt =====
-- cli.py from the parsed arguments on: the dispatch of a command and the loop of "serve". The
-- runners are actions on a state; `none` stands for one that was not given.
mod Serving
mod Samples
use free_model_orchestrator.Base.{
  ℕ, zero, suc, String, Bool, true, false, Option, none, some, List, [], ◌∷◌, ◌==◌, ◌||◌, contains,
  string_eq, if◌then◌else◌,
}
use free_model_orchestrator.Effects.{Outcome, return, raise, Action, pure, and_then, ◌>>=◌}
use free_model_orchestrator.Composition.Commands.{RuntimeCliResult}

pub record Args : Type 0 where
  pub command : String
  pub role : Option String
  pub run_once : Bool

abbrev pub pipeline_commands : List String
pipeline_commands = "sync-hermes-inventory" ∷ "reconcile-roles" ∷ "forecast-demand" ∷ []

abbrev pub success_with : Option String → RuntimeCliResult
success_with output = record {
  exit_code = 0;
  changed = false;
  combo_test_called = false;
  error_reason = none;
  output = output;
}

abbrev pub validation_failed : String → RuntimeCliResult
validation_failed reason = record {
  exit_code = 3;
  changed = false;
  combo_test_called = false;
  error_reason = some reason;
  output = none;
}

pub record Runners (W : Type 0) : Type 0 where
  pub pipeline_runner : Option (String → Action W RuntimeCliResult)
  pub diagnostics_reader : Option (String → String → Action W String)
  pub scheduler_runner : Option (String → Action W RuntimeCliResult)
  pub profile_normalizer : Option (Action W RuntimeCliResult)

-- The clock and `time.sleep(60)`
pub record Clock (W : Type 0) : Type 0 where
  pub utc_timestamp : W → String
  pub sleep : W → W

module _ {W : Type 0} where
  abbrev finished : Action W RuntimeCliResult → Action W (Option RuntimeCliResult)
  finished m = do result ← m; pure (some result)

  -- `_run_profile_normalization`
  unfoldable pub run_profile_normalization :
      Option (Action W RuntimeCliResult) → Action W RuntimeCliResult
  run_profile_normalization none = pure (validation_failed "profile_normalizer_required")
  run_profile_normalization (some normalizer) = normalizer

  abbrev read_with : String → Option (String → String → Action W String) → Action W RuntimeCliResult
  read_with identifier none = pure (success_with none)
  read_with identifier (some reader) = do
    output ← reader "role" identifier
    pure (success_with (some output))

  -- `_run_diagnostics`
  unfoldable pub run_diagnostics :
      Option String → Option (String → String → Action W String) → Action W RuntimeCliResult
  run_diagnostics none reader = pure (validation_failed "role_required")
  run_diagnostics (some identifier) reader =
      if identifier == ""
      then pure (validation_failed "role_required")
      else read_with identifier reader

  abbrev run_command_with :
      String → Option (String → Action W RuntimeCliResult) → Action W RuntimeCliResult
  run_command_with command none = pure (success_with none)
  run_command_with command (some runner) = runner command

module _ {W : Type 0} (clock : Clock W) where
  -- What follows a call of the runner in `while True`.
  abbrev pub next_round :
      Bool
      → Action W (Option RuntimeCliResult)
      → RuntimeCliResult
      → Action W (Option RuntimeCliResult)
  next_round run_once more result w =
      if run_once then (return (some result), w) else more (clock.sleep w)

  -- A number of rounds of `while True`: `none` where they have passed and the loop goes on.
  unfoldable pub serve_rounds :
      ℕ
      → (run_once : Bool) → (String → Action W RuntimeCliResult)
      → Action W (Option RuntimeCliResult)
  serve_rounds zero run_once runner w = (return none, w)
  serve_rounds (suc rounds) run_once runner w =
      let (o, w1) = runner (clock.utc_timestamp w) w in
      and_then o (next_round run_once (serve_rounds rounds run_once runner)) w1

  -- `_run_scheduler`
  unfoldable pub run_scheduler :
      ℕ → Bool → Option (String → Action W RuntimeCliResult) → Action W (Option RuntimeCliResult)
  unfolding serve_rounds
  run_scheduler rounds run_once none = pure (some (success_with none))
  run_scheduler rounds run_once (some runner) = serve_rounds rounds run_once runner

  -- `run_cli` on the parsed arguments, with the rounds that "serve" is followed for.
  unfoldable pub run_cli : ℕ → Args → Runners W → Action W (Option RuntimeCliResult)
  unfolding run_scheduler run_profile_normalization run_diagnostics
  run_cli rounds args runners =
      if args.command == "normalize-profiles"
      then finished (run_profile_normalization runners.profile_normalizer)
      else if args.command == "serve"
      then run_scheduler rounds args.run_once runners.scheduler_runner
      else if args.command == "explain-role"
      then finished (run_diagnostics args.role runners.diagnostics_reader)
      else if contains pipeline_commands args.command || args.command == "full"
      then finished (run_command_with args.command runners.pipeline_runner)
      else pure (some (success_with none))
