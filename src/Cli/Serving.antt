-- ===== src/Cli/Serving.antt =====
-- How the loop of "serve" ends.
use free_model_orchestrator.Base.{
  ℕ, zero, suc, ◌<◌, ◌≡◌, refl, String, false, Option, none, string_eq, arith,
}
use free_model_orchestrator.Effects.{Outcome, return, raise, Exception, Action, and_then}
use free_model_orchestrator.Composition.Commands.{RuntimeCliResult}
use free_model_orchestrator.Cli.{Clock, next_round, serve_rounds}

module _ {W : Type 0} (clock : Clock W) (runner : String → Action W RuntimeCliResult) where
  -- `v` is the state after a number of rounds that all returned.
  abbrev pub Passed : ℕ → W → W → Type 0
  Passed zero w v = v ≡ w
  Passed (suc rounds) w v =
      (result : RuntimeCliResult) × (w1 : W) × (runner (clock.utc_timestamp w) w
        ≡ (return result, w1))
      × Passed rounds (clock.sleep w1) v

  -- Still serving after all the rounds, or stopped by an exception of the runner.
  pub data Served (rounds : ℕ) (w : W) : Outcome (Option RuntimeCliResult) × W → Type 0 where
    serving : (v : W) → Passed rounds w v → Served rounds w (return none, v)
    stopped :
        (k : ℕ) (v w1 : W) (e : Exception)
        → k < rounds
        → Passed k w v
        → runner (clock.utc_timestamp v) v ≡ (raise e, w1)
        → Served rounds w (raise e, w1)

  Served-suc :
      (rounds : ℕ) (w w1 : W) (result : RuntimeCliResult)
      {o : Outcome (Option RuntimeCliResult) × W}
      → runner (clock.utc_timestamp w) w ≡ (return result, w1)
      → Served rounds (clock.sleep w1) o
      → Served (suc rounds) w o
  Served-suc rounds w w1 result h (serving v passed) = serving v (result, w1, h, passed)
  Served-suc rounds w w1 result h (stopped k v w2 e lt passed raised) =
      stopped (suc k) v w2 e (omega (arith, lt)) (result, w1, h, passed) raised

  -- Without --run-once the loop of "serve" never gives a result: after any number of rounds it goes
  -- on, all of them having returned, or one of them raised and the loop ended with that exception.
  pub serve_rounds-Served :
      (rounds : ℕ) (w : W) → Served rounds w (serve_rounds clock rounds false runner w)
  unfolding serve_rounds
  serve_rounds-Served zero w = serving w refl
  serve_rounds-Served (suc rounds) w =
      let ran = runner (clock.utc_timestamp w) w in
      go ran.0 ran.1 refl (λ v. serve_rounds-Served rounds v)
    where
      go :
          (o : Outcome RuntimeCliResult) (w1 : W)
          → runner (clock.utc_timestamp w) w ≡ (o, w1)
          → ((v : W) → Served rounds v (serve_rounds clock rounds false runner v))
          → Served
              (suc rounds)
              w
              (and_then o (next_round clock false (serve_rounds clock rounds false runner)) w1)
      go (return result) w1 h ih = Served-suc rounds w w1 result h (ih (clock.sleep w1))
      go (raise e) w1 h ih = stopped 0 w w1 e (omega arith) refl h
