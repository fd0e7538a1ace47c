-- ===== src/Bootstrap/Boot.antt =====
-- The ways out of `bootstrap_and_dispatch`.
use free_model_orchestrator.Base.{ℕ, ◌≡◌, ◌≢◌, ◌⊎◌, inl, inr, refl, String, subst, sym, arith}
use free_model_orchestrator.Base.Dict.{Dict}
use free_model_orchestrator.Effects.{
  Outcome, return, raise, raise_value_error, Exception, value_error, Action, and_then,
}
use free_model_orchestrator.Json.{Json, Fields, obj}
use free_model_orchestrator.Config.{StartupConfig, validate_static_config}
use free_model_orchestrator.Config.Checks.{
  Checked, passed, failed, IsValid, validate_static_config-Checked,
}
use free_model_orchestrator.Bootstrap.{
  build_startup_config, check_object, handle, after_try, validate_startup, bootstrap_and_dispatch,
}

handle-kind :
    (e : Exception)
    → ((e.kind ≡ value_error) × (handle e ≡ return 3))
      ⊎ ((e.kind ≢ value_error) × (handle e ≡ raise e))
handle-kind e = ground arith

module _ {W : Type 0} (config : StartupConfig) (health_check : Action W Json)
    (dispatcher : StartupConfig → Action W ℕ) (w : W) where
  -- A refused configuration, an unhealthy OmniRoute, a health check that raised, and a dispatch.
  pub data Booted : Outcome ℕ × W → Type 0 where
    refused :
        (message : String)
        → validate_static_config config ≡ raise_value_error message
        → Booted (return 3, w)
    unhealthy :
        (health : Json) (e : Exception) (w1 : W)
        → IsValid config
        → health_check w ≡ (return health, w1)
        → check_object health ≡ raise e
        → Booted (return 3, w1)
    unreached :
        (e : Exception) (w1 : W)
        → IsValid config
        → health_check w ≡ (raise e, w1)
        → e.kind ≡ value_error
        → Booted (return 3, w1)
    left :
        (e : Exception) (w1 : W)
        → IsValid config
        → health_check w ≡ (raise e, w1)
        → e.kind ≢ value_error
        → Booted (raise e, w1)
    dispatched :
        (fields : Fields) (w1 : W)
        → IsValid config
        → health_check w ≡ (return (obj fields), w1)
        → Booted (dispatcher config w1)

  after_health :
      (o : Outcome Json) (w1 : W)
      → IsValid config
      → health_check w ≡ (o, w1)
      → Booted
          (after_try (dispatcher config) (and_then o (λ health w2. (check_object health, w2)) w1))
  after_health (raise e) w1 valid h = go (handle-kind e)
    where
      go :
          ((e.kind ≡ value_error) × (handle e ≡ return 3))
            ⊎ ((e.kind ≢ value_error) × (handle e ≡ raise e))
          → Booted (handle e, w1)
      go (inl (k, is)) = subst (λ o. Booted (o, w1)) (sym is) (unreached e w1 valid h k)
      go (inr (k, is)) = subst (λ o. Booted (o, w1)) (sym is) (left e w1 valid h k)
  after_health (return health) w1 valid h = go health h
    where
      go :
          (health : Json)
          → health_check w ≡ (return health, w1)
          → Booted (after_try (dispatcher config) (check_object health, w1))
      go (obj fields) h = dispatched fields w1 valid h
      go free_model_orchestrator.Json.null h = unhealthy _ _ w1 valid h refl
      go (free_model_orchestrator.Json.bool _) h = unhealthy _ _ w1 valid h refl
      go (free_model_orchestrator.Json.int _) h = unhealthy _ _ w1 valid h refl
      go (free_model_orchestrator.Json.decimal _ _) h = unhealthy _ _ w1 valid h refl
      go (free_model_orchestrator.Json.str _) h = unhealthy _ _ w1 valid h refl
      go (free_model_orchestrator.Json.arr _) h = unhealthy _ _ w1 valid h refl

  validate_startup-Booted :
      Booted (after_try (dispatcher config) (validate_startup config health_check w))
  unfolding validate_startup
  validate_startup-Booted =
      go (validate_static_config config) (validate_static_config-Checked config) refl
    where
      go :
          (o : Outcome (Unit {0}))
          → Checked (IsValid config) o
          → validate_static_config config ≡ o
          → Booted (
              after_try (dispatcher config) (
                and_then o
                  (λ _ w1.
                    and_then
                      (health_check w1).0
                      (λ health w2. (check_object health, w2))
                      (health_check w1).1)
                  w))
      go _ (passed valid) e = after_health (health_check w).0 (health_check w).1 valid refl
      go _ (failed message) e = refused message e

module _ {W : Type 0} (env : Dict String String) (health_check : StartupConfig → Action W Json)
    (dispatcher : StartupConfig → Action W ℕ) (w : W) where
  -- The dispatcher runs only with a valid configuration and after a health check that returned an
  -- object. A configuration that is refused ends with exit code 3 before the health check; so does,
  -- after it, a health check that returned something else or raised ValueError. Any other exception
  -- of the health check leaves the program.
  pub bootstrap_and_dispatch-Booted :
      Booted
        (build_startup_config env)
        (health_check (build_startup_config env))
        dispatcher
        w
        (bootstrap_and_dispatch env health_check dispatcher w)
  unfolding bootstrap_and_dispatch
  bootstrap_and_dispatch-Booted =
      validate_startup-Booted (build_startup_config env) (health_check (build_startup_config env))
        dispatcher w
