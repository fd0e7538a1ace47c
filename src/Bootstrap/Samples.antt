-- ===== src/Bootstrap/Samples.antt =====
-- A start from an environment, with a health check that answers and one that does not.
use free_model_orchestrator.Base.{ℕ, ◌≡◌, refl, String, [], ◌∷◌, string_eq}
use free_model_orchestrator.Base.Dict.{Dict}
use free_model_orchestrator.Effects.{return, raise, request_error, Action}
use free_model_orchestrator.Json.{Json, obj, end}
use free_model_orchestrator.Config.{require, validate_static_config}
use free_model_orchestrator.Bootstrap.{build_startup_config, bootstrap_and_dispatch}
use free_model_orchestrator.Bootstrap.Boot.{Booted, bootstrap_and_dispatch-Booted}

abbrev env : Dict String String
env =
    ("OMNIROUTE_URL", "http://omniroute")
    ∷ ("OMNIROUTE_API_KEY", "key")
    ∷ ("DATABASE_URL", "postgresql://db")
    ∷ ("HERMES_INVENTORY_MODE", "command")
    ∷ ("HERMES_INVENTORY_COMMAND", "hermes")
    ∷ []

abbrev healthy : Action ℕ Json
healthy w = (return (obj end), w)

abbrev down : Action ℕ Json
down w = (raise (record { kind = request_error; message = "down" }), w)

starts : bootstrap_and_dispatch env (λ _. healthy) (λ _ w. (return 0, 1)) 0 ≡ (return 0, 1)
unfolding bootstrap_and_dispatch validate_static_config require string_eq
starts = refl

raises :
    bootstrap_and_dispatch env (λ _. down) (λ _ w. (return 0, 1)) 0
    ≡ (raise (record { kind = request_error; message = "down" }), 0)
unfolding bootstrap_and_dispatch validate_static_config require string_eq
raises = refl

bootstrap_and_dispatch-Booted_example :
    Booted
      (build_startup_config env)
      healthy
      (λ _ w. (return 0, 1))
      0
      (bootstrap_and_dispatch env (λ _. healthy) (λ _ w. (return 0, 1)) 0)
bootstrap_and_dispatch-Booted_example =
    bootstrap_and_dispatch-Booted env (λ _. healthy) (λ _ w. (return 0, 1)) 0
