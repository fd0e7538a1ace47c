-- ===== src/Bootstrap.antt =====
-- bootstrap.py: the configuration from the environment, and the way to the dispatcher.
pub mod Boot
mod Samples
use free_model_orchestrator.Base.{
  ℕ, String, Bool, true, false, Option, none, some, List, [], ◌∷◌, ◌==◌, string_eq, if◌then◌else◌,
}
use free_model_orchestrator.Base.Dict.{Dict, lookup}
use free_model_orchestrator.Effects.{
  Outcome, return, raise, raise_value_error, Exception, ExceptionKind, value_error, Action, lift,
  pure, ◌>>=◌, ◌>>◌,
}
use free_model_orchestrator.Json.{Json, obj, Fields}
use free_model_orchestrator.Config.{StartupConfig, default_auto_router_tail, validate_static_config}

-- `values.get(key, default)`
abbrev get_default : String → String → Dict String String → String
get_default key default env = elim (lookup key env) [ some value ↦ value | none ↦ default ]

-- `_empty_to_none(values.get(key))`
abbrev pub empty_to_none : Option String → Option String
empty_to_none none = none
empty_to_none (some value) = if value == "" then none else some value

-- `env` is the mapping that is read: os.environ where the caller gives none or an empty one.
unfoldable pub build_startup_config : Dict String String → StartupConfig
unfolding lookup
build_startup_config env = record {
  omniroute_url = get_default "OMNIROUTE_URL" "" env;
  database_url = empty_to_none (lookup "DATABASE_URL" env);
  omniroute_api_key = empty_to_none (lookup "OMNIROUTE_API_KEY" env);
  hermes_inventory_mode = get_default "HERMES_INVENTORY_MODE" "filesystem" env;
  auto_router_tail = default_auto_router_tail;
  hermes_home = empty_to_none (lookup "HERMES_HOME" env);
  hermes_agents_path = empty_to_none (lookup "HERMES_AGENTS_PATH" env);
  hermes_routines_path = empty_to_none (lookup "HERMES_ROUTINES_PATH" env);
  hermes_inventory_command = empty_to_none (lookup "HERMES_INVENTORY_COMMAND" env);
  hermes_inventory_url = empty_to_none (lookup "HERMES_INVENTORY_URL" env);
  hermes_inventory_cron = get_default "HERMES_INVENTORY_CRON" "0 4 * * *" env;
}

abbrev pub check_object : Json → Outcome Fields
check_object (obj fields) = return fields
check_object _ = raise_value_error "OmniRoute health check returned non-object payload"

-- The handler of the `try`: 3 for a ValueError; any other exception passes.
abbrev pub handle : Exception → Outcome ℕ
handle e = elim e.kind [ value_error ↦ return 3 | _ ↦ raise e ]

module _ {W : Type 0} where
  -- `validate_startup` of config.py
  unfoldable pub validate_startup : StartupConfig → (health_check : Action W Json) → Action W Fields
  validate_startup config health_check = do
    lift (validate_static_config config)
    health ← health_check
    lift (check_object health)

  -- What follows the body of the `try`.
  abbrev pub after_try : Action W ℕ → Outcome Fields × W → Outcome ℕ × W
  after_try dispatch (return _, w) = dispatch w
  after_try dispatch (raise e, w) = (handle e, w)

  unfoldable pub bootstrap_and_dispatch :
      Dict String String
      → (health_check : StartupConfig → Action W Json) → (dispatcher : StartupConfig → Action W ℕ)
      → Action W ℕ
  unfolding build_startup_config validate_startup
  bootstrap_and_dispatch env health_check dispatcher w =
      let config = build_startup_config env in
      after_try (dispatcher config) (validate_startup config (health_check config) w)
