-- ===== src/Config/Samples.antt =====
-- URLs, cron fields, and a configuration that passes.
use free_model_orchestrator.Base.{◌≡◌, refl, true, none, some, string_eq}
use free_model_orchestrator.Effects.{return}
use free_model_orchestrator.Config.{
  StartupConfig, default_auto_router_tail, urlparse, valid_cron, require, validate_static_config,
}
use free_model_orchestrator.Config.Checks.{Checked, IsValid, validate_static_config-Checked}

parses :
    urlparse " HTTP://omniroute:20128/v1" ≡ record { scheme = "http"; netloc = "omniroute:20128" }
unfolding urlparse
parses = refl

no_scheme : urlparse "localhost:20128" ≡ record { scheme = "localhost"; netloc = "" }
unfolding urlparse
no_scheme = refl

cron_is_not_read : valid_cron "*/5 a b c d" ≡ true
unfolding valid_cron string_eq
cron_is_not_read = refl

abbrev pub config : StartupConfig
config = record {
  omniroute_url = "http://omniroute:20128";
  database_url = some "postgresql://db";
  hermes_inventory_mode = "command";
  omniroute_api_key = some "key";
  auto_router_tail = default_auto_router_tail;
  hermes_home = none;
  hermes_agents_path = none;
  hermes_routines_path = none;
  hermes_inventory_command = some "hermes";
  hermes_inventory_url = none;
  hermes_inventory_cron = "0 4 * * *";
}

passes : validate_static_config config ≡ return tt
unfolding validate_static_config require string_eq
passes = refl

validate_static_config-Checked_example : Checked (IsValid config) (validate_static_config config)
validate_static_config-Checked_example = validate_static_config-Checked config
