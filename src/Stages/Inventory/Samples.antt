-- ===== src/Stages/Inventory/Samples.antt =====
-- The stage on an inventory that a command prints.
use free_model_orchestrator.Base.{
  ℕ, ◌+◌, ◌≡◌, refl, String, none, some, [], ◌∷◌, string_eq, option_eq, nat_eq,
}
use free_model_orchestrator.Base.Float.Whole.{whole}
use free_model_orchestrator.Effects.{return, raise, request_error, Action}
use free_model_orchestrator.Json.{null, int, pos}
use free_model_orchestrator.Config.{StartupConfig}
use free_model_orchestrator.Pipeline.{StageResult}
use free_model_orchestrator.Hermes.{Consumer, Job, parse_cron_jobs}
use free_model_orchestrator.Hermes.Sources.{HermesFiles}
use free_model_orchestrator.Hermes.Home.{
  exited, http_error, build_hermes_inventory, read_hermes_command_sources,
}
use free_model_orchestrator.Hermes.Anchors.{IntelligenceForecastResponse}
use free_model_orchestrator.Stages.Inventory.{Surroundings, InventoryTables, read_hermes_inventory}
use free_model_orchestrator.Stages.Inventory.Written.{hermes_inventory_stage}
use free_model_orchestrator.Stages.Inventory.Recorded.{
  IsRecorded, status_for, hermes_inventory_stage-IsRecorded,
}

abbrev no_files : HermesFiles whole
no_files = record {
  text_at = λ _. none;
  directories = λ _. none;
  safe_load = λ _. return null;
  dumps = λ _. "";
  load_jobs = λ _. return [];
  load_routes = λ _. return [];
  session_demand = λ _. none;
  repr = λ _. "";
}

abbrev job : Job
job = record {
  id = some "daily";
  enabled = none;
  model = some "chat";
  schedule = record { kind = some "cron"; display = none; expr = some "0 8 * * *"; minutes = none };
  prompt = some "Write the news.";
  description = none;
}

-- A language model that never answers.
abbrev silent : String → Action ℕ IntelligenceForecastResponse
silent _ asked = (raise (record { kind = request_error; message = "down" }), asked + 1)

abbrev around : Surroundings whole ℕ
around = record {
  files = no_files;
  run_process = λ _. exited 0 "sources" "";
  get_url = λ _. http_error "unused";
  loads = λ _. some (record {
    cron_jobs = some (job ∷ []);
    webhook_subscriptions = none;
    profiles = none;
    gateway_config = none;
  });
  sha256 = λ s. s;
  show = λ _. "1.0";
  json_of = λ n. int (pos n);
  inspect_demand = none;
  inspect_text = silent;
}

abbrev config : StartupConfig
config = record {
  omniroute_url = "http://localhost";
  database_url = none;
  hermes_inventory_mode = "command";
  omniroute_api_key = none;
  auto_router_tail = [];
  hermes_home = none;
  hermes_agents_path = none;
  hermes_routines_path = none;
  hermes_inventory_command = some "hermes-inventory";
  hermes_inventory_url = none;
  hermes_inventory_cron = "0 3 * * *";
}

abbrev daily : Consumer whole
daily = record {
  role_id = "chat";
  consumer_type = "cron_job";
  consumer = "daily";
  cadence = "0 8 * * *";
  calls_per_run = 1;
  describing_text = "Write the news.";
  required_capabilities = [];
  minimum_context_window = 0;
}

abbrev tables : InventoryTables whole
tables = record {
  roles = [];
  role_consumers = [];
  hermes_inventory_runs = record { rows = []; next = 0 };
}

printed : read_hermes_inventory whole around config ≡ return (record { consumers = daily ∷ [] })
unfolding read_hermes_inventory build_hermes_inventory read_hermes_command_sources string_eq nat_eq
    option_eq parse_cron_jobs
printed = refl

hermes_inventory_stage-IsRecorded_example :
    (result : StageResult) × (w' : ℕ) × (after : InventoryTables whole) × (hermes_inventory_stage
        whole around 7
        (some config)
        none
        0
        tables
      ≡ (return result, (w', after)))
    × IsRecorded whole around 7 (daily ∷ []) tables after
    × (result.status ≡ status_for whole around 7 (daily ∷ []))
hermes_inventory_stage-IsRecorded_example =
    hermes_inventory_stage-IsRecorded whole around 7 config none (record { consumers = daily ∷ [] })
      0 tables printed tt
