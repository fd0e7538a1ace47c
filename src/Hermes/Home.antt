-- ===== src/Hermes/Home.antt =====
-- hermes_inventory.py: the whole inventory, from HERMES_HOME, from a command or over HTTP. What the
-- process and the server answer, and the decoding of their JSON, are arguments.
use free_model_orchestrator.Base.{
  ℕ, String, Option, none, some, List, [], ◌++◌, ◌==◌, leb, nat_eq, if◌then◌else◌,
}
use free_model_orchestrator.Base.Dict.{Dict}
use free_model_orchestrator.Base.Float.{Float}
use free_model_orchestrator.Effects.{Outcome, return, ◌>>=?◌}
use free_model_orchestrator.Json.{Fields}
use free_model_orchestrator.Text.{strip, show_nat}
use free_model_orchestrator.Hermes.{
  Inventory, Job, Route, Profile, parse_cron_jobs, parse_webhook_subscriptions, inventory_failure,
  or_default,
}
use free_model_orchestrator.Hermes.Sources.{
  HermesFiles, path_join, parse_profiles, enumerate_live_profiles, read_yaml_file,
}
use free_model_orchestrator.Hermes.Gateway.{parse_gateway_services}

-- The keyword arguments of `build_hermes_inventory` but for the connection.
pub record Sources : Type 0 where
  pub cron_jobs : Option (List Job)
  pub webhook_subscriptions : Option (Dict String Route)
  pub profiles : Option (List Profile)
  pub gateway_config : Option Fields

abbrev pub if_given {ℓ κ} :
    {A : Type ℓ} {B : Type κ} → Option A → (A → Outcome (List B)) → Outcome (List B)
if_given none parse = return []
if_given (some payload) parse = parse payload

-- What `subprocess.run` does: it raises OSError or TimeoutExpired, or the process ended.
pub data Completed : Type 0 where
  os_error : String → Completed
  timeout_expired : String → Completed
  exited : (returncode : ℕ) → (stdout stderr : String) → Completed

-- What `httpx.get` does.
pub data Fetched : Type 0 where
  http_error : String → Fetched
  response : (status_code : ℕ) → (body : String) → Fetched

module _ (F : Float) where
  open F use {Number}

  module _ (files : HermesFiles F) where
    -- `build_hermes_inventory`; without a connection no demand was observed.
    unfoldable pub build_hermes_inventory :
        Sources → Option (Outcome (Dict String Number)) → Outcome (Inventory F)
    unfolding parse_webhook_subscriptions
    build_hermes_inventory sources connection =
        elim connection [ none ↦ return [] | some observed ↦ observed ] >>=? λ demand_by_role.
        if_given sources.cron_jobs (parse_cron_jobs F demand_by_role) >>=? λ jobs.
        if_given sources.webhook_subscriptions
          (λ routes. return (parse_webhook_subscriptions F demand_by_role routes))
        >>=? λ webhooks.
            if_given sources.profiles (parse_profiles F files demand_by_role) >>=? λ profiles.
            if_given sources.gateway_config (parse_gateway_services (files.repr) F demand_by_role)
            >>=? λ services.
                return (record { consumers = jobs ++ webhooks ++ profiles ++ services })

    abbrev pub load_if {ℓ} : {A : Type ℓ} → String → (String → Outcome A) → Outcome (Option A)
    load_if path load = elim (files.text_at path) [
      | none ↦ return none
      | some text ↦ load text >>=? λ value. return (some value)
    ]

    -- `read_hermes_home`
    unfoldable pub read_hermes_home : (home : String) → Outcome (Inventory F)
    read_hermes_home home =
        read_yaml_file F files (path_join home "config.yaml") >>=? λ gateway_config.
        load_if (path_join (path_join home "cron") "jobs.json") (files.load_jobs) >>=? λ cron_jobs.
        load_if (path_join home "webhook_subscriptions.json") (files.load_routes) >>=? λ routes.
        enumerate_live_profiles F files home >>=? λ profiles.
        build_hermes_inventory
          (record {
            cron_jobs = cron_jobs;
            webhook_subscriptions = routes;
            profiles = some profiles;
            gateway_config = gateway_config;
          })
          (files.session_demand (path_join home "state.db"))

-- `none` stands for a text that is not JSON.
abbrev decoded {ℓ} : {A : Type ℓ} → String → Option A → Outcome A
decoded source none = inventory_failure source "invalid_json" ""
decoded source (some value) = return value

module _ {ℓ} {A : Type ℓ} (loads : String → Option A) where
  -- `read_hermes_command_sources` on what the process did
  unfoldable pub read_hermes_command_sources : Completed → Outcome A
  unfolding inventory_failure strip
  read_hermes_command_sources (os_error detail) =
      inventory_failure "command" "execution_failed" detail
  read_hermes_command_sources (timeout_expired detail) =
      inventory_failure "command" "timeout" detail
  read_hermes_command_sources (exited returncode stdout stderr) =
      if returncode == 0
      then decoded "command" (loads stdout)
      else inventory_failure "command" "nonzero_exit"
          (or_default (some (strip stderr)) (strip stdout))

  -- `read_hermes_http_sources` on what the server answered
  unfoldable pub read_hermes_http_sources : Fetched → Outcome A
  unfolding inventory_failure show_nat
  read_hermes_http_sources (http_error detail) = inventory_failure "http" "request_failed" detail
  read_hermes_http_sources (response status_code body) =
      if leb 400 status_code
      then inventory_failure "http" "http_error" (show_nat status_code)
      else decoded "http" (loads body)
