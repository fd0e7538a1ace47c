-- ===== src/Hermes.antt =====
-- hermes_inventory.py: consumers from the sources of Hermes. The records of jobs, routes and
-- profiles hold the keys that the module reads, at the types that Hermes writes; `none` stands for
-- an absent key and for null, except that a null "enabled" of a job is `some false`. The files
-- config.yaml are JSON values, since the code asks for their types. `F` is Python's float.
pub mod Auxiliary
pub mod Sources
pub mod Gateway
pub mod Home
pub mod Allowed
pub mod Anchors
pub mod Grid
mod Samples
use free_model_orchestrator.Base.{
  ℕ, zero, suc, String, Bool, true, false, not, Option, none, some, List, [], ◌∷◌, ◌++◌, ◌&&◌, ◌||◌,
  ◌==◌, ◌<>◌, contains, string_eq, option_eq, if◌then◌else◌,
}
use free_model_orchestrator.Base.Dict.{Dict, lookup}
use free_model_orchestrator.Base.Float.{Float}
use free_model_orchestrator.Effects.{Outcome, return, raise, key_error, inventory_error, ◌>>=?◌}
use free_model_orchestrator.Json.{Json, Fields}
use free_model_orchestrator.Text.{show_nat}

-- `a or b` on texts, of which `none` is None
abbrev pub or_else : Option String → Option String → Option String
or_else none b = b
or_else (some a) b = if a == "" then b else some a

abbrev pub or_default : Option String → String → String
or_default none b = b
or_default (some a) b = if a == "" then b else a

abbrev pub default_role : String
default_role = "default"

-- `_combo_role`
unfoldable pub combo_role : Option String → String
combo_role combo = or_default combo default_role

pub record Schedule : Type 0 where
  pub kind : Option String
  pub display : Option String
  pub expr : Option String
  pub minutes : Option ℕ

pub record Job : Type 0 where
  pub id : Option String
  pub enabled : Option Bool
  pub model : Option String
  pub schedule : Schedule
  pub prompt : Option String
  pub description : Option String

pub record Route : Type 0 where
  pub enabled : Option Bool
  pub events : List String

-- `main_combo` is `none` where the record has no such key.
pub record Profile : Type 0 where
  pub name : Option String
  pub path : Option String
  pub gateway_running : Bool
  pub main_combo : Option (Option String)
  pub auxiliary : Fields

abbrev pub enabled_or_absent : Option Bool → Bool
enabled_or_absent none = true
enabled_or_absent (some b) = b

abbrev pub show_minutes : Option ℕ → String
show_minutes none = "None"
show_minutes (some n) = show_nat n

-- `_cron_cadence`
unfoldable pub cron_cadence : Schedule → String
cron_cadence schedule =
    if schedule.kind == some "interval"
    then or_default schedule.display ("every " <> show_minutes schedule.minutes <> "m")
    else if schedule.kind == some "cron"
    then or_default (or_else schedule.expr schedule.display) "cron"
    else if schedule.kind == some "once"
    then "once"
    else "unknown"

-- `",".join(events)`
unfoldable pub join : String → List String → String
join separator [] = ""
join separator (s ∷ []) = s
join separator (s ∷ t ∷ rest) = s <> separator <> join separator (t ∷ rest)

abbrev pub event_cadence : List String → String
unfolding join
event_cadence [] = "event-driven"
event_cadence (event ∷ events) = "event:" <> join "," (event ∷ events)

abbrev pub required {ℓ} : {A : Type ℓ} → String → Option A → Outcome A
required key none = raise (record { kind = key_error; message = key })
required key (some value) = return value

-- `raise HermesInventoryError(source, reason, detail)`; its text is that of its three arguments.
unfoldable pub inventory_failure {ℓ} : {A : Type ℓ} → (source reason detail : String) → Outcome A
inventory_failure source reason detail = raise (record {
  kind = inventory_error;
  message = "('" <> source <> "', '" <> reason <> "', '" <> detail <> "')";
})

module _ (F : Float) where
  open F use {Number, of_nat}

  pub record Consumer : Type 0 where
    pub role_id : String
    pub consumer_type : String
    pub consumer : String
    pub cadence : String
    pub calls_per_run : Number
    pub describing_text : String
    pub required_capabilities : List String
    pub minimum_context_window : ℕ

  pub record Inventory : Type 0 where
    pub consumers : List Consumer

  -- `demand_by_role.get(role, BOOTSTRAP_CALLS_PER_RUN)`
  abbrev pub calls_of : Dict String Number → String → Number
  calls_of demand_by_role role = elim (lookup role demand_by_role) [
    | some calls ↦ calls
    | none ↦ of_nat 1
  ]

  abbrev cron_consumer : Dict String Number → Job → String → Consumer
  cron_consumer demand_by_role job id = record {
    role_id = combo_role job.model;
    consumer_type = "cron_job";
    consumer = id;
    cadence = cron_cadence job.schedule;
    calls_per_run = calls_of demand_by_role (combo_role job.model);
    describing_text = or_default (or_else job.prompt job.description) "";
    required_capabilities = [];
    minimum_context_window = 0;
  }

  -- `parse_cron_jobs` on the list of jobs: a disabled job is passed over.
  unfoldable pub parse_cron_jobs : Dict String Number → List Job → Outcome (List Consumer)
  unfolding lookup combo_role cron_cadence
  parse_cron_jobs demand_by_role [] = return []
  parse_cron_jobs demand_by_role (job ∷ jobs) =
      let rest = parse_cron_jobs demand_by_role jobs in
      if enabled_or_absent job.enabled
      then (required "id" job.id >>=? λ id.
          rest >>=? λ consumers. return (cron_consumer demand_by_role job id ∷ consumers))
      else rest

  -- `parse_webhook_subscriptions`
  unfoldable pub parse_webhook_subscriptions :
      Dict String Number → Dict String Route → List Consumer
  unfolding lookup
  parse_webhook_subscriptions demand_by_role [] = []
  parse_webhook_subscriptions demand_by_role ((name, route) ∷ routes) =
      let rest = parse_webhook_subscriptions demand_by_role routes in
      if enabled_or_absent route.enabled
      then record {
        role_id = default_role;
        consumer_type = "webhook";
        consumer = name;
        cadence = event_cadence route.events;
        calls_per_run = calls_of demand_by_role default_role;
        describing_text = "";
        required_capabilities = [];
        minimum_context_window = 0;
      }
        ∷ rest
      else rest
