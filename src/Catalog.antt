-- ===== src/Catalog.antt =====
-- persistence/role.py and role_consumer.py on the tables roles, role_consumers and
-- hermes_inventory_runs, with the defaults, CHECKs and keys of reference/db/schema.sql that bear on
-- the columns written. Times of the database clock are an argument `now`; ids are numbers.
pub mod Upserts
pub mod Stored
pub mod Completion
mod Samples
use free_model_orchestrator.Base.{
  ℕ, ◌+◌, String, Bool, true, false, Option, none, some, List, [], ◌∷◌, ◌++◌, ◌&&◌, ◌==◌, contains,
  string_eq, nat_eq, if◌then◌else◌, map,
}
use free_model_orchestrator.Base.Float.{Float}
use free_model_orchestrator.Effects.{Outcome, return, raise, integrity_error}
use free_model_orchestrator.Json.{Json}
use text.Mathlib.Text.{starts_with}

-- INSERT ... ON CONFLICT (key) DO UPDATE: the row with the key is updated in place, or added.
unfoldable pub upsert_by {ℓ} : {A : Type ℓ} → (A → Bool) → (A → A) → A → List A → List A
upsert_by has_key update new [] = new ∷ []
upsert_by has_key update new (row ∷ rows) =
    let rest = upsert_by has_key update new rows in
    if has_key row then update row ∷ rows else row ∷ rest

-- SELECT ... WHERE key
unfoldable pub find_by {ℓ} : {A : Type ℓ} → (A → Bool) → List A → Option A
find_by has_key [] = none
find_by has_key (row ∷ rows) = if has_key row then some row else find_by has_key rows

-- COALESCE(EXCLUDED.column, roles.column)
abbrev pub coalesce {ℓ} : {A : Type ℓ} → Option A → Option A → Option A
coalesce (some new) old = some new
coalesce none old = old

-- `_trigger_type`
unfoldable pub trigger_type : String → String
trigger_type cadence =
    if starts_with cadence "event"
    then "event"
    else if cadence == "continuous"
    then "continuous"
    else if cadence == "manual"
    then "manual"
    else if starts_with cadence "every"
    then "interval"
    else "cron"

abbrev pub consumer_types : List String
consumer_types = "agent_profile" ∷ "cron_job" ∷ "webhook" ∷ "service" ∷ "auxiliary" ∷ []

abbrev pub trigger_types : List String
trigger_types = "cron" ∷ "interval" ∷ "event" ∷ "manual" ∷ "continuous" ∷ []

-- A row of hermes_inventory_runs.
pub record InventoryRun : Type 0 where
  pub id : ℕ
  pub source_mode : String
  pub trigger_type : String
  pub source_hash : String
  pub status : String
  pub roles_found : ℕ
  pub routines_found : ℕ
  pub completed_at : Option ℕ

pub record InventoryRuns : Type 0 where
  pub rows : List InventoryRun
  pub next : ℕ

abbrev pub inventory_modes : List String
inventory_modes = "filesystem" ∷ "command" ∷ "http" ∷ []

abbrev pub inventory_triggers : List String
inventory_triggers = "daily" ∷ "manual" ∷ "unknown_role" ∷ []

abbrev violates {ℓ} : {A : Type ℓ} → String → Outcome A
violates message = raise (record { kind = integrity_error; message = message })

-- `start_inventory_run` returns the new row with the table.
unfoldable pub start_inventory_run :
    (source_mode trigger_type source_hash : String)
    → InventoryRuns
    → Outcome (InventoryRun × InventoryRuns)
start_inventory_run source_mode trigger_type source_hash t =
    let row : InventoryRun = record {
      id = t.next;
      source_mode = source_mode;
      trigger_type = trigger_type;
      source_hash = source_hash;
      status = "running";
      roles_found = 0;
      routines_found = 0;
      completed_at = none;
    } in
    if contains inventory_modes source_mode && contains inventory_triggers trigger_type
    then return (row, record { rows = t.rows ++ row ∷ []; next = t.next + 1 })
    else violates "check constraint of hermes_inventory_runs"

abbrev pub complete_row : (run_id roles_found consumers_found now : ℕ) → InventoryRun → InventoryRun
complete_row run_id roles_found consumers_found now row =
    if row.id == run_id
    then record row {
      status = "completed";
      roles_found = roles_found;
      routines_found = consumers_found;
      completed_at = some now;
    }
    else row

-- `complete_inventory_run`: an UPDATE of a run that is not there changes nothing.
unfoldable pub complete_inventory_run :
    (run_id roles_found consumers_found now : ℕ) → InventoryRuns → InventoryRuns
complete_inventory_run run_id roles_found consumers_found now t = record t {
  rows = map (complete_row run_id roles_found consumers_found now) t.rows;
}

module _ (F : Float) where
  open F use {Number}

  -- What `RoleRepository.upsert` is given.
  pub record RoleSpec : Type 0 where
    pub role_id : String
    pub requirements : Json
    pub expected_load : Json
    pub criticality : ℕ
    pub minimum_quality_metric : Option String
    pub minimum_quality_value : Option Number
    pub maximum_quality_metric : Option String
    pub maximum_quality_value : Option Number
    pub quality_gate_index_version : Option String

  pub record RoleRow : Type 0 where
    pub spec : RoleSpec
    pub role_lifecycle_status : String
    pub missing_since : Option ℕ

  abbrev pub inserted_role : RoleSpec → RoleRow
  inserted_role spec = record {
    spec = spec;
    role_lifecycle_status = "active";
    missing_since = none;
  }

  -- The SET of the UPDATE; the columns of the lifecycle are not in it.
  abbrev pub updated_role : RoleSpec → RoleRow → RoleRow
  updated_role new row = record row {
    spec = record new {
      role_id = row.spec.role_id;
      minimum_quality_metric = coalesce new.minimum_quality_metric row.spec.minimum_quality_metric;
      minimum_quality_value = coalesce new.minimum_quality_value row.spec.minimum_quality_value;
      maximum_quality_metric = coalesce new.maximum_quality_metric row.spec.maximum_quality_metric;
      maximum_quality_value = coalesce new.maximum_quality_value row.spec.maximum_quality_value;
      quality_gate_index_version =
          coalesce new.quality_gate_index_version row.spec.quality_gate_index_version;
    };
  }

  abbrev pub is_role : String → RoleRow → Bool
  is_role role_id row = row.spec.role_id == role_id

  -- `RoleRepository.upsert`
  unfoldable pub upsert_role : RoleSpec → List RoleRow → List RoleRow
  unfolding upsert_by
  upsert_role new = upsert_by (is_role new.role_id) (updated_role new) (inserted_role new)

  -- What `RoleConsumerRepository.upsert` is given.
  pub record ConsumerSpec : Type 0 where
    pub role_id : String
    pub consumer_type : String
    pub consumer_key : String
    pub cadence : String
    pub calls_per_run : Number
    pub source_hash : String

  pub record ConsumerRow : Type 0 where
    pub role_id : String
    pub consumer_type : String
    pub consumer_key : String
    pub trigger_type : String
    pub schedule_expression : String
    pub calls_per_run : Number
    pub source_hash : String
    pub first_seen_at : ℕ
    pub last_seen_at : ℕ
    pub active : Bool

  abbrev pub inserted_consumer : ℕ → ConsumerSpec → ConsumerRow
  inserted_consumer now new = record {
    role_id = new.role_id;
    consumer_type = new.consumer_type;
    consumer_key = new.consumer_key;
    trigger_type = free_model_orchestrator.Catalog.trigger_type new.cadence;
    schedule_expression = new.cadence;
    calls_per_run = new.calls_per_run;
    source_hash = new.source_hash;
    first_seen_at = now;
    last_seen_at = now;
    active = true;
  }

  abbrev pub updated_consumer : ℕ → ConsumerSpec → ConsumerRow → ConsumerRow
  updated_consumer now new row = record row {
    trigger_type = free_model_orchestrator.Catalog.trigger_type new.cadence;
    schedule_expression = new.cadence;
    calls_per_run = new.calls_per_run;
    source_hash = new.source_hash;
    last_seen_at = now;
    active = true;
  }

  abbrev pub is_consumer : (role_id consumer_type consumer_key : String) → ConsumerRow → Bool
  is_consumer role_id consumer_type consumer_key row =
      row.role_id == role_id
      && row.consumer_type == consumer_type
      && row.consumer_key == consumer_key

  abbrev pub has_role : String → List RoleRow → Bool
  has_role role_id [] = false
  has_role role_id (row ∷ rows) = if is_role role_id row then true else has_role role_id rows

  -- `RoleConsumerRepository.upsert`: the role has to be there, and the type is checked.
  unfoldable pub upsert_consumer :
      ℕ → ConsumerSpec → List RoleRow → List ConsumerRow → Outcome (List ConsumerRow)
  unfolding upsert_by trigger_type
  upsert_consumer now new roles consumers =
      if has_role new.role_id roles && contains consumer_types new.consumer_type
      then return (
          upsert_by (is_consumer new.role_id new.consumer_type new.consumer_key)
            (updated_consumer now new) (inserted_consumer now new) consumers)
      else violates "constraint of role_consumers"
