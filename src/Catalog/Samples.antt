-- ===== src/Catalog/Samples.antt =====
-- Upserts of a role and its consumer, and a run of the inventory.
use free_model_orchestrator.Base.{
  ◌≡◌, ◌≢◌, refl, String, true, none, some, [], ◌∷◌, contains, string_eq,
}
use free_model_orchestrator.Base.Float.Whole.{whole}
use free_model_orchestrator.Effects.{return}
use free_model_orchestrator.Json.{null}
use free_model_orchestrator.Catalog.{
  InventoryRun, InventoryRuns, RoleSpec, RoleRow, ConsumerSpec, ConsumerRow, is_role, is_consumer,
  find_by, upsert_role, inserted_consumer, has_role, consumer_types, upsert_consumer,
  start_inventory_run,
}
use free_model_orchestrator.Catalog.Stored.{
  StoredRole, upsert_role-StoredRole, StoredConsumer, HasColumns, upsert_consumer-StoredConsumer,
}

abbrev chat : RoleSpec whole
chat = record {
  role_id = "chat";
  requirements = null;
  expected_load = null;
  criticality = 3;
  minimum_quality_metric = none;
  minimum_quality_value = none;
  maximum_quality_metric = none;
  maximum_quality_value = none;
  quality_gate_index_version = none;
}

abbrev stored : RoleRow whole
stored = record {
  spec = record chat { minimum_quality_value = some 40; criticality = 1 };
  role_lifecycle_status = "retiring";
  missing_since = some 2;
}

keeps_quality :
    upsert_role whole chat (stored ∷ [])
    ≡ (record stored { spec = record chat { minimum_quality_value = some 40 } }) ∷ []
unfolding upsert_role string_eq
keeps_quality = refl

upsert_role-StoredRole_example :
    ((row : RoleRow whole) × (find_by (is_role whole "chat") (upsert_role whole chat (stored ∷ []))
        ≡ some row)
      × StoredRole whole chat (find_by (is_role whole "chat") (stored ∷ [])) row)
    × ((other : String)
        → other ≢ "chat"
        → find_by (is_role whole other) (upsert_role whole chat (stored ∷ []))
          ≡ find_by (is_role whole other) (stored ∷ []))
upsert_role-StoredRole_example = upsert_role-StoredRole whole chat (stored ∷ [])

abbrev job : ConsumerSpec whole
job = record {
  role_id = "chat";
  consumer_type = "cron_job";
  consumer_key = "nightly";
  cadence = "every 6h";
  calls_per_run = 4;
  source_hash = "h";
}

adds_job :
    upsert_consumer whole 7 job (stored ∷ []) [] ≡ return (inserted_consumer whole 7 job ∷ [])
unfolding upsert_consumer string_eq
adds_job = refl

upsert_consumer-StoredConsumer_example :
    (has_role whole "chat" (stored ∷ []) ≡ true)
    × (contains consumer_types "cron_job" ≡ true)
    × ((row : ConsumerRow whole) × (find_by
            (is_consumer whole "chat" "cron_job" "nightly")
            (inserted_consumer whole 7 job ∷ [])
          ≡ some row)
        × StoredConsumer whole 7 job
            (find_by (is_consumer whole "chat" "cron_job" "nightly") [])
            row
        × HasColumns whole 7 job row)
    × ((role_id consumer_type consumer_key : String)
        → ¬ ((role_id ≡ "chat") × (consumer_type ≡ "cron_job") × (consumer_key ≡ "nightly"))
        → find_by
            (is_consumer whole role_id consumer_type consumer_key)
            (inserted_consumer whole 7 job ∷ [])
          ≡ find_by (is_consumer whole role_id consumer_type consumer_key) [])
upsert_consumer-StoredConsumer_example =
    upsert_consumer-StoredConsumer whole 7 job (stored ∷ []) [] (inserted_consumer whole 7 job ∷ [])
      adds_job

abbrev no_runs : InventoryRuns
no_runs = record { rows = []; next = 0 }

abbrev run : InventoryRun
run = record {
  id = 0;
  source_mode = "http";
  trigger_type = "daily";
  source_hash = "h";
  status = "running";
  roles_found = 0;
  routines_found = 0;
  completed_at = none;
}

abbrev started : InventoryRuns
started = record { rows = run ∷ []; next = 1 }

starts : start_inventory_run "http" "daily" "h" no_runs ≡ return (run, started)
unfolding start_inventory_run string_eq
starts = refl
