-- ===== src/Stages/Inventory/Written.antt =====
-- The transaction of the stage "hermes-inventory", and the stage. What the transaction raises leaves
-- the tables as they were.
use free_model_orchestrator.Base.{
  ℕ, String, Bool, true, false, Option, none, some, List, [], ◌∷◌, ◌==◌, string_eq, option_eq,
  if◌then◌else◌, length,
}
use free_model_orchestrator.Base.Dict.{Dict, lookup, get_or}
use free_model_orchestrator.Base.Float.{Float}
use free_model_orchestrator.Effects.{
  Outcome, return, raise, ExceptionKind, value_error, inventory_error, ◌>>=?◌,
}
use free_model_orchestrator.Json.{
  Json, Items, nil, cons, Fields, end, field, str, int, pos, arr, obj,
}
use free_model_orchestrator.Config.{StartupConfig}
use free_model_orchestrator.Pipeline.{StageResult}
use free_model_orchestrator.Catalog.{
  start_inventory_run, complete_inventory_run, RoleSpec, RoleRow, upsert_role, has_role, is_role,
  ConsumerSpec, ConsumerRow, upsert_consumer,
}
use free_model_orchestrator.Hermes.{Consumer, Inventory}
use free_model_orchestrator.Hermes.Anchors.{RoleQualityAnchor, role_quality_anchors}
use free_model_orchestrator.Stages.{effect_result}
use free_model_orchestrator.Stages.Inventory.{
  RoleRequirements, no_requirements, InventoryTables, Surroundings, read_hermes_inventory,
  run_hermes_inspector, inventory_hash, calls_by_role, requirements_of, with_forecast,
}

abbrev inventory_failed : String → StageResult
inventory_failed reason = record {
  status = "validation_failed";
  idempotency_key = none;
  changed = false;
  reason = some reason;
  details = end;
}

abbrev pub partial_stale : String → StageResult
partial_stale reason = record {
  status = "partial_stale";
  idempotency_key = none;
  changed = false;
  reason = some reason;
  details = end;
}

unfoldable pub texts_json : List String → Items
texts_json [] = nil
texts_json (s ∷ ss) = cons (str s) (texts_json ss)

module _ (F : Float) where
  open F use {Number, of_nat}

  -- `UPDATE roles SET role_lifecycle_status = 'bootstrap_pending' WHERE id = role_id`
  unfoldable pub mark_pending : String → List (RoleRow F) → List (RoleRow F)
  mark_pending role_id [] = []
  mark_pending role_id (row ∷ rows) =
      let rest = mark_pending role_id rows in
      if is_role F role_id row
      then (record row { role_lifecycle_status = "bootstrap_pending" }) ∷ rest
      else row ∷ rest

  -- The body of the loop over `by_role`
  unfoldable pub write_role : RoleSpec F → List (RoleRow F) → List (RoleRow F)
  unfolding upsert_role mark_pending
  write_role spec rows =
      if has_role F spec.role_id rows
      then upsert_role F spec rows
      else mark_pending spec.role_id (upsert_role F spec rows)

  module _ (json_of : Number → Json) where
    abbrev anchor_json : RoleQualityAnchor F → Json
    unfolding texts_json
    anchor_json anchor = obj (
        field "axis" (str anchor.capability_axis) (
          field "tier" (str anchor.tier) (
            field "anchor" (json_of anchor.anchor) (
              field "confidence" (str anchor.confidence) (
                field "source" (str anchor.source)
                  (field "content_hashes" (arr (texts_json anchor.content_hashes)) end))))))

    abbrev anchor_fields : Option (RoleQualityAnchor F) → Fields
    unfolding anchor_json
    anchor_fields none = end
    anchor_fields (some anchor) = field "quality_anchor" (anchor_json anchor) end

    abbrev requirements_json : RoleRequirements → Option (RoleQualityAnchor F) → Json
    unfolding texts_json anchor_fields
    requirements_json requirements anchor = obj (
        field "capabilities" (arr (texts_json requirements.capabilities)) (
          field "minimum_context_window" (int (pos requirements.minimum_context_window))
            (anchor_fields anchor)))

    abbrev map_option : {A B : Type 0} → (A → B) → Option A → Option B
    map_option f none = none
    map_option f (some a) = some (f a)

    -- What the stage gives to `roles.upsert`
    unfoldable pub role_spec :
        String → Number → RoleRequirements → Option (RoleQualityAnchor F) → RoleSpec F
    unfolding requirements_json
    role_spec role_id calls requirements anchor = record {
      role_id = role_id;
      requirements = requirements_json requirements anchor;
      expected_load = obj (field "requests" (json_of calls) end);
      criticality = 1;
      minimum_quality_metric = map_option (λ a. a.capability_axis) anchor;
      minimum_quality_value = map_option (λ a. a.anchor) anchor;
      maximum_quality_metric = map_option (λ a. a.capability_axis) anchor;
      maximum_quality_value = map_option (λ a. a.anchor) anchor;
      quality_gate_index_version = map_option (λ _. "intelligence-inspector-v1") anchor;
    }

    module _ (anchors : Dict String (RoleQualityAnchor F))
        (requirements : Dict String RoleRequirements) where
      unfoldable pub write_roles : Dict String Number → List (RoleRow F) → List (RoleRow F)
      unfolding lookup role_spec write_role
      write_roles [] rows = rows
      write_roles ((role_id, calls) ∷ by_role) rows = write_roles by_role (
          write_role
            (role_spec role_id calls (get_or role_id no_requirements requirements)
              (lookup role_id anchors))
            rows)

  abbrev pub consumer_spec : String → Consumer F → ConsumerSpec F
  consumer_spec source_hash c = record {
    role_id = c.role_id;
    consumer_type = c.consumer_type;
    consumer_key = c.consumer;
    cadence = c.cadence;
    calls_per_run = c.calls_per_run;
    source_hash = source_hash;
  }

  unfoldable pub write_consumers :
      ℕ
      → String
      → List (RoleRow F)
      → List (Consumer F)
      → List (ConsumerRow F)
      → Outcome (List (ConsumerRow F))
  unfolding upsert_consumer
  write_consumers now source_hash roles [] rows = return rows
  write_consumers now source_hash roles (c ∷ cs) rows =
      upsert_consumer F now (consumer_spec source_hash c) roles rows >>=? λ rows.
      write_consumers now source_hash roles cs rows

  module _ {W : Type 0} (around : Surroundings F W) (now : ℕ) where
    -- The transaction: what it raises leaves the tables as they were.
    unfoldable pub record_inventory :
        (mode trigger_type : String)
        → Inventory F
        → Dict String (RoleQualityAnchor F)
        → Dict String Number
        → InventoryTables F
        → Outcome (InventoryTables F)
    unfolding inventory_hash requirements_of write_roles write_consumers
    record_inventory mode trigger_type inventory anchors by_role t =
        let hash = inventory_hash F around mode inventory.consumers in
        let roles =
          write_roles around.json_of anchors (requirements_of F [] inventory.consumers) by_role
            t.roles in
        start_inventory_run mode trigger_type hash t.hermes_inventory_runs >>=? λ (run, runs).
        write_consumers now hash roles inventory.consumers t.role_consumers >>=? λ consumers.
        return (record {
          roles = roles;
          role_consumers = consumers;
          hermes_inventory_runs =
              complete_inventory_run run.id (length by_role) (length inventory.consumers) now runs;
        })

    unfoldable pub finish_stage :
        List (Consumer F)
        → InventoryTables F
        → Outcome (InventoryTables F)
        → Outcome StageResult × InventoryTables F
    unfolding effect_result
    finish_stage consumers t (raise e) = (raise e, t)
    finish_stage [] t (return t') = (return (partial_stale "hermes_inventory_empty"), t')
    finish_stage (_ ∷ _) t (return t') = (return (effect_result "hermes-inventory" true), t')

    abbrev pub trigger_of : Option String → String
    trigger_of command = if command == some "sync-hermes-inventory" then "manual" else "daily"

    -- What the stage does with the inventory that it read; the texts are judged on a new cache.
    unfoldable pub store_inventory :
        StartupConfig
        → Option String
        → Inventory F
        → W
        → InventoryTables F
        → Outcome StageResult × (W × InventoryTables F)
    unfolding run_hermes_inspector role_quality_anchors calls_by_role with_forecast record_inventory
        finish_stage
    store_inventory config command inventory w t =
        let (forecast, w1) = run_hermes_inspector F around inventory w in
        let (judged, (cache, w2)) =
          role_quality_anchors F around.inspect_text [] [] around.sha256 inventory (of_nat 20)
            ([], w1) in
        elim judged [
          | raise e ↦ (raise e, (w2, t))
          | return anchors ↦
              let by_role =
                with_forecast F anchors forecast (calls_by_role F [] inventory.consumers) in
              let (result, t') = finish_stage inventory.consumers t (
                record_inventory config.hermes_inventory_mode (trigger_of command) inventory anchors
                  by_role t) in
              (result, (w2, t'))
        ]

    abbrev pub is_caught : ExceptionKind → Bool
    is_caught value_error = true
    is_caught inventory_error = true
    is_caught _ = false

    -- `_hermes_inventory_stage`; `command` is `context.config.get("command")`.
    unfoldable pub hermes_inventory_stage :
        Option StartupConfig
        → Option String
        → W
        → InventoryTables F
        → Outcome StageResult × (W × InventoryTables F)
    hermes_inventory_stage none command w t =
        (return (inventory_failed "startup_config_required"), (w, t))
    hermes_inventory_stage (some config) command w t =
        elim (read_hermes_inventory F around config) [
          | raise e ↦
              if is_caught e.kind
              then (return (inventory_failed e.message), (w, t))
              else (raise e, (w, t))
          | return inventory ↦ store_inventory config command inventory w t
        ]
