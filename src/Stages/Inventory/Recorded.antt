-- ===== src/Stages/Inventory/Recorded.antt =====
-- What the stage "hermes-inventory" leaves behind an inventory that it could read.
use free_model_orchestrator.Base.{
  ℕ, ◌≡◌, refl, String, Bool, true, false, Option, none, some, List, [], ◌∷◌, ◌==◌, inl, inr,
  string_eq, option_eq, contains, length, ◌++◌, if◌then◌else◌, All, Bool-cases, arith, ◌∙◌, subst,
}
use free_model_orchestrator.Base.Dict.{Dict}
use free_model_orchestrator.Base.Float.{Float}
use free_model_orchestrator.Effects.{Outcome, return, raise, raise_value_error, ◌>>=?◌}
use free_model_orchestrator.Config.{StartupConfig}
use free_model_orchestrator.Pipeline.{StageResult}
use free_model_orchestrator.Catalog.{
  InventoryRun, InventoryRuns, start_inventory_run, inventory_modes, inventory_triggers,
  complete_inventory_run,
}
use free_model_orchestrator.Catalog.Completion.{IsFresh, complete_inventory_run-start_inventory_run}
use free_model_orchestrator.Hermes.{Consumer, Inventory}
use free_model_orchestrator.Hermes.Allowed.{AreAllowed}
use free_model_orchestrator.Hermes.Allowed.Home.{
  AllowedInventory, returned, raised, build_hermes_inventory-Allowed, read_hermes_home-Allowed,
}
use free_model_orchestrator.Hermes.Home.{Sources, build_hermes_inventory}
use free_model_orchestrator.Hermes.Anchors.{RoleQualityAnchor, role_quality_anchors}
use free_model_orchestrator.Hermes.Anchors.Covered.{role_quality_anchors-covers}
use free_model_orchestrator.Stages.{effect_result}
use free_model_orchestrator.Stages.Inventory.{
  Surroundings, InventoryTables, InspectorForecast, read_hermes_inventory, inventory_hash,
  calls_by_role, with_forecast, requirements_of, run_hermes_inspector,
}
use free_model_orchestrator.Stages.Inventory.Written.{
  write_roles, record_inventory, finish_stage, store_inventory, trigger_of, hermes_inventory_stage,
}
use free_model_orchestrator.Stages.Inventory.Seen.{IsSeen, write_consumers-AreSeen}
use free_model_orchestrator.Stages.Inventory.WithRoles.{HasRow, write_roles-HasRow}

module _ (F : Float) {W : Type 0} (around : Surroundings F W) where
  -- The schema allows the mode and the types of the consumers.
  abbrev HasMode : StartupConfig → Outcome (Inventory F) → Type 0
  HasMode config (return inventory) =
      (contains inventory_modes config.hermes_inventory_mode ≡ true)
      × AreAllowed F inventory.consumers
  HasMode config (raise e) = Unit

  AllowedInventory-HasMode :
      (config : StartupConfig) (o : Outcome (Inventory F)) (given : Bool) (message : String)
      → contains inventory_modes config.hermes_inventory_mode ≡ true
      → AllowedInventory F o
      → HasMode config (if given then o else raise_value_error message)
  AllowedInventory-HasMode config o false message mode allowed = tt
  AllowedInventory-HasMode config (return inventory) true message mode (returned _ h) = (mode, h)
  AllowedInventory-HasMode config (raise e) true message mode allowed = tt

  from_sources :
      (read : Outcome Sources)
      → AllowedInventory F (read >>=? λ sources. build_hermes_inventory F around.files sources none)
  from_sources (raise e) = raised e
  from_sources (return sources) = build_hermes_inventory-Allowed F around.files sources none

  read_hermes_inventory-HasMode :
      (config : StartupConfig) → HasMode config (read_hermes_inventory F around config)
  unfolding read_hermes_inventory
  read_hermes_inventory-HasMode config =
      elim (Bool-cases (config.hermes_inventory_mode == "filesystem")) [
        | inl e ↦ rw e (
            AllowedInventory-HasMode config _ _ _ (ground (arith, e))
              (read_hermes_home-Allowed F around.files _))
        | inr f ↦ rw f (elim (Bool-cases (config.hermes_inventory_mode == "command")) [
          | inl e ↦
              rw e (AllowedInventory-HasMode config _ _ _ (ground (arith, e)) (from_sources _))
          | inr g ↦ rw g (elim (Bool-cases (config.hermes_inventory_mode == "http")) [
            | inl e ↦
                rw e (AllowedInventory-HasMode config _ _ _ (ground (arith, e)) (from_sources _))
            | inr h ↦ rw h tt
          ])
        ])
      ]

  module _ (mode trigger_type hash : String) (t : InventoryRuns)
      (m : contains inventory_modes mode ≡ true)
      (h : contains inventory_triggers trigger_type ≡ true) where
    start_inventory_run-returns :
        (run : InventoryRun) × (runs : InventoryRuns) × (start_inventory_run mode trigger_type hash
            t
          ≡ return (run, runs))
    unfolding start_inventory_run
    start_inventory_run-returns = go (start_inventory_run mode trigger_type hash t) refl
      where
        go :
            (o : Outcome (InventoryRun × InventoryRuns))
            → start_inventory_run mode trigger_type hash t ≡ o
            → (run : InventoryRun) × (runs : InventoryRuns) × (start_inventory_run mode trigger_type
                  hash t
                ≡ return (run, runs))
        go (return (run, runs)) e = (run, runs, e)
        go (raise x) e = absurd (ground (arith, m, h, e))

  trigger_of-allowed :
      (now : ℕ) (command : Option String)
      → contains inventory_triggers (trigger_of F around now command) ≡ true
  trigger_of-allowed now command = elim (Bool-cases (command == some "sync-hermes-inventory")) [
    | inl e ↦ rw e (ground arith)
    | inr e ↦ rw e (ground arith)
  ]

  module _ (now : ℕ) where
    -- Every consumer has a row that is active and was seen now, and its role has a row. Behind the
    -- runs that were there stands one that is completed, with the number of consumers.
    abbrev pub IsRecorded : List (Consumer F) → InventoryTables F → InventoryTables F → Type 0
    IsRecorded consumers before after =
        All (IsSeen F now after.role_consumers) consumers
        × All (λ c. HasRow F after.roles c.role_id) consumers
        × (run : InventoryRun) × (after.hermes_inventory_runs.rows
            ≡ before.hermes_inventory_runs.rows ++ run ∷ [])
        × (run.status ≡ "completed")
        × (run.routines_found ≡ length consumers)
        × (run.completed_at ≡ some now)

    record_inventory-IsRecorded :
        (mode trigger_type : String) (inventory : Inventory F)
        (anchors : Dict String (RoleQualityAnchor F)) (forecast : Option (InspectorForecast F))
        (t : InventoryTables F)
        → contains inventory_modes mode ≡ true
        → contains inventory_triggers trigger_type ≡ true
        → AreAllowed F inventory.consumers
        → IsFresh t.hermes_inventory_runs
        → (after : InventoryTables F) × (record_inventory F around now mode trigger_type inventory
              anchors
              (with_forecast F anchors forecast (calls_by_role F [] inventory.consumers))
              t
            ≡ return after)
          × IsRecorded inventory.consumers t after
    unfolding record_inventory
    record_inventory-IsRecorded mode trigger_type inventory anchors forecast t m h allowed fresh =
        let cs = inventory.consumers in
        let hash = inventory_hash F around mode cs in
        let requirements = requirements_of F [] cs in
        let by_role = with_forecast F anchors forecast (calls_by_role F [] cs) in
        let covered =
          write_roles-HasRow F around.json_of anchors requirements forecast cs t.roles in
        let roles = write_roles F around.json_of anchors requirements by_role t.roles in
        let (run, runs, started) =
          start_inventory_run-returns mode trigger_type hash t.hermes_inventory_runs m h in
        let (consumers, wrote, seen, _) =
          write_consumers-AreSeen F now hash roles cs t.role_consumers covered allowed in
        (
          record {
            roles = roles;
            role_consumers = consumers;
            hermes_inventory_runs =
                complete_inventory_run run.id (length by_role) (length cs) now runs;
          },
          rw started (rw wrote refl),
          (
            seen,
            covered,
            record run {
              status = "completed";
              roles_found = length by_role;
              routines_found = length cs;
              completed_at = some now;
            },
            complete_inventory_run-start_inventory_run mode trigger_type hash
                t.hermes_inventory_runs fresh run runs (length by_role) (length cs) now started,
            refl,
            refl,
            refl,
          ),
        )

    abbrev pub status_for : List (Consumer F) → String
    status_for [] = "partial_stale"
    status_for (_ ∷ _) = "success"

    finish_stage-status :
        (consumers : List (Consumer F)) (before after : InventoryTables F)
        → (result : StageResult) × (finish_stage F around now consumers before (return after)
            ≡ (return result, after))
          × (result.status ≡ status_for consumers)
    unfolding finish_stage effect_result
    finish_stage-status [] before after = (_, refl, refl)
    finish_stage-status (c ∷ cs) before after = (_, refl, refl)

    abbrev Returns :
        List (Consumer F)
        → InventoryTables F
        → Outcome StageResult × (W × InventoryTables F)
        → Type 0
    Returns consumers before ran =
        (result : StageResult) × (w' : W) × (after : InventoryTables F) × (ran
          ≡ (return result, (w', after)))
        × IsRecorded consumers before after
        × (result.status ≡ status_for consumers)

    store_inventory-Returns :
        (config : StartupConfig) (command : Option String) (inventory : Inventory F) (w : W)
        (t : InventoryTables F)
        → contains inventory_modes config.hermes_inventory_mode ≡ true
        → AreAllowed F inventory.consumers
        → IsFresh t.hermes_inventory_runs
        → Returns inventory.consumers t (store_inventory F around now config command inventory w t)
    unfolding store_inventory
    store_inventory-Returns config command inventory w t mode allowed fresh =
        let (forecast, w1) = run_hermes_inspector F around inventory w in
        let (anchors, judged, _) =
          role_quality_anchors-covers F around.inspect_text [] [] around.sha256 inventory
            (F.of_nat 20) ([], w1) in
        let (after, recorded, holds) =
          record_inventory-IsRecorded config.hermes_inventory_mode (trigger_of F around now command)
            inventory anchors forecast t mode (trigger_of-allowed now command) allowed fresh in
        let (result, finished, status) = finish_stage-status inventory.consumers t after in
        let w2 =
          (role_quality_anchors F around.inspect_text [] [] around.sha256 inventory (F.of_nat 20)
            ([], w1)).1.1 in
        (
          result,
          w2,
          after,
          rw (store_inventory, judged) (rw recorded (rw finished refl)),
          holds,
          status,
        )

    stage_reads :
        (config : StartupConfig) (command : Option String) (inventory : Inventory F) (w : W)
        (t : InventoryTables F)
        → read_hermes_inventory F around config ≡ return inventory
        → hermes_inventory_stage F around now (some config) command w t
          ≡ store_inventory F around now config command inventory w t
    unfolding hermes_inventory_stage
    stage_reads config command inventory w t read = rw (hermes_inventory_stage, read) refl

    -- From an inventory that could be read the stage returns, whatever the language model does. Every
    -- consumer then has a row that is active and was seen now, every role of a consumer has a row,
    -- and one completed run with the number of consumers stands behind the others; the status is
    -- "partial_stale" where there is no consumer and "success" otherwise.
    pub hermes_inventory_stage-IsRecorded :
        (config : StartupConfig) (command : Option String) (inventory : Inventory F) (w : W)
        (t : InventoryTables F)
        → read_hermes_inventory F around config ≡ return inventory
        → IsFresh t.hermes_inventory_runs
        → (result : StageResult) × (w' : W) × (after : InventoryTables F) × (hermes_inventory_stage
              F around now
              (some config)
              command
              w
              t
            ≡ (return result, (w', after)))
          × IsRecorded inventory.consumers t after
          × (result.status ≡ status_for inventory.consumers)
    hermes_inventory_stage-IsRecorded config command inventory w t read fresh =
        let (mode, allowed) : HasMode config (return inventory) =
          subst (HasMode config) read (read_hermes_inventory-HasMode config) in
        let (result, w', after, ran, holds, status) =
          store_inventory-Returns config command inventory w t mode allowed fresh in
        (result, w', after, stage_reads config command inventory w t read ∙ ran, holds, status)
