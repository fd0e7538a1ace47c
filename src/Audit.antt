-- ===== src/Audit.antt =====
-- audit.py: the change log in memory and the rollback of a run.
mod Rollback
mod Samples
use free_model_orchestrator.Base.{
  String, Bool, true, false, List, [], ◌∷◌, ◌++◌, ◌&&◌, ◌==◌, string_eq, if◌then◌else◌,
}
use free_model_orchestrator.Base.Dict.{Dict, insert}
use free_model_orchestrator.Json.{Json}

pub record Change : Type 0 where
  pub run_id : String
  pub entity_type : String
  pub entity_id : String
  pub action : String
  pub before_json : Json
  pub after_json : Json
  pub reason_codes : List String
  pub source_refs : List String

unfoldable pub audit_change :
    (run_id entity_type entity_id : String) (before after : Json) (reasons sources : List String)
    → List Change
    → List Change
audit_change run_id entity_type entity_id before after reasons sources log =
    log
    ++ (record {
      run_id = run_id;
      entity_type = entity_type;
      entity_id = entity_id;
      action = "update";
      before_json = before;
      after_json = after;
      reason_codes = reasons;
      source_refs = sources;
    })
      ∷ []

abbrev pub is_combo_of : String → Change → Bool
is_combo_of run_id entry = entry.run_id == run_id && entry.entity_type == "combo"

-- The loop of `rollback_run`, from the dict built so far.
unfoldable pub rollback_from : String → Dict String Json → List Change → Dict String Json
rollback_from run_id restored [] = restored
rollback_from run_id restored (entry ∷ log) =
    rollback_from run_id
      (if is_combo_of run_id entry
        then insert entry.entity_id entry.before_json restored
        else restored)
      log

unfoldable pub rollback_run :
    List Change → (run_id : String) (catalog_snapshots : Json) → Dict String Json
unfolding rollback_from
rollback_run log run_id catalog_snapshots =
    rollback_from run_id (("catalog_snapshots", catalog_snapshots) ∷ []) log
