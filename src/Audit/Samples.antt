-- ===== src/Audit/Samples.antt =====
-- A run that changes one combo twice, and two runs that change it.
use free_model_orchestrator.Base.{◌≡◌, String, some, none, List, [], string_eq, ◌==◌, if◌then◌else◌}
use free_model_orchestrator.Base.Dict.{lookup}
use free_model_orchestrator.Json.{str, null}
use free_model_orchestrator.Audit.{Change, audit_change, rollback_run}
use free_model_orchestrator.Audit.Rollback.{
  rollback_run-audit_change_twice, rollback_run-Restored, Restored,
}

abbrev log : List Change
log =
    audit_change "r2" "combo" "combo-1" (str "b") (str "c") [] []
      (audit_change "r1" "combo" "combo-1" (str "a") (str "b") [] [] [])

rollback_run-Restored_example :
    Restored "r1" "combo-1" log
      (if ◌==◌ {A = String} "combo-1" "catalog_snapshots" then some null else none)
      (lookup "combo-1" (rollback_run log "r1" null))
rollback_run-Restored_example = rollback_run-Restored "r1" "combo-1" log null

rollback_run-audit_change_twice_example :
    lookup "combo-1" (
      rollback_run
        (audit_change "r1" "combo" "combo-1"
          (str "b")
          (str "c")
          []
          []
          (audit_change "r1" "combo" "combo-1" (str "a") (str "b") [] [] []))
        "r1"
        null)
    ≡ some (str "b")
rollback_run-audit_change_twice_example =
    rollback_run-audit_change_twice "r1" "combo-1" [] (str "a") (str "b") (str "c") [] [] null
