-- ===== src/Roles/Samples.antt =====
-- Roles over a few reconciliations.
use free_model_orchestrator.Base.{
  ◌≡◌, refl, ◌≢◌, String, true, false, none, some, [], ◌∷◌, string_eq, option_eq,
}
use free_model_orchestrator.Base.Dict.{Dict, lookup}
use free_model_orchestrator.Json.{end}
use free_model_orchestrator.Roles.{Role, reconcile_role, reconcile_roles}
use free_model_orchestrator.Roles.Lifecycle.{
  Reconciled, reconcile_roles-Reconciled, reconcile_all, reconcile_all-never_deleted,
}

abbrev plain : Role
plain = record { status = some "active"; missing_since = none; recent_usage = none; rest = end }

-- A role that was never desired is marked for deletion after the grace period.
deleted_later :
    (reconcile_all 10 ((false, 100) ∷ (false, 111) ∷ []) plain).status
    ≡ some "retired_pending_delete"
unfolding reconcile_role string_eq option_eq
deleted_later = refl

abbrev roles : Dict String Role
roles = ("chat", plain) ∷ []

reconcile_roles-Reconciled_example :
    Reconciled
      ("code" ∷ [])
      100
      10
      "code"
      (lookup "code" roles)
      (lookup "code" (reconcile_roles roles ("code" ∷ []) 100 10))
reconcile_roles-Reconciled_example = reconcile_roles-Reconciled ("code" ∷ []) 100 10 "code" roles

reconcile_all-never_deleted_example :
    (reconcile_all 10 ((false, 100) ∷ (false, 1000) ∷ []) (reconcile_role true 50 10 plain)).status
    ≢ some "retired_pending_delete"
reconcile_all-never_deleted_example =
    reconcile_all-never_deleted 10 50 ((false, 100) ∷ (false, 1000) ∷ []) plain
