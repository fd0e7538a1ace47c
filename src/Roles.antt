-- ===== src/Roles.antt =====
-- role_lifecycle.py. Times are seconds; a negative difference of times counts as 0, which no
-- comparison with a grace period of 0 or more tells apart.
pub mod Lifecycle
mod Samples
use free_model_orchestrator.Base.{
  ℕ, ◌-◌, String, Bool, true, false, not, Option, none, some, List, [], ◌∷◌, ◌++◌, ◌&&◌, ltb,
  nat_beq, ◌==◌, contains, string_eq, option_eq, if◌then◌else◌,
}
use free_model_orchestrator.Base.Dict.{Dict, keys}
use free_model_orchestrator.Json.{Fields, end, field, str, int, pos, arr, nil}

-- A role's dict. `missing_since` is `none` where the key is absent, and `some none` where it
-- holds None. `rest` holds the entries that the module only sets for a new role.
pub record Role : Type 0 where
  pub status : Option String
  pub missing_since : Option (Option ℕ)
  pub recent_usage : Option ℕ
  pub rest : Fields

-- `role.get("missing_since") and now - role["missing_since"] > grace_period`
abbrev pub grace_over : (now grace_period : ℕ) → Option (Option ℕ) → Bool
grace_over now grace_period (some (some since)) = ltb grace_period (now - since)
grace_over now grace_period _ = false

-- `role.get("recent_usage", 0) == 0`
abbrev pub unused : Option ℕ → Bool
unused none = true
unused (some n) = nat_beq n 0

-- `role.setdefault("missing_since", now)`
abbrev pub default_since : ℕ → Option (Option ℕ) → Option (Option ℕ)
default_since now none = some (some now)
default_since now (some since) = some since

-- The body of the first loop.
unfoldable pub reconcile_role : (desired : Bool) (now grace_period : ℕ) → Role → Role
reconcile_role true now grace_period role = record role {
  status = some "active";
  missing_since = some none;
}
reconcile_role false now grace_period role =
    if role.status == some "retiring"
      && grace_over now grace_period role.missing_since
      && unused role.recent_usage
    then record role { status = some "retired_pending_delete" }
    else record role {
      status = some "retiring";
      missing_since = default_since now role.missing_since;
    }

abbrev pub bootstrap_role : Role
bootstrap_role = record {
  status = some "bootstrap_pending";
  missing_since = some none;
  recent_usage = none;
  rest =
      field "policy_template" (str "default")
        (field "cold_start_demand" (int (pos 1)) (field "combo" (arr nil) end));
}

unfoldable pub reconcile_known :
    List String → (now grace_period : ℕ) → Dict String Role → Dict String Role
unfolding reconcile_role
reconcile_known desired_roles now grace_period [] = []
reconcile_known desired_roles now grace_period ((role_id, role) ∷ roles) =
    (role_id, reconcile_role (contains desired_roles role_id) now grace_period role)
    ∷ reconcile_known desired_roles now grace_period roles

-- The roles of `desired_roles - set(result)`. The order in which Python lists a set is not known;
-- here it is that of the list of desired roles.
unfoldable pub new_roles : List String → List String → Dict String Role
new_roles known [] = []
new_roles known (role_id ∷ desired) =
    if contains known role_id
    then new_roles known desired
    else (role_id, bootstrap_role) ∷ new_roles known desired

unfoldable pub reconcile_roles :
    Dict String Role → List String → (now grace_period : ℕ) → Dict String Role
unfolding reconcile_known new_roles keys
reconcile_roles roles desired_roles now grace_period =
    reconcile_known desired_roles now grace_period roles ++ new_roles (keys roles) desired_roles
