-- ===== src/Roles/Lifecycle.antt =====
-- What `reconcile_roles` makes of each role.
use free_model_orchestrator.Base.{
  ℕ, ◌≡◌, refl, ◌≢◌, ◌<◌, ◌-◌, ◌⊎◌, inl, inr, Bool-cases, ◌==◌, ◌&&◌, String, Bool, true, false,
  Option, none, some, List, [], ◌∷◌, ◌++◌, contains, string_eq, option_eq, if◌then◌else◌, arith,
}
use free_model_orchestrator.Base.Dict.{Dict, lookup, keys}
use free_model_orchestrator.Json.{field, str, int, pos, arr, nil, end}
use text.Mathlib.TextEquality.{eq_iff}
use free_model_orchestrator.Roles.{
  Role, reconcile_role, grace_over, unused, default_since, reconcile_known, new_roles,
  reconcile_roles, bootstrap_role,
}

lookup-append :
    (k : String) (xs ys : Dict String Role)
    → lookup k (xs ++ ys) ≡ (elim (lookup k xs) [ some v ↦ some v | none ↦ lookup k ys ])
unfolding lookup
lookup-append k [] ys = refl
lookup-append k (_ ∷ xs) ys = ground (arith, lookup-append k xs ys)

lookup-new_roles :
    (id : String) (known desired : List String)
    → lookup id (new_roles known desired) ≡ (
        if contains known id
        then none
        else if contains desired id
        then some bootstrap_role
        else none)
unfolding lookup new_roles
lookup-new_roles id known [] = ground arith
lookup-new_roles id known (d ∷ desired) = ground (arith, lookup-new_roles id known desired)

grace_over-since :
    (now grace_period : ℕ) (missing : Option (Option ℕ))
    → grace_over now grace_period missing ≡ true
    → (since : ℕ) × (missing ≡ some (some since)) × (grace_period < now - since)
grace_over-since now grace_period none h = absurd (ground (arith, h))
grace_over-since now grace_period (some none) h = absurd (ground (arith, h))
grace_over-since now grace_period (some (some since)) h = (since, refl, ground (arith, h))

unused-idle : (usage : Option ℕ) → unused usage ≡ true → (usage ≡ none) ⊎ (usage ≡ some 0)
unused-idle none h = inl refl
unused-idle (some n) h = inr (ground (arith, h))

default_since-kept :
    (now : ℕ) (missing : Option (Option ℕ)) → missing ≢ none → default_since now missing ≡ missing
default_since-kept now none h = absurd (h refl)
default_since-kept now (some since) h = refl

module _ (desired : List String) (now grace_period : ℕ) (id : String) where
  abbrev reconciled : Option Role → Option Role
  reconciled (some role) = some (reconcile_role (contains desired id) now grace_period role)
  reconciled none = if contains desired id then some bootstrap_role else none

  lookup-reconcile_known :
      (roles : Dict String Role)
      → lookup id (reconcile_known desired now grace_period roles) ≡ (elim (lookup id roles) [
        | some role ↦ some (reconcile_role (contains desired id) now grace_period role)
        | none ↦ none
      ])
  unfolding lookup reconcile_known
  lookup-reconcile_known [] = refl
  lookup-reconcile_known (_ ∷ roles) = ground (arith, lookup-reconcile_known roles)

  contains-lookup :
      (roles : Dict String Role)
      → contains (keys roles) id ≡ (elim (lookup id roles) [ some _ ↦ true | none ↦ false ])
  unfolding keys lookup
  contains-lookup [] = refl
  contains-lookup (_ ∷ roles) = ground (arith, contains-lookup roles)

  -- Retiring for longer than the grace period and not used
  pub record IsOver (role : Role) (since : ℕ) : Type 0 where
    pub retiring : role.status ≡ some "retiring"
    pub missing : role.missing_since ≡ some (some since)
    pub late : grace_period < now - since
    pub idle : (role.recent_usage ≡ none) ⊎ (role.recent_usage ≡ some 0)

  -- What stands for the role `id`, against what stood for it.
  pub data Reconciled : Option Role → Option Role → Type 0 where
    wanted :
        (role role' : Role)
        → contains desired id ≡ true
        → role'.status ≡ some "active"
        → role'.missing_since ≡ some none
        → role'.recent_usage ≡ role.recent_usage
        → role'.rest ≡ role.rest
        → Reconciled (some role) (some role')
    over :
        (role role' : Role) (since : ℕ)
        → contains desired id ≡ false
        → IsOver role since
        → role'.status ≡ some "retired_pending_delete"
        → role'.missing_since ≡ role.missing_since
        → role'.recent_usage ≡ role.recent_usage
        → role'.rest ≡ role.rest
        → Reconciled (some role) (some role')
    missed :
        (role role' : Role)
        → contains desired id ≡ false
        → ((since : ℕ) → ¬ IsOver role since)
        → role'.status ≡ some "retiring"
        → (role.missing_since ≡ none → role'.missing_since ≡ some (some now))
        → (role.missing_since ≢ none → role'.missing_since ≡ role.missing_since)
        → role'.recent_usage ≡ role.recent_usage
        → role'.rest ≡ role.rest
        → Reconciled (some role) (some role')
    added :
        (role' : Role)
        → contains desired id ≡ true
        → role'.status ≡ some "bootstrap_pending"
        → role'.missing_since ≡ some none
        → role'.recent_usage ≡ none
        → role'.rest
          ≡ field "policy_template"
              (str "default")
              (field "cold_start_demand" (int (pos 1)) (field "combo" (arr nil) end))
        → Reconciled none (some role')
    absent : contains desired id ≡ false → Reconciled none none

  abbrev is_over : Role → Bool
  is_over role =
      role.status == some "retiring"
      && grace_over now grace_period role.missing_since
      && unused role.recent_usage

  is_over-IsOver :
      (role : Role)
      → ((since : ℕ) × IsOver role since × (is_over role ≡ true))
        ⊎ (((since : ℕ) → ¬ IsOver role since) × (is_over role ≡ false))
  is_over-IsOver role = elim (Bool-cases (is_over role)) [
    | inl e ↦ inl (
        let (since, missing, late) =
          grace_over-since now grace_period role.missing_since (ground (arith, e)) in
        (
          since,
          record {
            retiring = ground (arith, e);
            missing = missing;
            late = late;
            idle = unused-idle role.recent_usage (ground (arith, e));
          },
          e,
        ))
    | inr e ↦ inr (λ since o. ground (arith, e, o.retiring, o.missing, o.late, o.idle), e)
  ]

  retire :
      (role : Role)
      → contains desired id ≡ false
      → ((since : ℕ) × IsOver role since × (is_over role ≡ true))
        ⊎ (((since : ℕ) → ¬ IsOver role since) × (is_over role ≡ false))
      → Reconciled (some role) (some (reconcile_role false now grace_period role))
  unfolding reconcile_role
  retire role unwanted (inl (since, o, e)) = rw e (over role _ since unwanted o refl refl refl refl)
  retire role unwanted (inr (none_over, e)) = rw e (
      missed role _ unwanted none_over refl (λ m. rw m refl)
        (λ m. default_since-kept now role.missing_since m) refl refl)

  reconciled-Reconciled : (old : Option Role) → Reconciled old (reconciled old)
  unfolding reconcile_role
  reconciled-Reconciled none = elim (Bool-cases (contains desired id)) [
    | inl e ↦ rw e (added bootstrap_role e refl refl refl refl)
    | inr e ↦ rw e (absent e)
  ]
  reconciled-Reconciled (some role) = elim (Bool-cases (contains desired id)) [
    | inl e ↦ rw e (wanted role _ e refl refl refl refl)
    | inr e ↦ rw e (retire role e (is_over-IsOver role))
  ]

  lookup-reconcile_roles :
      (roles : Dict String Role)
      → lookup id (reconcile_roles roles desired now grace_period) ≡ reconciled (lookup id roles)
  unfolding reconcile_roles
  lookup-reconcile_roles roles = ground (
    arith,
    lookup-append id (reconcile_known desired now grace_period roles)
        (new_roles (keys roles) desired),
    lookup-reconcile_known roles,
    lookup-new_roles id (keys roles) desired,
    contains-lookup roles,
  )

module _ (desired : List String) (now grace_period : ℕ) (id : String)
    (roles : Dict String Role) where
  -- Role by role: a desired one becomes "active" with no missing_since. One that is not desired
  -- becomes "retired_pending_delete" if it was retiring, missing for longer than the grace period
  -- and not used, and otherwise "retiring", missing from now on unless it had the key. A desired role
  -- that is not known is added as "bootstrap_pending"; no other role appears, and none is lost.
  pub reconcile_roles-Reconciled :
      Reconciled desired now grace_period id
        (lookup id roles)
        (lookup id (reconcile_roles roles desired now grace_period))
  reconcile_roles-Reconciled =
      rw (lookup-reconcile_roles desired now grace_period id roles)
        (reconciled-Reconciled desired now grace_period id (lookup id roles))

-- The transitions of one role over a list of reconciliations: whether it was desired, and when.
abbrev pub reconcile_all : ℕ → List (Bool × ℕ) → Role → Role
reconcile_all grace_period [] role = role
reconcile_all grace_period ((desired, now) ∷ rounds) role =
    reconcile_all grace_period rounds (reconcile_role desired now grace_period role)

reconcile_role-stays :
    (grace_period : ℕ) (desired : Bool) (now : ℕ) (role : Role)
    → role.missing_since ≡ some none
    → ((reconcile_role desired now grace_period role).missing_since ≡ some none)
      × ((reconcile_role desired now grace_period role).status ≢ some "retired_pending_delete")
unfolding reconcile_role
reconcile_role-stays grace_period desired now role e =
    ground
      (arith, eq_iff "active" "retired_pending_delete", eq_iff "retiring" "retired_pending_delete")

-- Once a role was desired, no later sequence of reconciliations marks it for deletion, however long
-- it is missing and unused: its key missing_since holds None, which `setdefault` keeps.
pub reconcile_all-never_deleted :
    (grace_period now : ℕ) (rounds : List (Bool × ℕ)) (role : Role)
    → (reconcile_all grace_period rounds (reconcile_role true now grace_period role)).status
      ≢ some "retired_pending_delete"
unfolding reconcile_role
reconcile_all-never_deleted grace_period now rounds role =
    go rounds _ refl (ground (arith, eq_iff "active" "retired_pending_delete"))
  where
    go :
        (rounds : List (Bool × ℕ)) (role : Role)
        → role.missing_since ≡ some none
        → role.status ≢ some "retired_pending_delete"
        → (reconcile_all grace_period rounds role).status ≢ some "retired_pending_delete"
    go [] role e ne = ne
    go ((desired, now) ∷ rounds) role e ne =
        let (e', ne') = reconcile_role-stays grace_period desired now role e in go rounds _ e' ne'
