-- ===== src/Stages/Lifecycle.antt =====
-- The stage "role-lifecycle" settles every role in one run.
use free_model_orchestrator.Base.{
  ℕ, ◌≡◌, ◌≢◌, ◌↔◌, ◌⊎◌, inl, inr, Bool-cases, ◌&&◌, ◌==◌, subst, refl, String, true, false, List,
  [], ◌∷◌, contains, string_eq, arith,
}
use text.Mathlib.TextEquality.{eq_iff}
use free_model_orchestrator.Base.Float.{Float}
use free_model_orchestrator.Stages.{
  RoleRecord, ConsumerRecord, StageTables, is_retiring, is_live, update_role, update_roles,
  desired_roles, effect_result, role_lifecycle_stage,
}

active_stays : is_retiring "active" ≡ false
unfolding string_eq
active_stays = refl

active_is_not_retiring :
    (◌≢◌ {A = String} "active" "retiring") × (◌≢◌ {A = String} "active" "retired_pending_delete")
active_is_not_retiring = (
  ground (arith, eq_iff "active" "retiring"),
  ground (arith, eq_iff "active" "retired_pending_delete"),
)

not_live :
    (◌≢◌ {A = String} "retiring" "active") × (◌≢◌ {A = String} "retiring" "bootstrap_pending")
not_live = (
  ground (arith, eq_iff "retiring" "active"),
  ground (arith, eq_iff "retiring" "bootstrap_pending"),
)

retiring_is_not_live : is_live "retiring" ≡ false
unfolding string_eq
retiring_is_not_live = refl

update_role_again :
    (desired : List String) (now later : ℕ) (role : RoleRecord)
    → update_role desired later (update_role desired now role).0
      ≡ ((update_role desired now role).0, false)
unfolding update_role
update_role_again desired now later role = ground (arith, active_stays, retiring_is_not_live)

update_roles_again :
    (desired : List String) (now later : ℕ) (roles : List RoleRecord)
    → update_roles desired later (update_roles desired now roles).0
      ≡ ((update_roles desired now roles).0, 0)
unfolding update_roles
update_roles_again desired now later [] = refl
update_roles_again desired now later (role ∷ roles) =
    rw (update_role_again desired now later role, update_roles_again desired now later roles) refl

pub record IsSettled (Wanted : String → Type 0) (before after : RoleRecord) : Type 0 where
  pub same : after.id ≡ before.id
  pub wanted :
      Wanted before.id
      → (after.role_lifecycle_status ≢ "retiring")
        × (after.role_lifecycle_status ≢ "retired_pending_delete")
  pub unwanted :
      ¬ Wanted before.id
      → (after.role_lifecycle_status ≢ "active")
        × (after.role_lifecycle_status ≢ "bootstrap_pending")

abbrev pub AreSettled : (String → Type 0) → List RoleRecord → List RoleRecord → Type 0
AreSettled Wanted [] [] = Unit
AreSettled Wanted (b ∷ bs) (a ∷ rest) = IsSettled Wanted b a × AreSettled Wanted bs rest
AreSettled Wanted _ _ = ⊥

module _ (Wanted : String → Type 0) (desired : List String)
    (is_desired : (id : String) → (contains desired id ≡ true) ↔ Wanted id) (now : ℕ) where
  update_role-IsSettled :
      (role : RoleRecord) → IsSettled Wanted role (update_role desired now role).0
  unfolding update_role
  update_role-IsSettled role = record {
    same = ground arith;
    wanted = λ w. ground (arith, (is_desired role.id).1 w, active_is_not_retiring);
    unwanted = λ u. ground (arith, unwanted_lem role.id u, not_live);
  }
    where
      unwanted_lem : (id : String) → ¬ Wanted id → contains desired id ≡ false
      unwanted_lem id u = elim (Bool-cases (contains desired id)) [
        | inl e ↦ absurd (u ((is_desired id).0 e))
        | inr e ↦ e
      ]

  update_roles-AreSettled :
      (roles : List RoleRecord) → AreSettled Wanted roles (update_roles desired now roles).0
  unfolding update_roles
  update_roles-AreSettled [] = tt
  update_roles-AreSettled (role ∷ roles) =
      (update_role-IsSettled role, update_roles-AreSettled roles)

module _ (F : Float) where
  -- A second run of the stage on what the first left changes nothing and says so.
  pub role_lifecycle_stage_again :
      (now later : ℕ) (t : StageTables F)
      → let settled = (role_lifecycle_stage F now t).1 in
        role_lifecycle_stage F later settled ≡ (effect_result "role-lifecycle" false, settled)
  unfolding role_lifecycle_stage
  role_lifecycle_stage_again now later t =
      rw (update_roles_again (desired_roles F t.role_consumers) now later t.roles) refl

  -- A consumer of this role that is active
  abbrev pub HasActive : List (ConsumerRecord F) → String → Type 0
  HasActive [] id = ⊥
  HasActive (c ∷ cs) id = ((c.active ≡ true) × (c.role_id ≡ id)) ⊎ HasActive cs id

  desired_roles-HasActive :
      (cs : List (ConsumerRecord F)) (id : String)
      → (contains (desired_roles F cs) id ≡ true) ↔ HasActive cs id
  unfolding desired_roles
  desired_roles-HasActive [] id = ((λ h. ground (arith, h)), λ h. absurd h)
  desired_roles-HasActive (c ∷ cs) id =
      let later = desired_roles-HasActive cs id in
      (
        λ h. elim (Bool-cases (c.active && c.role_id == id)) [
          | inl e ↦ inl (ground (arith, e), ground (arith, e))
          | inr e ↦ inr (later.0 (ground (arith, h, e)))
        ],
        λ w. elim w [
          | inl (active, same) ↦
              subst (λ i. contains (desired_roles F (c ∷ cs)) i ≡ true) same
                (ground (arith, active))
          | inr k ↦ ground (arith, later.1 k)
        ],
      )

  -- After the stage a role with an active consumer is neither "retiring" nor marked for deletion,
  -- and one without is neither "active" nor "bootstrap_pending"; no role is added or lost.
  pub role_lifecycle_stage-AreSettled :
      (now : ℕ) (t : StageTables F)
      → AreSettled (HasActive t.role_consumers) t.roles (role_lifecycle_stage F now t).1.roles
  unfolding role_lifecycle_stage
  role_lifecycle_stage-AreSettled now t =
      update_roles-AreSettled (HasActive t.role_consumers) (desired_roles F t.role_consumers)
        (desired_roles-HasActive t.role_consumers) now t.roles
