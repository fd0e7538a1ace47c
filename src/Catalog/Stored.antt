-- ===== src/Catalog/Stored.antt =====
-- role.py and role_consumer.py: the columns of the row that an upsert leaves.
use free_model_orchestrator.Base.{
  ℕ, ◌≡◌, ◌≢◌, refl, String, true, Option, none, some, List, ◌==◌, contains, string_eq, arith, ◌∙◌,
}
use free_model_orchestrator.Base.Float.{Float}
use free_model_orchestrator.Effects.{return}
use free_model_orchestrator.Catalog.{
  find_by, coalesce, RoleSpec, RoleRow, inserted_role, updated_role, is_role, upsert_role,
  ConsumerSpec, ConsumerRow, inserted_consumer, updated_consumer, is_consumer, has_role,
  upsert_consumer, consumer_types, trigger_type, trigger_types,
}
use free_model_orchestrator.Catalog.Upserts.{
  updated_or, find_role-upsert_role, upsert_consumer-Upserted, trigger_type-allowed,
}

equal_self : (s : String) → (s == s) ≡ true
equal_self s = ground arith

module _ (F : Float) where
  -- A column that is given, or else the one that was there
  abbrev pub Kept : {A : Type 0} → Option A → Option A → Option A → Type 0
  Kept given old column = (given ≢ none → column ≡ given) × (given ≡ none → column ≡ old)

  coalesce-Kept : {A : Type 0} (given old : Option A) → Kept given old (coalesce given old)
  coalesce-Kept none old = ((λ h. absurd (h refl)), λ h. refl)
  coalesce-Kept (some new) old = ((λ h. refl), λ h. absurd (ground (arith, h)))

  -- The row of a role after an upsert, against the row that stood under its id.
  pub data StoredRole (new : RoleSpec F) : Option (RoleRow F) → RoleRow F → Type 0 where
    inserted :
        (row : RoleRow F)
        → row.spec ≡ new
        → row.role_lifecycle_status ≡ "active"
        → row.missing_since ≡ none
        → StoredRole new none row
    updated :
        (old row : RoleRow F)
        → row.spec.role_id ≡ old.spec.role_id
        → row.spec.requirements ≡ new.requirements
        → row.spec.expected_load ≡ new.expected_load
        → row.spec.criticality ≡ new.criticality
        → Kept new.minimum_quality_metric old.spec.minimum_quality_metric
            row.spec.minimum_quality_metric
        → Kept new.minimum_quality_value old.spec.minimum_quality_value
            row.spec.minimum_quality_value
        → Kept new.maximum_quality_metric old.spec.maximum_quality_metric
            row.spec.maximum_quality_metric
        → Kept new.maximum_quality_value old.spec.maximum_quality_value
            row.spec.maximum_quality_value
        → Kept new.quality_gate_index_version old.spec.quality_gate_index_version
            row.spec.quality_gate_index_version
        → row.role_lifecycle_status ≡ old.role_lifecycle_status
        → row.missing_since ≡ old.missing_since
        → StoredRole new (some old) row

  updated_or-StoredRole :
      (new : RoleSpec F) (old : Option (RoleRow F))
      → (row : RoleRow F) × (updated_or (updated_role F new) (inserted_role F new) old ≡ some row)
        × StoredRole new old row
  updated_or-StoredRole new none =
      (inserted_role F new, refl, inserted (inserted_role F new) refl refl refl)
  updated_or-StoredRole new (some old) = (
    updated_role F new old,
    refl,
    updated old (updated_role F new old) refl refl refl refl (coalesce-Kept _ _) (coalesce-Kept _ _)
        (coalesce-Kept _ _) (coalesce-Kept _ _) (coalesce-Kept _ _) refl refl,
  )

  -- After an upsert of a role the table holds a row under its id. If there was none, the row has the
  -- columns given, is "active" and not missing. If there was one, its id and its lifecycle are kept,
  -- the requirements, load and criticality are the new ones, and each quality column is the new one
  -- where that is given and the old one otherwise. Under every other id the table holds what it held.
  pub upsert_role-StoredRole :
      (new : RoleSpec F) (rows : List (RoleRow F))
      → ((row : RoleRow F) × (find_by (is_role F new.role_id) (upsert_role F new rows) ≡ some row)
          × StoredRole new (find_by (is_role F new.role_id) rows) row)
        × ((other : String)
            → other ≢ new.role_id
            → find_by (is_role F other) (upsert_role F new rows) ≡ find_by (is_role F other) rows)
  upsert_role-StoredRole new rows =
      let (row, is, stored) = updated_or-StoredRole new (find_by (is_role F new.role_id) rows) in
      (
        (
          row,
          find_role-upsert_role F new.role_id new rows ∙ rw (equal_self new.role_id) is,
          stored,
        ),
        λ other differ. find_role-upsert_role F other new rows ∙ ground (arith, differ),
      )

  -- The row of a consumer after an upsert, against the row that stood under its key.
  pub data StoredConsumer (now : ℕ) (new : ConsumerSpec F)
      : Option (ConsumerRow F) → ConsumerRow F → Type 0 where
    inserted_row :
        (row : ConsumerRow F)
        → row.role_id ≡ new.role_id
        → row.consumer_type ≡ new.consumer_type
        → row.consumer_key ≡ new.consumer_key
        → row.first_seen_at ≡ now
        → StoredConsumer now new none row
    updated_row :
        (old row : ConsumerRow F)
        → row.role_id ≡ old.role_id
        → row.consumer_type ≡ old.consumer_type
        → row.consumer_key ≡ old.consumer_key
        → row.first_seen_at ≡ old.first_seen_at
        → StoredConsumer now new (some old) row

  -- The columns that every upsert writes.
  pub record HasColumns (now : ℕ) (new : ConsumerSpec F) (row : ConsumerRow F) : Type 0 where
    pub is_active : row.active ≡ true
    pub seen : row.last_seen_at ≡ now
    pub schedule : row.schedule_expression ≡ new.cadence
    pub trigger : row.trigger_type ≡ trigger_type new.cadence
    pub allowed : contains trigger_types row.trigger_type ≡ true
    pub calls : row.calls_per_run ≡ new.calls_per_run
    pub hash : row.source_hash ≡ new.source_hash

  updated_or-StoredConsumer :
      (now : ℕ) (new : ConsumerSpec F) (old : Option (ConsumerRow F))
      → (row : ConsumerRow F) × (updated_or
            (updated_consumer F now new)
            (inserted_consumer F now new)
            old
          ≡ some row)
        × StoredConsumer now new old row
        × HasColumns now new row
  updated_or-StoredConsumer now new none = (
    inserted_consumer F now new,
    refl,
    inserted_row (inserted_consumer F now new) refl refl refl refl,
    record {
      is_active = refl;
      seen = refl;
      schedule = refl;
      trigger = refl;
      allowed = trigger_type-allowed new.cadence;
      calls = refl;
      hash = refl;
    },
  )
  updated_or-StoredConsumer now new (some old) = (
    updated_consumer F now new old,
    refl,
    updated_row old (updated_consumer F now new old) refl refl refl refl,
    record {
      is_active = refl;
      seen = refl;
      schedule = refl;
      trigger = refl;
      allowed = trigger_type-allowed new.cadence;
      calls = refl;
      hash = refl;
    },
  )

  -- An upsert of a consumer that does not raise found its role and a type that the schema allows.
  -- Under the consumer's key stands a row that is active, seen now, with the new cadence, calls and
  -- hash, and with the trigger type of the cadence, which the schema allows; if a row was there, its
  -- key and the time when it was first seen are kept, and otherwise it is first seen now. Under
  -- every other key stands what stood there.
  pub upsert_consumer-StoredConsumer :
      (now : ℕ) (new : ConsumerSpec F) (roles : List (RoleRow F))
      (before after : List (ConsumerRow F))
      → upsert_consumer F now new roles before ≡ return after
      → (has_role F new.role_id roles ≡ true)
        × (contains consumer_types new.consumer_type ≡ true)
        × ((row : ConsumerRow F) × (find_by
                (is_consumer F new.role_id new.consumer_type new.consumer_key)
                after
              ≡ some row)
            × StoredConsumer now new
                (find_by (is_consumer F new.role_id new.consumer_type new.consumer_key) before)
                row
            × HasColumns now new row)
        × ((role_id consumer_type consumer_key : String)
            → ¬ (
                (role_id ≡ new.role_id)
                × (consumer_type ≡ new.consumer_type)
                × (consumer_key ≡ new.consumer_key))
            → find_by (is_consumer F role_id consumer_type consumer_key) after
              ≡ find_by (is_consumer F role_id consumer_type consumer_key) before)
  upsert_consumer-StoredConsumer now new roles before after h =
      let (has, allowed, at) = upsert_consumer-Upserted F now new roles before after h in
      let (row, is, stored, columns) =
        updated_or-StoredConsumer now new
          (find_by (is_consumer F new.role_id new.consumer_type new.consumer_key) before) in
      (
        has,
        allowed,
        (
          row,
          at new.role_id new.consumer_type new.consumer_key
              ∙ rw
                  (
                    equal_self new.role_id,
                    equal_self new.consumer_type,
                    equal_self new.consumer_key,
                  )
                  is,
          stored,
          columns,
        ),
        λ role_id consumer_type consumer_key differ.
            at role_id consumer_type consumer_key ∙ ground (arith, differ),
      )
