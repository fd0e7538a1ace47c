-- ===== src/Catalog/Upserts.antt =====
-- What an upsert leaves under each key.
use free_model_orchestrator.Base.{
  ℕ, ◌≡◌, refl, String, Bool, true, false, Option, none, some, List, [], ◌∷◌, ◌&&◌, ◌==◌, contains,
  string_eq, arith, if◌then◌else◌, inl, inr, Bool-cases, ◌∙◌, subst,
}
use free_model_orchestrator.Base.Float.{Float}
use free_model_orchestrator.Effects.{Outcome, return, raise}
use free_model_orchestrator.Catalog.{
  upsert_by, find_by, RoleSpec, RoleRow, inserted_role, updated_role, is_role, upsert_role,
  ConsumerSpec, ConsumerRow, inserted_consumer, updated_consumer, is_consumer, has_role,
  upsert_consumer, consumer_types, trigger_type, trigger_types,
}

equal_self : (s : String) → (s == s) ≡ true
equal_self s = ground arith

equal_texts : (s t : String) → (s == t) ≡ true → s ≡ t
equal_texts s t h = ground (arith, h)

abbrev pub updated_or {ℓ} : {A : Type ℓ} → (A → A) → A → Option A → Option A
updated_or update new none = some new
updated_or update new (some row) = some (update row)

module _ {ℓ} {A : Type ℓ} (has_key : A → Bool) (update : A → A) (new : A) where
  find_by-upsert_by :
      has_key new ≡ true
      → ((row : A) → has_key (update row) ≡ has_key row)
      → (rows : List A)
      → find_by has_key (upsert_by has_key update new rows)
        ≡ updated_or update new (find_by has_key rows)
  unfolding find_by upsert_by
  find_by-upsert_by own keeps [] = rw own refl
  find_by-upsert_by own keeps (row ∷ rows) = elim (Bool-cases (has_key row)) [
    | inl e ↦ rw e (rw (keeps row ∙ e) refl)
    | inr e ↦ rw e (rw e (find_by-upsert_by own keeps rows))
  ]

  find_by_other-upsert_by :
      (other : A → Bool)
      → ((row : A) → has_key row ≡ true → other row ≡ false)
      → other new ≡ false
      → ((row : A) → other (update row) ≡ other row)
      → (rows : List A) → find_by other (upsert_by has_key update new rows) ≡ find_by other rows
  unfolding find_by upsert_by
  find_by_other-upsert_by other apart fresh keeps [] = rw fresh refl
  find_by_other-upsert_by other apart fresh keeps (row ∷ rows) = elim (Bool-cases (has_key row)) [
    | inl e ↦ rw (e, keeps row, apart row e) refl
    | inr e ↦ rw e (rw (find_by_other-upsert_by other apart fresh keeps rows) refl)
  ]

module _ (F : Float) where
  -- After an upsert of a role the table holds under its id the row that was there with the new
  -- columns, its lifecycle and its quality columns kept where the new ones are missing, or a new
  -- "active" row; under every other id it holds what it held.
  pub find_role-upsert_role :
      (role_id : String) (new : RoleSpec F) (rows : List (RoleRow F))
      → find_by (is_role F role_id) (upsert_role F new rows) ≡ (
          if role_id == new.role_id
          then updated_or
              (updated_role F new)
              (inserted_role F new)
              (find_by (is_role F role_id) rows)
          else find_by (is_role F role_id) rows)
  unfolding upsert_role
  find_role-upsert_role role_id new rows = elim (Bool-cases (role_id == new.role_id)) [
    | inl e ↦
        rw (equal_texts role_id new.role_id e, equal_self new.role_id)
          (find_by-upsert_by (is_role F new.role_id) (updated_role F new) (inserted_role F new)
            (equal_self new.role_id) (λ row. refl) rows)
    | inr e ↦ rw e (
        find_by_other-upsert_by (is_role F new.role_id) (updated_role F new) (inserted_role F new)
          (is_role F role_id) (λ row h. ground (arith, h, e)) (ground (arith, e)) (λ row. refl)
          rows)
  ]

  -- What `upsert_consumer` does where it does not raise.
  abbrev pub Upserted : ℕ → ConsumerSpec F → List (ConsumerRow F) → List (ConsumerRow F) → Type 0
  Upserted now new before after =
      (role_id consumer_type consumer_key : String)
      → find_by (is_consumer F role_id consumer_type consumer_key) after ≡ (
          if role_id == new.role_id
            && consumer_type == new.consumer_type
            && consumer_key == new.consumer_key
          then updated_or (updated_consumer F now new) (inserted_consumer F now new)
              (find_by (is_consumer F role_id consumer_type consumer_key) before)
          else find_by (is_consumer F role_id consumer_type consumer_key) before)

  upsert_by-Upserted :
      (now : ℕ) (new : ConsumerSpec F) (rows : List (ConsumerRow F))
      → Upserted now new rows (
          upsert_by
            (is_consumer F new.role_id new.consumer_type new.consumer_key)
            (updated_consumer F now new)
            (inserted_consumer F now new)
            rows)
  upsert_by-Upserted now new rows role_id consumer_type consumer_key =
      elim (Bool-cases (
        role_id == new.role_id
        && consumer_type == new.consumer_type
        && consumer_key == new.consumer_key)) [
          | inl e ↦
              let r : role_id ≡ new.role_id = ground (arith, e) in
              let t : consumer_type ≡ new.consumer_type = ground (arith, e) in
              let k : consumer_key ≡ new.consumer_key = ground (arith, e) in
              rw
                (
                  r,
                  t,
                  k,
                  equal_self new.role_id,
                  equal_self new.consumer_type,
                  equal_self new.consumer_key,
                )
                (find_by-upsert_by (is_consumer F new.role_id new.consumer_type new.consumer_key)
                  (updated_consumer F now new) (inserted_consumer F now new)
                  (ground (
                    arith,
                    equal_self new.role_id,
                    equal_self new.consumer_type,
                    equal_self new.consumer_key,
                  ))
                  (λ row. refl) rows)
          | inr e ↦ rw e (
              find_by_other-upsert_by (is_consumer F new.role_id new.consumer_type new.consumer_key)
                (updated_consumer F now new) (inserted_consumer F now new)
                (is_consumer F role_id consumer_type consumer_key) (λ row h. ground (arith, h, e))
                (ground (arith, e)) (λ row. refl) rows)
        ]

  abbrev UpsertedIf :
      ℕ → ConsumerSpec F → List (ConsumerRow F) → Outcome (List (ConsumerRow F)) → Type 0
  UpsertedIf now new before (return after) = Upserted now new before after
  UpsertedIf now new before (raise e) = Unit

  -- An upsert of a consumer that does not raise found its role and a type that the schema allows.
  -- It leaves under the consumer's key the row that was there, active and with the new columns, or
  -- a new active row; under every other key it leaves what was there.
  pub upsert_consumer-Upserted :
      (now : ℕ) (new : ConsumerSpec F) (roles : List (RoleRow F))
      (before after : List (ConsumerRow F))
      → upsert_consumer F now new roles before ≡ return after
      → (has_role F new.role_id roles ≡ true)
        × (contains consumer_types new.consumer_type ≡ true)
        × Upserted now new before after
  unfolding upsert_consumer
  upsert_consumer-Upserted now new roles before after h =
      elim (Bool-cases
        (has_role F new.role_id roles && contains consumer_types new.consumer_type)) [
          | inl e ↦ (
            ground (arith, e),
            ground (arith, e),
            subst (λ o. UpsertedIf now new before o) (rw e at h)
                (upsert_by-Upserted now new before),
          )
          | inr e ↦ absurd (ground (arith, e, h))
        ]

each_allowed :
    (contains trigger_types "event" ≡ true)
    × (contains trigger_types "continuous" ≡ true)
    × (contains trigger_types "manual" ≡ true)
    × (contains trigger_types "interval" ≡ true)
    × (contains trigger_types "cron" ≡ true)
unfolding string_eq
each_allowed = (refl, refl, refl, refl, refl)

-- Every cadence is stored with a trigger type that the schema allows.
pub trigger_type-allowed : (cadence : String) → contains trigger_types (trigger_type cadence) ≡ true
unfolding trigger_type
trigger_type-allowed cadence = ground (arith, each_allowed)
