-- ===== src/Stages/Inventory/WithRoles.antt =====
-- The roles that the transaction of the stage "hermes-inventory" leaves.
use free_model_orchestrator.Base.{
  ◌≡◌, ◌≢◌, refl, String, true, Option, none, some, List, [], ◌∷◌, ◌==◌, ◌⊎◌, inl, inr, string_eq,
  All, Bool-cases, arith,
}
use free_model_orchestrator.Base.Dict.{Dict, lookup}
use free_model_orchestrator.Base.Float.{Float}
use free_model_orchestrator.Json.{Json}
use free_model_orchestrator.Catalog.{
  find_by, RoleSpec, RoleRow, inserted_role, updated_role, is_role, has_role, upsert_role,
}
use free_model_orchestrator.Catalog.Upserts.{updated_or, find_role-upsert_role}
use free_model_orchestrator.Hermes.{Consumer}
use free_model_orchestrator.Hermes.Anchors.{RoleQualityAnchor}
use free_model_orchestrator.Hermes.Anchors.Covered.{Has, Has-insert, Has-inserted}
use free_model_orchestrator.Stages.Inventory.{
  RoleRequirements, InspectorForecast, calls_by_role, with_forecast,
}
use free_model_orchestrator.Stages.Inventory.Written.{mark_pending, write_role, write_roles}

module _ (F : Float) where
  open F use {Number, of_nat}

  -- The table has a row under the id.
  abbrev pub HasRow : List (RoleRow F) → String → Type 0
  HasRow rows role_id = find_by (is_role F role_id) rows ≢ none

  pub HasRow-has_role :
      (rows : List (RoleRow F)) (role_id : String)
      → HasRow rows role_id
      → has_role F role_id rows ≡ true
  unfolding find_by
  HasRow-has_role [] role_id h = absurd (h refl)
  HasRow-has_role (row ∷ rows) role_id h = ground (arith, h, HasRow-has_role rows role_id)

  updated_or-given :
      (update : RoleRow F → RoleRow F) (new : RoleRow F) (found : Option (RoleRow F))
      → updated_or update new found ≢ none
  updated_or-given update new none = λ e. cc
  updated_or-given update new (some row) = λ e. cc

  HasRow-upsert_role :
      (spec : RoleSpec F) (rows : List (RoleRow F)) (other : String)
      → (other ≡ spec.role_id) ⊎ HasRow rows other
      → HasRow (upsert_role F spec rows) other
  HasRow-upsert_role spec rows other h =
      rw (find_role-upsert_role F other spec rows) (elim (Bool-cases (other == spec.role_id)) [
        | inl e ↦ rw e (
            updated_or-given (updated_role F spec) (inserted_role F spec)
              (find_by (is_role F other) rows))
        | inr e ↦ rw e (elim h [ inl same ↦ absurd (ground (arith, same, e)) | inr has ↦ has ])
      ])

  HasRow-mark_pending :
      (role_id : String) (rows : List (RoleRow F)) (other : String)
      → HasRow rows other
      → HasRow (mark_pending F role_id rows) other
  unfolding mark_pending find_by
  HasRow-mark_pending role_id [] other h = h
  HasRow-mark_pending role_id (row ∷ rows) other h =
      ground (arith, h, HasRow-mark_pending role_id rows other)

  HasRow-write_role :
      (spec : RoleSpec F) (rows : List (RoleRow F)) (other : String)
      → (other ≡ spec.role_id) ⊎ HasRow rows other
      → HasRow (write_role F spec rows) other
  unfolding write_role
  HasRow-write_role spec rows other h = elim (Bool-cases (has_role F spec.role_id rows)) [
    | inl e ↦ rw e (HasRow-upsert_role spec rows other h)
    | inr e ↦ rw e (
        HasRow-mark_pending spec.role_id (upsert_role F spec rows) other
          (HasRow-upsert_role spec rows other h))
  ]

  module _ (json_of : Number → Json) (anchors : Dict String (RoleQualityAnchor F))
      (requirements : Dict String RoleRequirements) where
    abbrev written : Dict String Number → List (RoleRow F) → List (RoleRow F)
    written = write_roles F json_of anchors requirements

    HasRow-write_roles :
        (by_role : Dict String Number) (rows : List (RoleRow F)) (other : String)
        → Has by_role other ⊎ HasRow rows other
        → HasRow (written by_role rows) other
    unfolding write_roles lookup
    HasRow-write_roles [] rows other h = elim h [ inl has ↦ absurd (has refl) | inr row ↦ row ]
    HasRow-write_roles ((role_id, calls) ∷ by_role) rows other h =
        HasRow-write_roles by_role _ other (elim (Bool-cases (other == role_id)) [
          | inl e ↦ inr (HasRow-write_role _ rows other (inl (ground (arith, e))))
          | inr e ↦ elim h [
            | inl has ↦ inl (rw e at has)
            | inr row ↦ inr (HasRow-write_role _ rows other (inr row))
          ]
        ])

  Has-calls_by_role :
      (cs : List (Consumer F)) (by_role : Dict String Number) (other : String)
      → Has by_role other
      → Has (calls_by_role F by_role cs) other
  unfolding calls_by_role
  Has-calls_by_role [] by_role other h = h
  Has-calls_by_role (c ∷ cs) by_role other h =
      Has-calls_by_role cs _ other (Has-insert by_role c.role_id other _ h)

  calls_by_role-covers :
      (cs : List (Consumer F)) (by_role : Dict String Number)
      → All (λ c. Has (calls_by_role F by_role cs) c.role_id) cs
  unfolding calls_by_role
  calls_by_role-covers [] by_role = tt
  calls_by_role-covers (c ∷ cs) by_role = (
    Has-calls_by_role cs _ c.role_id (Has-inserted by_role c.role_id _),
    calls_by_role-covers cs _,
  )

  Has-with_forecast :
      (anchors : Dict String (RoleQualityAnchor F)) (forecast : Option (InspectorForecast F))
      (by_role : Dict String Number) (other : String)
      → Has by_role other
      → Has (with_forecast F anchors forecast by_role) other
  unfolding with_forecast
  Has-with_forecast anchors none by_role other h = h
  Has-with_forecast anchors (some forecast) by_role other h = Has-insert by_role _ other _ h

  -- Every role that has a consumer has a row.
  pub write_roles-HasRow :
      (json_of : Number → Json) (anchors : Dict String (RoleQualityAnchor F))
      (requirements : Dict String RoleRequirements) (forecast : Option (InspectorForecast F))
      (cs : List (Consumer F)) (rows : List (RoleRow F))
      → All
          (λ c.
            HasRow
              (write_roles F json_of anchors requirements
                (with_forecast F anchors forecast (calls_by_role F [] cs))
                rows)
              c.role_id)
          cs
  write_roles-HasRow json_of anchors requirements forecast cs rows =
      go cs (calls_by_role-covers cs [])
    where
      go :
          (us : List (Consumer F))
          → All (λ c. Has (calls_by_role F [] cs) c.role_id) us
          → All
              (λ c.
                HasRow
                  (write_roles F json_of anchors requirements
                    (with_forecast F anchors forecast (calls_by_role F [] cs))
                    rows)
                  c.role_id)
              us
      go [] h = tt
      go (c ∷ us) (h, hs) = (
        HasRow-write_roles json_of anchors requirements _ rows c.role_id
            (inl (Has-with_forecast anchors forecast _ c.role_id h)),
        go us hs,
      )
