-- ===== src/Stages/Inventory/Seen.antt =====
-- The rows of consumers that the stage "hermes-inventory" leaves.
use free_model_orchestrator.Base.{
  ℕ, ◌≡◌, refl, String, Bool, true, false, Option, none, some, List, [], ◌∷◌, ◌==◌, ◌&&◌, ◌⊎◌, inl,
  inr, string_eq, option_eq, contains, if◌then◌else◌, All, arith, ◌∙◌,
}
use free_model_orchestrator.Base.Float.{Float}
use free_model_orchestrator.Effects.{return}
use free_model_orchestrator.Catalog.{
  consumer_types, find_by, upsert_by, RoleRow, has_role, ConsumerSpec, ConsumerRow, is_consumer,
  inserted_consumer, updated_consumer, upsert_consumer,
}
use free_model_orchestrator.Catalog.Upserts.{updated_or, Upserted, upsert_consumer-Upserted}
use free_model_orchestrator.Hermes.{Consumer}
use free_model_orchestrator.Hermes.Allowed.{AreAllowed}
use free_model_orchestrator.Stages.Inventory.Written.{write_consumers, consumer_spec}
use free_model_orchestrator.Stages.Inventory.WithRoles.{HasRow, HasRow-has_role}

module _ (F : Float) (now : ℕ) where
  -- The consumer has a row that is active and was seen now.
  abbrev pub IsSeen : List (ConsumerRow F) → Consumer F → Type 0
  IsSeen rows c =
      (row : ConsumerRow F) × (find_by (is_consumer F c.role_id c.consumer_type c.consumer) rows
        ≡ some row)
      × (row.active ≡ true)
      × (row.last_seen_at ≡ now)

  upsert_consumer-returns :
      (new : ConsumerSpec F) (roles : List (RoleRow F)) (rows : List (ConsumerRow F))
      → has_role F new.role_id roles ≡ true
      → contains consumer_types new.consumer_type ≡ true
      → (after : List (ConsumerRow F)) × (upsert_consumer F now new roles rows ≡ return after)
  unfolding upsert_consumer
  upsert_consumer-returns new roles rows role allowed = (
    upsert_by (is_consumer F new.role_id new.consumer_type new.consumer_key)
        (updated_consumer F now new) (inserted_consumer F now new) rows,
    rw (role, allowed) refl,
  )

  IsSeen-Upserted :
      (new : ConsumerSpec F) (before after : List (ConsumerRow F)) (c : Consumer F)
      → Upserted F now new before after
      → IsSeen before c
        ⊎ ((c.role_id ≡ new.role_id)
            × (c.consumer_type ≡ new.consumer_type)
            × (c.consumer ≡ new.consumer_key))
      → IsSeen after c
  IsSeen-Upserted new before after c upserted h =
      go (find_by (is_consumer F c.role_id c.consumer_type c.consumer) before)
        (c.role_id == new.role_id
          && c.consumer_type == new.consumer_type
          && c.consumer == new.consumer_key)
        (upserted c.role_id c.consumer_type c.consumer) h (λ same. ground (arith, same))
    where
      IsOwn : Type 0
      IsOwn =
          (c.role_id ≡ new.role_id)
          × (c.consumer_type ≡ new.consumer_type)
          × (c.consumer ≡ new.consumer_key)

      go :
          (found : Option (ConsumerRow F)) (test : Bool)
          → find_by (is_consumer F c.role_id c.consumer_type c.consumer) after ≡ (
              if test
              then updated_or (updated_consumer F now new) (inserted_consumer F now new) found
              else found)
          → ((row : ConsumerRow F) × (found ≡ some row)
              × (row.active ≡ true)
              × (row.last_seen_at ≡ now))
            ⊎ IsOwn
          → (IsOwn → test ≡ true)
          → IsSeen after c
      go none true e seen own = (inserted_consumer F now new, e, refl, refl)
      go (some row) true e seen own = (updated_consumer F now new row, e, refl, refl)
      go found false e (inl (row, f, active, last)) own = (row, e ∙ f, active, last)
      go found false e (inr same) own = absurd (ground (arith, own same))

  module _ (source_hash : String) (roles : List (RoleRow F)) where
    -- The consumers are written, and each of them is seen.
    pub write_consumers-AreSeen :
        (cs : List (Consumer F)) (rows : List (ConsumerRow F))
        → All (λ c. HasRow F roles c.role_id) cs
        → AreAllowed F cs
        → (after : List (ConsumerRow F)) × (write_consumers F now source_hash roles cs rows
            ≡ return after)
          × All (IsSeen after) cs
          × ((c : Consumer F) → IsSeen rows c → IsSeen after c)
    unfolding write_consumers
    write_consumers-AreSeen [] rows h allowed = (rows, refl, tt, λ c seen. seen)
    write_consumers-AreSeen (c ∷ cs) rows (h, hs) (a, allowed) =
        let new = consumer_spec F source_hash c in
        let (mid, ran) =
          upsert_consumer-returns new roles rows (HasRow-has_role F roles c.role_id h) a in
        let (_, _, upserted) = upsert_consumer-Upserted F now new roles rows mid ran in
        let (after, wrote, seen, kept) = write_consumers-AreSeen cs mid hs allowed in
        (
          after,
          rw ran wrote,
          (kept c (IsSeen-Upserted new rows mid c upserted (inr (refl, refl, refl))), seen),
          λ other s. kept other (IsSeen-Upserted new rows mid other upserted (inl s)),
        )
