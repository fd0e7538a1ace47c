-- ===== src/Publisher/Bands.antt =====
-- The bounds that every composed pool meets.
use free_model_orchestrator.Base.{
  zero, suc, ◌<◌, ◌≡◌, refl, ◌⊎◌, inl, inr, String, Bool, true, false, Option, none, some, List, [],
  ◌∷◌, arith, string_eq,
}
use free_model_orchestrator.Base.Dict.{Dict}
use free_model_orchestrator.Base.Float.{Float, lt}
use free_model_orchestrator.Effects.{Outcome, return, raise}
use free_model_orchestrator.Json.{ℤ, pos, negsuc}
use free_model_orchestrator.Publisher.{
  RoleRow, Pool, QualityBand, or_int, or_text, min_context_tokens_of, normalized_quality_bound,
  quality_band_of, compose_pool, compose_pools, pool_with, is_publishable,
}

-- What the theorem asks of floats: 0 and 1 are in order, two numbers from 0 on can be compared, and
-- a number between 1 and 100 divided by 100 lies between 0 and 1. A NaN meets no premise of these laws,
-- so they hold of floats with a NaN too.
pub record IsScaled (F : Float) : Type 0 where
  pub zero_le_zero : F.le (F.of_nat 0) (F.of_nat 0) ≡ true
  pub zero_le_one : F.le (F.of_nat 0) (F.of_nat 1) ≡ true
  pub one_le_one : F.le (F.of_nat 1) (F.of_nat 1) ≡ true
  pub comparable :
      (x y : F.Number)
      → F.le (F.of_nat 0) x ≡ true
      → F.le (F.of_nat 0) y ≡ true
      → (F.le x y ≡ true) ⊎ (F.le y x ≡ true)
  pub scaled_low :
      (x : F.Number)
      → lt F (F.of_nat 1) x ≡ true
      → F.le (F.of_nat 0) (F.div x (F.of_nat 100)) ≡ true
  pub scaled_high :
      (x : F.Number)
      → F.le x (F.of_nat 100) ≡ true
      → F.le (F.div x (F.of_nat 100)) (F.of_nat 1) ≡ true

module _ (F : Float) where
  abbrev InUnit : F.Number → Type 0
  InUnit x = (F.le (F.of_nat 0) x ≡ true) × (F.le x (F.of_nat 1) ≡ true)

  -- The band lies within [0, 1] and is not empty; the window is positive.
  pub record IsBounded (pool : Pool F) : Type 0 where
    pub minimum_unit : InUnit pool.quality_band.minimum
    pub maximum_unit : InUnit pool.quality_band.maximum
    pub ordered : F.le pool.quality_band.minimum pool.quality_band.maximum ≡ true
    pub positive : 0 < pool.min_context_tokens

  -- A pool of each role that is published, in order, and no other.
  abbrev pub Composed : List (RoleRow F) → List (Pool F) → Type 0
  Composed [] [] = Unit
  Composed [] (p ∷ ps) = ⊥
  Composed (role ∷ roles) [] = (is_publishable F role ≡ false) × Composed roles []
  Composed (role ∷ roles) (p ∷ ps) =
      (is_publishable F role ≡ false) × Composed roles (p ∷ ps)
      ⊎ (is_publishable F role ≡ true)
        × (p.pool_id ≡ or_text role.requirements.pool_id role.id)
        × (p.consumers ≡ role.consumer_count)
        × IsBounded p
        × Composed roles ps

module _ (F : Float) (scaled : IsScaled F) where
  bound-InUnit :
      (value : Option F.Number) (default : F.Number) (label : String) (x : F.Number)
      → InUnit F default
      → normalized_quality_bound F value default label ≡ return x
      → InUnit F x
  unfolding normalized_quality_bound
  bound-InUnit none default label x d e = ground arith
  bound-InUnit (some number) default label x d e =
      ground (arith, scaled.scaled_low number, scaled.scaled_high number)

  quality_band_of-bounds :
      (role : RoleRow F) (band : QualityBand F)
      → quality_band_of F role ≡ return band
      → InUnit F band.minimum × InUnit F band.maximum × (F.le band.minimum band.maximum ≡ true)
  unfolding quality_band_of
  quality_band_of-bounds role band e =
      go (normalized_quality_bound F role.minimum_quality_value (F.of_nat 0) "min")
        (normalized_quality_bound F role.maximum_quality_value (F.of_nat 1) "max") refl refl
    where
      go :
          (low high : Outcome F.Number)
          → normalized_quality_bound F role.minimum_quality_value (F.of_nat 0) "min" ≡ low
          → normalized_quality_bound F role.maximum_quality_value (F.of_nat 1) "max" ≡ high
          → InUnit F band.minimum × InUnit F band.maximum × (F.le band.minimum band.maximum ≡ true)
      go (raise x) high el eh = absurd (ground (arith, el))
      go (return a) (raise x) el eh = absurd (ground (arith, el, eh))
      go (return a) (return b) el eh =
          let ua =
            bound-InUnit role.minimum_quality_value (F.of_nat 0) "min" a
              (scaled.zero_le_zero, scaled.zero_le_one) el in
          let ub =
            bound-InUnit role.maximum_quality_value (F.of_nat 1) "max" b
              (scaled.zero_le_one, scaled.one_le_one) eh in
          ground (arith, el, eh, ua, ub, scaled.comparable a b ua.0 ub.0)

  min_context_tokens_of-pos : (tokens : ℤ) → 0 < min_context_tokens_of tokens
  unfolding min_context_tokens_of
  min_context_tokens_of-pos (pos zero) = omega arith
  min_context_tokens_of-pos (pos (suc n)) = omega arith
  min_context_tokens_of-pos (negsuc n) = omega arith

  module _ (demand : Dict String F.Number) where
    compose_pool-parts :
        (role : RoleRow F) (pool : Pool F)
        → compose_pool F role demand ≡ return pool
        → (pool.pool_id ≡ or_text role.requirements.pool_id role.id)
          × (pool.consumers ≡ role.consumer_count)
          × IsBounded F pool
    unfolding compose_pool
    compose_pool-parts role pool e =
        go (or_int role.requirements.min_context_tokens role.requirements.minimum_context_window)
          (quality_band_of F role) refl refl
      where
        go :
            (tokens : Option ℤ) (o : Outcome (QualityBand F))
            → or_int role.requirements.min_context_tokens role.requirements.minimum_context_window
              ≡ tokens
            → quality_band_of F role ≡ o
            → (pool.pool_id ≡ or_text role.requirements.pool_id role.id)
              × (pool.consumers ≡ role.consumer_count)
              × IsBounded F pool
        go none o et eo = absurd (ground (arith, et))
        go (some tokens) (raise x) et eo = absurd (ground (arith, et, eo))
        go (some tokens) (return band) et eo =
            let built : pool_with F role demand tokens band ≡ pool = ground (arith, et, eo) in
            let (low, high, ordered) = quality_band_of-bounds role band eo in
            rw (← built) (
              refl,
              refl,
              record {
                minimum_unit = low;
                maximum_unit = high;
                ordered = ordered;
                positive = min_context_tokens_of-pos tokens;
              },
            )

    compose_pools-cons :
        (role : RoleRow F) (roles : List (RoleRow F)) (pools : List (Pool F))
        → compose_pools F (role ∷ roles) demand ≡ return pools
        → (is_publishable F role ≡ false) × (compose_pools F roles demand ≡ return pools)
          ⊎ (p : Pool F) × (rest : List (Pool F)) × (is_publishable F role ≡ true)
            × (compose_pool F role demand ≡ return p)
            × (compose_pools F roles demand ≡ return rest)
            × (pools ≡ p ∷ rest)
    unfolding compose_pools
    compose_pools-cons role roles pools e =
        go (is_publishable F role) (compose_pool F role demand) (compose_pools F roles demand) refl
          refl refl
      where
        go :
            (b : Bool) (o : Outcome (Pool F)) (os : Outcome (List (Pool F)))
            → is_publishable F role ≡ b
            → compose_pool F role demand ≡ o
            → compose_pools F roles demand ≡ os
            → (is_publishable F role ≡ false) × (compose_pools F roles demand ≡ return pools)
              ⊎ (p : Pool F) × (rest : List (Pool F)) × (is_publishable F role ≡ true)
                × (compose_pool F role demand ≡ return p)
                × (compose_pools F roles demand ≡ return rest)
                × (pools ≡ p ∷ rest)
        go false o os eb eo es = inl (eb, ground (arith, eb))
        go true (return p) (return rest) eb eo es =
            inr (p, rest, eb, eo, es, ground (arith, eb, eo, es))
        go true (return p) (raise x) eb eo es = absurd (ground (arith, eb, eo, es))
        go true (raise x) os eb eo es = absurd (ground (arith, eb, eo))

    Composed-skip :
        (role : RoleRow F) (roles : List (RoleRow F)) (pools : List (Pool F))
        → is_publishable F role ≡ false
        → Composed F roles pools
        → Composed F (role ∷ roles) pools
    Composed-skip role roles [] h c = (h, c)
    Composed-skip role roles (p ∷ ps) h c = inl (h, c)

    compose_pools-nil :
        (pools : List (Pool F)) → compose_pools F [] demand ≡ return pools → pools ≡ []
    unfolding compose_pools
    compose_pools-nil pools e = ground arith

    -- A composed generation has one pool for each role in state "active" or "bootstrap_pending", in
    -- the order of the roles and with the role's id and consumers; each pool has a positive window
    -- and a quality band that is not empty and lies within [0, 1].
    pub compose_pools-Composed :
        (roles : List (RoleRow F)) (pools : List (Pool F))
        → compose_pools F roles demand ≡ return pools
        → Composed F roles pools
    compose_pools-Composed [] pools e = rw (compose_pools-nil pools e) tt
    compose_pools-Composed (role ∷ roles) pools e = elim (compose_pools-cons role roles pools e) [
      | inl (h, er) ↦ Composed-skip role roles pools h (compose_pools-Composed roles pools er)
      | inr (p, rest, h, ep, er, eq) ↦
          let (id, consumers, bounds) = compose_pool-parts role p ep in
          rw eq (inr (h, id, consumers, bounds, compose_pools-Composed roles rest er))
    ]
