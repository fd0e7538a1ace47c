-- ===== src/Quality/Gate.antt =====
-- When the quality gate lets a model through.
use free_model_orchestrator.Base.{
  ◌≡◌, refl, ◌↔◌, ◌≢◌, inl, inr, String, Bool, false, Option, none, some, string_eq, arith, subst,
  Option-cases,
}
use free_model_orchestrator.Base.Dict.{Dict, lookup}
use free_model_orchestrator.Base.Float.{Float, lt}
use mathlib.Core.Option.{some-injective}
use text.Mathlib.TextEquality.{eq_iff}
use free_model_orchestrator.Quality.{evaluate_quality_gate, is_above}

module _ (F : Float) (metrics : Dict String F.Number) (metric : String) (value : F.Number)
    (maximum_value : Option F.Number) (index_version current_version : String)
    (allow_unverified is_router : Bool) where
  abbrev decision : free_model_orchestrator.Quality.QualityGateDecision
  decision =
      evaluate_quality_gate F metrics metric value maximum_value index_version current_version
        allow_unverified is_router

  -- Not below the gate, and not above a maximum where there is one
  abbrev pub IsWithin : F.Number → Type 0
  IsWithin m =
      (lt F m value ≡ false)
      × ((maximum : F.Number) → maximum_value ≡ some maximum → lt F maximum m ≡ false)

  is_above-false :
      (m : F.Number) (bound : Option F.Number)
      → (is_above F bound m ≡ false)
        ↔ ((maximum : F.Number) → bound ≡ some maximum → lt F maximum m ≡ false)
  is_above-false m none = ((λ h maximum e. absurd (ground (arith, e))), λ h. refl)
  is_above-false m (some bound) = (
    (λ h maximum e. subst (λ b. lt F b m ≡ false) (some-injective bound maximum e) h),
    λ h. h bound refl,
  )

  -- A model passes exactly when the index version is current and its metric is present, is not
  -- less than the gate's value and not greater than a maximum that is given; no flag counts for
  -- that. A NaN is neither less nor greater.
  pub evaluate_quality_gate-passed : (decision.status ≡ "passed") ↔ (
      (index_version ≡ current_version)
      × (m : F.Number) × (lookup metric metrics ≡ some m)
      × IsWithin m)
  unfolding evaluate_quality_gate
  evaluate_quality_gate-passed = (to, from)
    where
      distinct :
          (◌≢◌ {A = String} "needs_recalibration" "passed")
          × (◌≢◌ {A = String} "below_gate" "passed")
          × (◌≢◌ {A = String} "above_band" "passed")
          × (◌≢◌ {A = String} "router_tail" "passed")
          × (◌≢◌ {A = String} "unverifiable" "passed")
      distinct = (
        ground (arith, eq_iff "needs_recalibration" "passed"),
        ground (arith, eq_iff "below_gate" "passed"),
        ground (arith, eq_iff "above_band" "passed"),
        ground (arith, eq_iff "router_tail" "passed"),
        ground (arith, eq_iff "unverifiable" "passed"),
      )

      to :
          decision.status ≡ "passed"
          → (index_version ≡ current_version)
            × (m : F.Number) × (lookup metric metrics ≡ some m)
            × IsWithin m
      to h = elim (Option-cases (lookup metric metrics)) [
        | inl e ↦ absurd (ground (arith, e, h, distinct))
        | inr (m, e) ↦ (
          ground (arith, e, h, distinct),
          m,
          e,
          (
            ground (arith, e, h, distinct),
            (is_above-false m maximum_value).0 (ground (arith, e, h, distinct)),
          ),
        )
      ]

      from :
          (index_version ≡ current_version)
            × (m : F.Number) × (lookup metric metrics ≡ some m)
            × IsWithin m
          → decision.status ≡ "passed"
      from (same, m, found, (low, high)) =
          ground (arith, same, found, low, (is_above-false m maximum_value).1 high)
