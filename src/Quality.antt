-- ===== src/Quality.antt =====
-- quality.py: the quality gate. `F` is Python's float.
mod Gate
mod Samples
use free_model_orchestrator.Base.{
  String, Bool, true, false, not, Option, none, some, ◌&&◌, ◌==◌, string_eq, if◌then◌else◌,
}
use free_model_orchestrator.Base.Dict.{Dict, lookup}
use free_model_orchestrator.Base.Float.{Float, lt}

pub record QualityGateDecision : Type 0 where
  pub eligible : Bool
  pub status : String
  pub apply_new_plan : Bool

abbrev decide : Bool → String → QualityGateDecision
decide eligible status = record { eligible = eligible; status = status; apply_new_plan = true }

module _ (F : Float) where
  open F use {Number}

  -- `maximum_value is not None and m > maximum_value`
  abbrev pub is_above : Option Number → Number → Bool
  is_above none m = false
  is_above (some maximum) m = lt F maximum m

  -- The checks on a metric that is present.
  abbrev gate_value : Number → Option Number → Number → QualityGateDecision
  gate_value value maximum_value m =
      if lt F m value
      then decide false "below_gate"
      else if is_above maximum_value m
      then decide false "above_band"
      else decide true "passed"

  abbrev gate_metric :
      Option Number
      → Number
      → Option Number
      → (allow_unverified is_router : Bool) → QualityGateDecision
  gate_metric none value maximum_value allow_unverified is_router =
      if is_router then decide true "router_tail" else decide allow_unverified "unverifiable"
  gate_metric (some m) value maximum_value allow_unverified is_router =
      gate_value value maximum_value m

  unfoldable pub evaluate_quality_gate :
      Dict String Number
      → (metric : String) (value : Number) (maximum_value : Option Number)
        (index_version current_version : String) (allow_unverified is_router : Bool)
      → QualityGateDecision
  evaluate_quality_gate metrics metric value maximum_value index_version current_version
        allow_unverified is_router =
      if not (index_version == current_version)
      then record { eligible = false; status = "needs_recalibration"; apply_new_plan = false }
      else gate_metric (lookup metric metrics) value maximum_value allow_unverified is_router
