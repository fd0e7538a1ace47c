-- ===== src/Forecast.antt =====
-- forecast.py: reserves, cold starts and the quality band for a demand. `F` is Python's float.
-- `none` stands for an absent key of a candidate.
mod Bands
pub mod Cycles
mod Samples
use free_model_orchestrator.Base.{
  String, Bool, true, false, Option, none, some, List, [], ◌∷◌, ◌&&◌, ◌||◌, if◌then◌else◌,
}
use free_model_orchestrator.Base.Float.{Float, lt, eq, fmax}
use free_model_orchestrator.Effects.{Outcome, return, raise, key_error, ◌>>=?◌}

module _ (F : Float) where
  open F use {Number, of_nat, add, sub, mul, div, le}

  pub record ReservedDemand : Type 0 where
    pub base : Number
    pub multiplier : Number
    pub reserved : Number

  pub record ColdStartDemand : Type 0 where
    pub value : Number
    pub source : String

  pub record QualityBand : Type 0 where
    pub minimum : Number
    pub maximum : Number
    pub degraded : Bool

  unfoldable pub protected_demand : (expected p95 peak_multiplier : Number) → Number
  protected_demand expected p95 peak_multiplier = fmax F p95 (mul expected peak_multiplier)

  unfoldable pub apply_historical_reserve :
      (value multiplier : Number) → (already_applied : Bool) → ReservedDemand
  apply_historical_reserve value multiplier already_applied = record {
    base = if already_applied then div value multiplier else value;
    multiplier = multiplier;
    reserved = if already_applied then value else mul value multiplier;
  }

  unfoldable pub cold_start_demand :
      (schedule bootstrap : Option Number)
      → (role_minimum global_minimum : Number) → ColdStartDemand
  cold_start_demand (some schedule) bootstrap role_minimum global_minimum = record {
    value = schedule;
    source = "schedule";
  }
  cold_start_demand none (some bootstrap) role_minimum global_minimum = record {
    value = bootstrap;
    source = "bootstrap";
  }
  cold_start_demand none none role_minimum global_minimum = record {
    value = fmax F role_minimum global_minimum;
    source = "role_minimum";
  }

  pub record Candidate : Type 0 where
    pub confirmed_free : Bool
    pub quality : Option Number
    pub capacity : Option Number

  abbrev or_zero : Option Number → Number
  or_zero none = of_nat 0
  or_zero (some x) = x

  unfoldable pub confirmed_of : (adequacy_floor : Number) → List Candidate → List Candidate
  confirmed_of adequacy_floor [] = []
  confirmed_of adequacy_floor (c ∷ cs) =
      let rest = confirmed_of adequacy_floor cs in
      if c.confirmed_free && le adequacy_floor (or_zero c.quality) then c ∷ rest else rest

  -- A confirmed candidate with its `candidate["quality"]`.
  pub record Rated : Type 0 where
    pub quality : Number
    pub capacity : Number

  -- `candidate["quality"]` raises KeyError where the key is missing.
  unfoldable pub rate_all : List Candidate → Outcome (List Rated)
  rate_all [] = return []
  rate_all (c ∷ cs) = elim c.quality [
    | none ↦ raise (record { kind = key_error; message = "'quality'" })
    | some quality ↦ rate_all cs >>=? λ rest.
        return (record { quality = quality; capacity = or_zero c.capacity } ∷ rest)
  ]

  -- One step of `sorted({...})`
  unfoldable pub insert_number : Number → List Number → List Number
  insert_number x [] = x ∷ []
  insert_number x (y ∷ ys) =
      let rest = insert_number x ys in
      if eq F x y then y ∷ ys else if lt F x y then x ∷ y ∷ ys else y ∷ rest

  unfoldable pub qualities_of : Number → List Rated → List Number
  unfolding insert_number
  qualities_of anchor [] = anchor ∷ []
  qualities_of anchor (c ∷ cs) = insert_number c.quality (qualities_of anchor cs)

  unfoldable pub lows : (anchor adequacy_floor : Number) → List Number → List Number
  lows anchor adequacy_floor [] = []
  lows anchor adequacy_floor (q ∷ qs) =
      let rest = lows anchor adequacy_floor qs in
      if le q anchor && le adequacy_floor q then q ∷ rest else rest

  unfoldable pub highs : (anchor : Number) → List Number → List Number
  highs anchor [] = []
  highs anchor (q ∷ qs) = let rest = highs anchor qs in if le anchor q then q ∷ rest else rest

  -- `sum(...)` from the part summed so far
  unfoldable pub sum_within : (minimum maximum total : Number) → List Rated → Number
  sum_within minimum maximum total [] = total
  sum_within minimum maximum total (c ∷ cs) =
      sum_within minimum maximum
        (if le minimum c.quality && le c.quality maximum then add total c.capacity else total) cs

  unfoldable pub capacity_within : List Rated → (minimum maximum : Number) → Number
  unfolding sum_within
  capacity_within confirmed minimum maximum = sum_within minimum maximum (of_nat 0) confirmed

  pub record Best : Type 0 where
    pub best_minimum : Number
    pub best_maximum : Number

  module _ (anchor : Number) (confirmed : List Rated) (protected_requests : Number) where
    abbrev pub reaches : Number → Number → Bool
    reaches minimum maximum = le protected_requests (capacity_within confirmed minimum maximum)

    -- The inner loop up to its `break`.
    unfoldable pub first_reaching : Number → List Number → Option Number
    first_reaching minimum [] = none
    first_reaching minimum (maximum ∷ maxima) =
        if reaches minimum maximum then some maximum else first_reaching minimum maxima

    abbrev width : Number → Number → Number
    width minimum maximum = add (sub anchor minimum) (sub maximum anchor)

    abbrev pub is_anchor : Best → Bool
    is_anchor best = eq F best.best_minimum best.best_maximum && eq F best.best_maximum anchor

    abbrev pub improve : Best → Number → Number → Best
    improve best minimum maximum =
        if lt F (width minimum maximum) (width best.best_minimum best.best_maximum)
          || is_anchor best
        then record { best_minimum = minimum; best_maximum = maximum }
        else best

    abbrev pub improve_if : Best → Number → Option Number → Best
    improve_if best minimum none = best
    improve_if best minimum (some maximum) = improve best minimum maximum

    -- The outer loop.
    unfoldable pub search_band : Best → (minima maxima : List Number) → Best
    unfolding first_reaching capacity_within
    search_band best [] maxima = best
    search_band best (minimum ∷ minima) maxima =
        search_band (improve_if best minimum (first_reaching minimum maxima)) minima maxima

  abbrev pub band_with :
      (anchor protected_requests adequacy_floor : Number) → List Rated → QualityBand
  band_with anchor protected_requests adequacy_floor confirmed =
      let qualities = qualities_of anchor confirmed in
      let best =
        search_band anchor confirmed protected_requests
          (record { best_minimum = anchor; best_maximum = anchor })
          (lows anchor adequacy_floor qualities) (highs anchor qualities) in
      record {
        minimum = best.best_minimum;
        maximum = best.best_maximum;
        degraded =
            lt F (capacity_within confirmed best.best_minimum best.best_maximum) protected_requests;
      }

  unfoldable pub quality_band_for_demand :
      (anchor : Number)
      → List Candidate
      → (protected_requests adequacy_floor : Number) → Outcome QualityBand
  unfolding confirmed_of rate_all qualities_of lows highs search_band
  quality_band_for_demand anchor candidates protected_requests adequacy_floor =
      rate_all (confirmed_of adequacy_floor candidates) >>=? λ confirmed.
      return (band_with anchor protected_requests adequacy_floor confirmed)
