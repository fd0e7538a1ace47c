-- ===== src/Publisher.antt =====
-- pool_publisher.py up to `compose_pool_generation`: pool specs from role rows. `F` is Python's
-- float. The `requirements` of a row are the keys that this module reads, at the types that FMO
-- writes; `none` stands for an absent key and for null, except that a null "free_only" is
-- `some false`. The messages of errors leave out the numbers. The fixed entries of a pool ("tail",
-- and the source and metric of its band) are not in the record.
pub mod Combos
pub mod Publish
pub mod Bands
pub mod Samples
use free_model_orchestrator.Base.{
  ℕ, zero, suc, String, Bool, true, false, not, Option, none, some, List, [], ◌∷◌, ◌&&◌, ◌||◌, ◌==◌,
  contains, string_eq, if◌then◌else◌, ◌<>◌,
}
use free_model_orchestrator.Base.Dict.{Dict, lookup}
use free_model_orchestrator.Base.Float.{Float, lt}
use free_model_orchestrator.Effects.{Outcome, return, raise_value_error, ◌>>=?◌}
use free_model_orchestrator.Json.{ℤ, pos, negsuc, Json, obj, field, end, str, int}
use free_model_orchestrator.Text.{lower, strip, sorted_set}
use text.Mathlib.Text.{starts_with}

abbrev pub pool_contract_version : String
pool_contract_version = "fmo-pools/v1"

abbrev pub shared_capability_aliases : Dict String String
shared_capability_aliases = ("tool_calling", "tool_call") ∷ ("tools", "tool_call") ∷ []

abbrev pub quality_category_by_metric : Dict String String
quality_category_by_metric =
    ("intelligence_index", "intelligence")
    ∷ ("coding_index", "coding")
    ∷ ("agentic_index", "agentic")
    ∷ []

abbrev pub workload_classes : List String
workload_classes = "light" ∷ "chat" ∷ "reasoning" ∷ "tools" ∷ []

-- `a or b` on texts
abbrev pub or_text : Option String → String → String
or_text none b = b
or_text (some a) b = if a == "" then b else a

-- `a or b` on integers that may be missing
abbrev pub or_int : Option ℤ → Option ℤ → Option ℤ
or_int (some (pos zero)) b = b
or_int none b = b
or_int a b = a

pub record Requirements : Type 0 where
  pub min_context_tokens : Option ℤ
  pub minimum_context_window : Option ℤ
  pub pool_id : Option String
  pub combo_id : Option String
  pub workload_class : Option String
  pub free_only : Option Bool
  pub capabilities : List String
  pub quality_metric : Option String
  pub quality_relax : Option Json

-- `_workload_class`
unfoldable pub workload_class_of : Option String → String
workload_class_of value =
    let workload_class = lower (strip (or_text value "")) in
    if contains workload_classes workload_class then workload_class else "chat"

-- `_default_combo_id`
unfoldable pub default_combo_id : String → String
default_combo_id role_id = if starts_with role_id "fmo-grid-" then role_id else "fmo-" <> role_id

-- `_min_context_tokens`
unfoldable pub min_context_tokens_of : ℤ → ℕ
min_context_tokens_of (pos zero) = 1
min_context_tokens_of (pos (suc n)) = suc n
min_context_tokens_of (negsuc _) = 1

-- The loop of `_shared_capabilities`
unfoldable pub capability_tokens : List String → List String
unfolding lower strip lookup
capability_tokens [] = []
capability_tokens (capability ∷ capabilities) =
    let token = lower (strip capability) in
    let rest = capability_tokens capabilities in
    if token == ""
    then rest
    else (elim (lookup token shared_capability_aliases) [ some alias ↦ alias | none ↦ token ])
      ∷ rest

unfoldable pub shared_capabilities : List String → List String
unfolding capability_tokens sorted_set
shared_capabilities capabilities = sorted_set (capability_tokens capabilities)

-- `_quality_category`
unfoldable pub quality_category : String → String
unfolding lookup
quality_category metric = elim (lookup metric quality_category_by_metric) [
  | some category ↦ category
  | none ↦ metric
]

abbrev pub publishable_statuses : List String
publishable_statuses = "active" ∷ "bootstrap_pending" ∷ []

module _ (F : Float) where
  open F use {Number, of_nat, div, le, round}

  -- A row of the query of composition.py.
  pub record RoleRow : Type 0 where
    pub id : String
    pub requirements : Requirements
    pub role_lifecycle_status : String
    pub minimum_quality_metric : Option String
    pub minimum_quality_value : Option Number
    pub maximum_quality_value : Option Number
    pub consumer_count : ℕ

  pub record QualityBand : Type 0 where
    pub category : String
    pub minimum : Number
    pub maximum : Number
    pub relax : Json

  pub record Pool : Type 0 where
    pub pool_id : String
    pub combo_id : String
    pub requests_per_day : ℕ
    pub consumers : ℕ
    pub workload_class : String
    pub free_only : Bool
    pub capabilities : List String
    pub min_context_tokens : ℕ
    pub quality_band : QualityBand

  -- `_normalized_quality_bound`
  unfoldable pub normalized_quality_bound : Option Number → Number → String → Outcome Number
  normalized_quality_bound none default label = return default
  normalized_quality_bound (some number) default label =
      if le (of_nat 0) number && le number (of_nat 1)
      then return number
      else if lt F (of_nat 1) number && le number (of_nat 100)
      then return (div number (of_nat 100))
      else raise_value_error ("quality_band " <> label <> " cannot be normalized to [0..1]")

  abbrev default_relax : Json
  default_relax = obj (field "when" (str "underfilled") (field "max_delta" (int (pos 0)) end))

  abbrev relax_of : Option Json → Json
  relax_of none = default_relax
  relax_of (some relax) = if free_model_orchestrator.Json.truth relax then relax else default_relax

  abbrev checked_band : RoleRow → Number → Number → Outcome QualityBand
  checked_band role minimum maximum =
      if lt F maximum minimum
      then raise_value_error "quality_band min exceeds max"
      else return (record {
        category = quality_category (
            or_text role.minimum_quality_metric
              (or_text role.requirements.quality_metric "intelligence_index"));
        minimum = minimum;
        maximum = maximum;
        relax = relax_of role.requirements.quality_relax;
      })

  -- `_quality_band`
  unfoldable pub quality_band_of : RoleRow → Outcome QualityBand
  unfolding normalized_quality_bound
  quality_band_of role =
      normalized_quality_bound role.minimum_quality_value (of_nat 0) "min" >>=? λ minimum.
      normalized_quality_bound role.maximum_quality_value (of_nat 1) "max" >>=? λ maximum.
      checked_band role minimum maximum

  abbrev free_only_of : Option Bool → Bool
  free_only_of none = true
  free_only_of (some b) = b

  abbrev demand_of : String → Dict String Number → ℕ
  demand_of id demand = elim (lookup id demand) [ some n ↦ round n | none ↦ 0 ]

  -- The body of the loop for a role that is published and has a context window.
  abbrev pool_with : RoleRow → Dict String Number → ℤ → QualityBand → Pool
  pool_with role demand min_context_tokens band = record {
    pool_id = or_text role.requirements.pool_id role.id;
    combo_id = or_text role.requirements.combo_id (default_combo_id role.id);
    requests_per_day = demand_of role.id demand;
    consumers = role.consumer_count;
    workload_class = workload_class_of role.requirements.workload_class;
    free_only = free_only_of role.requirements.free_only;
    capabilities = shared_capabilities role.requirements.capabilities;
    min_context_tokens = min_context_tokens_of min_context_tokens;
    quality_band = band;
  }

  unfoldable pub compose_pool : RoleRow → Dict String Number → Outcome Pool
  unfolding quality_band_of min_context_tokens_of
  compose_pool role demand =
      let r = role.requirements in
      elim (or_int r.min_context_tokens r.minimum_context_window) [
        | none ↦ raise_value_error ("pool " <> role.id <> " missing min_context_tokens")
        | some tokens ↦ quality_band_of role >>=? λ band. return (pool_with role demand tokens band)
      ]

  abbrev pub is_publishable : RoleRow → Bool
  is_publishable role = contains publishable_statuses role.role_lifecycle_status

  unfoldable pub compose_pools : List RoleRow → Dict String Number → Outcome (List Pool)
  compose_pools [] demand = return []
  compose_pools (role ∷ roles) demand =
      let rest = compose_pools roles demand in
      if is_publishable role
      then (compose_pool role demand >>=? λ pool. rest >>=? λ pools. return (pool ∷ pools))
      else rest

  pub record Generation : Type 0 where
    pub contract_version : String
    pub generation : String
    pub generated_at : String
    pub pools : List Pool

  -- `compose_pool_generation`; `timestamp` is the time that the call reads.
  unfoldable pub compose_pool_generation :
      List RoleRow
      → Dict String Number
      → (generation generated_at : Option String) → (timestamp : String) → Outcome Generation
  unfolding compose_pools compose_pool
  compose_pool_generation roles demand generation generated_at timestamp =
      compose_pools roles demand >>=? λ pools. return (record {
        contract_version = pool_contract_version;
        generation = or_text generation timestamp;
        generated_at = or_text generated_at timestamp;
        pools = pools;
      })
