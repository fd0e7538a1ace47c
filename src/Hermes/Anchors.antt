-- ===== src/Hermes/Anchors.antt =====
-- hermes_inventory.py: the quality anchor of each role. The judge of the texts is a parameter, an
-- action on a state `W` of its own that may raise; `sha256` is hashlib's. The cache is the dict
-- that the caller passes, which the run writes to.
pub mod Covered
pub mod Cached
pub mod Repeated
use text.Mathlib.Text.{starts_with}
use free_model_orchestrator.Base.{
  ℕ, suc, zero, ◌-◌, ◌≡◌, refl, String, Bool, true, false, not, Option, none, some, List, [], ◌∷◌,
  ◌++◌, ◌&&◌, ◌==◌, ◌<>◌, contains, string_eq, if◌then◌else◌, map, length,
}
use free_model_orchestrator.Base.Dict.{Dict, lookup, insert, get_or}
use free_model_orchestrator.Base.Float.{Float, lt}
use free_model_orchestrator.Effects.{
  Outcome, return, raise, raise_value_error, key_error, Action, ◌>>=?◌,
}
use free_model_orchestrator.Text.Replace.{first_chars, replace}
use free_model_orchestrator.Text.{lower, strip, sorted_set, show_nat, codes}
use free_model_orchestrator.Hermes.{Consumer, Inventory, join, required}

-- idempotency.py: `hash_parts`
unfoldable pub hash_parts : (String → String) → List String → String
hash_parts sha256 parts = sha256 (join ":" parts)

-- `for secret in secrets.values(): prompt = prompt.replace(secret, "[REDACTED]")`
unfoldable pub redact : Dict String String → String → String
unfolding replace
redact [] prompt = prompt
redact ((_, secret) ∷ secrets) prompt = redact secrets (replace secret "[REDACTED]" prompt)

pub record DescribingUnit : Type 0 where
  pub role_id : String
  pub consumer_type : String
  pub consumer : String
  pub unit_key : String
  pub text : String
  pub content_hash : String
  pub required_capabilities : List String
  pub minimum_context_window : ℕ

pub record IntelligenceForecastResponse : Type 0 where
  pub capability_axis : String
  pub tier : String
  pub confidence : String

abbrev pub quality_axes : List String
quality_axes = "intelligence_index" ∷ "coding_index" ∷ "agentic_index" ∷ []

abbrev pub quality_tiers : Dict String ℕ
quality_tiers = ("low", 20) ∷ ("medium", 50) ∷ ("high", 80) ∷ []

-- `assemble_intelligence_prompt`
unfoldable pub assemble_intelligence_prompt : DescribingUnit → Dict String String → ℕ → String
unfolding join redact first_chars
assemble_intelligence_prompt unit secrets max_prompt_chars =
    let capabilities = join ", " unit.required_capabilities in
    first_chars max_prompt_chars (
      redact secrets (
        join "\n" (
          "Hermes intelligence anchor request"
          ∷ ("Role: " <> unit.role_id)
          ∷ ("Consumer type: " <> unit.consumer_type)
          ∷ ("Consumer: " <> unit.consumer)
          ∷ ("Required capabilities: " <> (if capabilities == "" then "none" else capabilities))
          ∷ ("Minimum context window: " <> show_nat unit.minimum_context_window)
          ∷ "Task description:"
          ∷ unit.text
          ∷ [])))

-- `units_by_role.setdefault(role_id, []).append(unit)`
unfoldable pub add_unit :
    Dict String (List DescribingUnit) → DescribingUnit → Dict String (List DescribingUnit)
unfolding lookup insert
add_unit units_by_role unit =
    insert unit.role_id (get_or unit.role_id [] units_by_role ++ unit ∷ []) units_by_role

unfoldable pub group_units :
    Dict String (List DescribingUnit) → List DescribingUnit → Dict String (List DescribingUnit)
unfolding add_unit
group_units units_by_role [] = units_by_role
group_units units_by_role (unit ∷ units) = group_units (add_unit units_by_role unit) units

module _ (F : Float) where
  open F use {Number, of_nat}

  -- `describing_unit_key`
  unfoldable pub describing_unit_key : Consumer F → String
  describing_unit_key c = c.role_id <> ":" <> c.consumer_type <> ":" <> c.consumer

  pub record IntelligenceVerdict : Type 0 where
    pub capability_axis : String
    pub tier : String
    pub confidence : String
    pub anchor : Number
    pub content_hash : String

  pub record RoleQualityAnchor : Type 0 where
    pub role_id : String
    pub capability_axis : String
    pub tier : String
    pub anchor : Number
    pub confidence : String
    pub source : String
    pub content_hashes : List String

  abbrev pub number_or_medium : Option ℕ → Number
  number_or_medium none = of_nat 50
  number_or_medium (some n) = of_nat n

  -- `tier_to_anchor`
  unfoldable pub tier_to_anchor : String → Number
  unfolding lower lookup
  tier_to_anchor tier = number_or_medium (lookup (lower tier) quality_tiers)

  -- The anchor of a role whose texts were not judged
  abbrev pub floor_anchor : Number → String → RoleQualityAnchor
  floor_anchor adequacy_floor role_id = record {
    role_id = role_id;
    capability_axis = "intelligence_index";
    tier = "low";
    anchor = adequacy_floor;
    confidence = "floor";
    source = "adequacy_floor";
    content_hashes = [];
  }

  -- `anchors.setdefault(role_id, RoleQualityAnchor(...))`
  unfoldable pub set_default :
      Number → Dict String RoleQualityAnchor → String → Dict String RoleQualityAnchor
  unfolding lookup insert
  set_default adequacy_floor anchors role_id = elim (lookup role_id anchors) [
    | none ↦ insert role_id (floor_anchor adequacy_floor role_id) anchors
    | some _ ↦ anchors
  ]

  unfoldable pub floor_anchors :
      Number → Dict String RoleQualityAnchor → List (Consumer F) → Dict String RoleQualityAnchor
  unfolding set_default
  floor_anchors adequacy_floor anchors [] = anchors
  floor_anchors adequacy_floor anchors (c ∷ cs) =
      floor_anchors adequacy_floor (set_default adequacy_floor anchors c.role_id) cs

  module _ (sha256 : String → String) where
    -- `describing_unit_hash`
    unfoldable pub describing_unit_hash : Consumer F → String
    unfolding hash_parts
    describing_unit_hash c =
        hash_parts sha256 (c.consumer_type ∷ c.consumer ∷ c.describing_text ∷ [])

    abbrev unit_of : Consumer F → String → DescribingUnit
    unfolding sorted_set describing_unit_key describing_unit_hash
    unit_of c text = record {
      role_id = c.role_id;
      consumer_type = c.consumer_type;
      consumer = c.consumer;
      unit_key = describing_unit_key c;
      text = text;
      content_hash = describing_unit_hash c;
      required_capabilities = sorted_set c.required_capabilities;
      minimum_context_window = c.minimum_context_window;
    }

    -- `describing_units`: a consumer without a text is passed over. Capabilities have no doubles.
    unfoldable pub describing_units : List (Consumer F) → List DescribingUnit
    unfolding strip unit_of
    describing_units [] = []
    describing_units (c ∷ cs) =
        let rest = describing_units cs in
        if strip c.describing_text == "" then rest else unit_of c (strip c.describing_text) ∷ rest

  -- `max(verdicts, key=...)`: the first of the largest
  unfoldable pub best : IntelligenceVerdict → List IntelligenceVerdict → IntelligenceVerdict
  best winner [] = winner
  best winner (verdict ∷ verdicts) =
      best (if lt F winner.anchor verdict.anchor then verdict else winner) verdicts

  unfoldable pub winner_of : List IntelligenceVerdict → Outcome IntelligenceVerdict
  unfolding best
  winner_of [] = raise_value_error "max() iterable argument is empty"
  winner_of (verdict ∷ verdicts) = return (best verdict verdicts)

  abbrev known_or : List String → String → String → String
  known_or names default name = if contains names name then name else default

  abbrev tier_names : List String
  tier_names = "low" ∷ "medium" ∷ "high" ∷ []

  -- The verdict that is put in the cache
  unfoldable pub verdict_of : IntelligenceForecastResponse → String → IntelligenceVerdict
  unfolding lower tier_to_anchor
  verdict_of payload content_hash = record {
    capability_axis = known_or quality_axes "intelligence_index" payload.capability_axis;
    tier = known_or tier_names "medium" (lower payload.tier);
    confidence = payload.confidence;
    anchor = tier_to_anchor (known_or tier_names "medium" (lower payload.tier));
    content_hash = content_hash;
  }

  abbrev pub fresh_verdict : String → Option IntelligenceVerdict → Option IntelligenceVerdict
  fresh_verdict content_hash none = none
  fresh_verdict content_hash (some cached) =
      if cached.content_hash == content_hash then some cached else none

  abbrev pub judged_anchor : String → List DescribingUnit → IntelligenceVerdict → RoleQualityAnchor
  judged_anchor role_id units winner = record {
    role_id = role_id;
    capability_axis = winner.capability_axis;
    tier = winner.tier;
    anchor = winner.anchor;
    confidence = winner.confidence;
    source = "intelligence_inspector";
    content_hashes = map (λ unit. unit.content_hash) units;
  }

  abbrev pub seeded :
      Dict String RoleQualityAnchor
      → Dict String RoleQualityAnchor
      → String
      → Outcome RoleQualityAnchor
  unfolding lookup
  seeded seed_anchors anchors role_id = elim (lookup role_id seed_anchors) [
    | none ↦ required role_id (lookup role_id anchors)
    | some anchor ↦ return anchor
  ]

  module _ {W : Type 0} (inspect : String → Action W IntelligenceForecastResponse)
      (secrets : Dict String String) where
    abbrev pub JudgeState : Type 0
    JudgeState = Dict String IntelligenceVerdict × W

    -- The units of a role in turn, up to the first that raises
    unfoldable pub judge_units : List DescribingUnit → Action JudgeState (List IntelligenceVerdict)
    unfolding verdict_of assemble_intelligence_prompt lookup insert
    judge_units [] (cache, w) = (return [], (cache, w))
    judge_units (unit ∷ units) (cache, w) =
        elim (fresh_verdict unit.content_hash (lookup unit.unit_key cache)) [
          | some cached ↦
              let (outcome, s) = judge_units units (cache, w) in
              (outcome >>=? λ verdicts. return (cached ∷ verdicts), s)
          | none ↦
              let (answer, w') = inspect (assemble_intelligence_prompt unit secrets 12000) w in
              elim answer [
                | raise e ↦ (raise e, (cache, w'))
                | return payload ↦
                    let verdict = verdict_of payload unit.content_hash in
                    let (outcome, s) = judge_units units (insert unit.unit_key verdict cache, w') in
                    (outcome >>=? λ verdicts. return (verdict ∷ verdicts), s)
              ]
        ]

    module _ (seed_anchors : Dict String RoleQualityAnchor) where
      -- `anchors[role_id]` behind the try statement
      unfoldable pub anchor_of :
          Dict String RoleQualityAnchor
          → String
          → List DescribingUnit
          → Outcome (List IntelligenceVerdict)
          → Outcome RoleQualityAnchor
      unfolding winner_of seeded
      anchor_of anchors role_id units (raise e) = seeded seed_anchors anchors role_id
      anchor_of anchors role_id units (return verdicts) =
          winner_of verdicts >>=? λ winner. return (judged_anchor role_id units winner)

      unfoldable pub judge_roles :
          Dict String RoleQualityAnchor
          → Dict String (List DescribingUnit)
          → Action JudgeState (Dict String RoleQualityAnchor)
      unfolding judge_units anchor_of insert
      judge_roles anchors [] s = (return anchors, s)
      judge_roles anchors ((role_id, units) ∷ roles) s =
          let (verdicts, s') = judge_units units s in
          elim (anchor_of anchors role_id units verdicts) [
            | raise e ↦ (raise e, s')
            | return anchor ↦ judge_roles (insert role_id anchor anchors) roles s'
          ]

      -- `role_quality_anchors`
      unfoldable pub role_quality_anchors :
          (String → String)
          → Inventory F
          → Number
          → Action JudgeState (Dict String RoleQualityAnchor)
      unfolding judge_roles floor_anchors group_units describing_units
      role_quality_anchors sha256 inventory adequacy_floor =
          judge_roles (floor_anchors adequacy_floor [] inventory.consumers)
            (group_units [] (describing_units sha256 inventory.consumers))
