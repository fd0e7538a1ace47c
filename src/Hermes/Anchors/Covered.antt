-- ===== src/Hermes/Anchors/Covered.antt =====
-- The quality anchors cover the roles of the inventory, whatever the judge does.
use free_model_orchestrator.Base.{
  ◌≡◌, ◌≢◌, refl, String, true, Option, none, some, List, [], ◌∷◌, ◌++◌, ◌==◌, inl, inr, string_eq,
  All, Bool-cases, arith,
}
use free_model_orchestrator.Base.Dict.{Dict, lookup, insert, get_or, lookup-insert}
use free_model_orchestrator.Base.Float.{Float}
use free_model_orchestrator.Effects.{Outcome, return, raise, Action, ◌>>=?◌}
use free_model_orchestrator.Text.{strip}
use free_model_orchestrator.Hermes.{Consumer, Inventory, required}
use free_model_orchestrator.Hermes.Anchors.{
  DescribingUnit, IntelligenceForecastResponse, IntelligenceVerdict, RoleQualityAnchor, add_unit,
  group_units, floor_anchors, floor_anchor, set_default, describing_units, winner_of, best,
  fresh_verdict, verdict_of, judge_units, judge_roles, anchor_of, role_quality_anchors, JudgeState,
  seeded, judged_anchor, assemble_intelligence_prompt,
}

-- `key in d`
abbrev pub Has {ℓ} : {V : Type ℓ} → Dict String V → String → Type ℓ
Has d key = lookup key d ≢ none

pub Has-insert {ℓ} :
    {V : Type ℓ} (d : Dict String V) (key other : String) (v : V)
    → Has d other
    → Has (insert key v d) other
Has-insert d key other v h =
    rw (lookup-insert other key v d)
      (elim (Bool-cases (other == key)) [ inl e ↦ rw e (λ x. cc) | inr e ↦ rw e h ])

pub Has-inserted {ℓ} :
    {V : Type ℓ} (d : Dict String V) (key : String) (v : V) → Has (insert key v d) key
Has-inserted d key v = rw (lookup-insert key key v d) (rw (own key) (λ x. cc))
  where
    own : (s : String) → (s == s) ≡ true
    own s = ground arith

-- A role of `P` with one unit at least
abbrev IsGroup : (String → Type 0) → String × List DescribingUnit → Type 0
IsGroup P (role_id, units) = (units ≢ []) × P role_id

IsGroup-mono :
    (P Q : String → Type 0)
    → ((role_id : String) → P role_id → Q role_id)
    → (d : Dict String (List DescribingUnit)) → All (IsGroup P) d
    → All (IsGroup Q) d
IsGroup-mono P Q f [] h = tt
IsGroup-mono P Q f ((role_id, units) ∷ d) ((given, p), h) =
    ((given, f role_id p), IsGroup-mono P Q f d h)

module _ (P : String → Type 0) where
  All-insert :
      (role_id : String) (units : List DescribingUnit)
      → units ≢ []
      → P role_id
      → (d : Dict String (List DescribingUnit)) → All (IsGroup P) d
      → All (IsGroup P) (insert role_id units d)
  unfolding insert
  All-insert role_id units given p [] h = ((given, p), tt)
  All-insert role_id units given p ((j, w) ∷ d) (g, h) = elim (Bool-cases (role_id == j)) [
    | inl e ↦ rw e ((given, g.1), h)
    | inr e ↦ rw e (g, All-insert role_id units given p d h)
  ]

  append_given : (xs : List DescribingUnit) (x : DescribingUnit) → xs ++ x ∷ [] ≢ []
  append_given [] x = λ e. cc
  append_given (y ∷ ys) x = λ e. cc

  group_units-All :
      (units : List DescribingUnit) (d : Dict String (List DescribingUnit))
      → All (λ unit. P unit.role_id) units
      → All (IsGroup P) d
      → All (IsGroup P) (group_units d units)
  unfolding group_units add_unit
  group_units-All [] d ps h = h
  group_units-All (unit ∷ units) d (p, ps) h =
      group_units-All units (add_unit d unit) ps
        (All-insert unit.role_id _ (append_given (get_or unit.role_id [] d) unit) p d h)

module _ (F : Float) where
  open F use {Number}

  describing_units-All :
      (sha256 : String → String) (P : String → Type 0) (cs : List (Consumer F))
      → All (λ c. P c.role_id) cs
      → All (λ unit. P unit.role_id) (describing_units F sha256 cs)
  unfolding describing_units
  describing_units-All sha256 P [] h = tt
  describing_units-All sha256 P (c ∷ cs) (p, h) =
      elim (Bool-cases (strip c.describing_text == "")) [
        | inl e ↦ rw e (describing_units-All sha256 P cs h)
        | inr e ↦ rw e (p, describing_units-All sha256 P cs h)
      ]

  module _ (adequacy_floor : Number) where
    Has-set_default :
        (anchors : Dict String (RoleQualityAnchor F)) (role_id other : String)
        → Has anchors other
        → Has (set_default F adequacy_floor anchors role_id) other
    unfolding set_default
    Has-set_default anchors role_id other h = go (lookup role_id anchors)
      where
        go :
            (found : Option (RoleQualityAnchor F))
            → Has
                (elim found [
                  | none ↦ insert role_id (floor_anchor F adequacy_floor role_id) anchors
                  | some _ ↦ anchors
                ])
                other
        go none = Has-insert anchors role_id other _ h
        go (some _) = h

    Has-defaulted :
        (anchors : Dict String (RoleQualityAnchor F)) (role_id : String)
        → Has (set_default F adequacy_floor anchors role_id) role_id
    unfolding set_default
    Has-defaulted anchors role_id = go (lookup role_id anchors) refl
      where
        go :
            (found : Option (RoleQualityAnchor F))
            → lookup role_id anchors ≡ found
            → Has
                (elim found [
                  | none ↦ insert role_id (floor_anchor F adequacy_floor role_id) anchors
                  | some _ ↦ anchors
                ])
                role_id
        go none e = Has-inserted anchors role_id _
        go (some _) e = rw e (λ x. cc)

    Has-floor_anchors :
        (cs : List (Consumer F)) (anchors : Dict String (RoleQualityAnchor F)) (other : String)
        → Has anchors other
        → Has (floor_anchors F adequacy_floor anchors cs) other
    unfolding floor_anchors
    Has-floor_anchors [] anchors other h = h
    Has-floor_anchors (c ∷ cs) anchors other h =
        Has-floor_anchors cs _ other (Has-set_default anchors c.role_id other h)

    floor_anchors-covers :
        (cs : List (Consumer F)) (anchors : Dict String (RoleQualityAnchor F))
        → All (λ c. Has (floor_anchors F adequacy_floor anchors cs) c.role_id) cs
    unfolding floor_anchors
    floor_anchors-covers [] anchors = tt
    floor_anchors-covers (c ∷ cs) anchors = (
      Has-floor_anchors cs _ c.role_id (Has-defaulted anchors c.role_id),
      floor_anchors-covers cs _,
    )

  -- What `max` of the verdicts needs
  abbrev CanWin : Outcome (List (IntelligenceVerdict F)) → Type 0
  CanWin outcome = outcome ≢ return []

  CanWin-one :
      (verdict : IntelligenceVerdict F) (outcome : Outcome (List (IntelligenceVerdict F)))
      → CanWin (outcome >>=? λ verdicts. return (verdict ∷ verdicts))
  CanWin-one verdict (raise e) = λ x. cc
  CanWin-one verdict (return verdicts) = λ x. cc

  module _ {W : Type 0} (inspect : String → Action W IntelligenceForecastResponse)
      (secrets : Dict String String) where
    judge_units-CanWin :
        (units : List DescribingUnit) (s : JudgeState F inspect secrets)
        → units ≢ []
        → CanWin (judge_units F inspect secrets units s).0
    unfolding judge_units
    judge_units-CanWin [] s given = absurd (given refl)
    judge_units-CanWin (unit ∷ units) (cache, w) given =
        go (fresh_verdict F unit.content_hash (lookup unit.unit_key cache))
          (inspect (assemble_intelligence_prompt unit secrets 12000) w)
      where
        go :
            (found : Option (IntelligenceVerdict F))
            (answer : Outcome IntelligenceForecastResponse × W)
            → CanWin
                (elim found
                  as (λ x. Outcome (List (IntelligenceVerdict F)) × JudgeState F inspect secrets) [
                    | some cached ↦
                        let (outcome, s) = judge_units F inspect secrets units (cache, w) in
                        (outcome >>=? λ verdicts. return (cached ∷ verdicts), s)
                    | none ↦
                        elim answer.0
                          as (λ x.
                            Outcome (List (IntelligenceVerdict F)) × JudgeState F inspect secrets) [
                              | raise e ↦ (raise e, (cache, answer.1))
                              | return payload ↦
                                  let verdict = verdict_of F payload unit.content_hash in
                                  let (outcome, s) =
                                    judge_units F inspect secrets units
                                      (insert unit.unit_key verdict cache, answer.1) in
                                  (outcome >>=? λ verdicts. return (verdict ∷ verdicts), s)
                            ]
                  ]).0
        go (some cached) answer = CanWin-one cached _
        go none (raise e, w') = λ x. cc
        go none (return payload, w') = CanWin-one (verdict_of F payload unit.content_hash) _

    module _ (seed_anchors : Dict String (RoleQualityAnchor F)) where
      anchor_of-returns :
          (anchors : Dict String (RoleQualityAnchor F)) (role_id : String)
          (units : List DescribingUnit) (outcome : Outcome (List (IntelligenceVerdict F)))
          → Has anchors role_id
          → CanWin outcome
          → (anchor : RoleQualityAnchor F) × (anchor_of F inspect secrets seed_anchors anchors
                role_id units outcome
              ≡ return anchor)
      unfolding anchor_of winner_of seeded
      anchor_of-returns anchors role_id units (return []) has can = absurd (can refl)
      anchor_of-returns anchors role_id units (return (v ∷ vs)) has can =
          (judged_anchor F role_id units (best F v vs), refl)
      anchor_of-returns anchors role_id units (raise e) has can =
          go (lookup role_id seed_anchors) (lookup role_id anchors) has
        where
          go :
              (seed found : Option (RoleQualityAnchor F))
              → found ≢ none
              → (anchor : RoleQualityAnchor F) × (elim seed [
                | none ↦ required role_id found
                | some anchor ↦ return anchor
              ]
                  ≡ return anchor)
          go (some seed) found h = (seed, refl)
          go none (some anchor) h = (anchor, refl)
          go none none h = absurd (h refl)

      judge_roles-returns :
          (groups : Dict String (List DescribingUnit)) (anchors : Dict String (RoleQualityAnchor F))
          (s : JudgeState F inspect secrets)
          → All (IsGroup (Has anchors)) groups
          → (result : Dict String (RoleQualityAnchor F)) × ((judge_roles F inspect secrets
                seed_anchors anchors groups s).0
              ≡ return result)
            × ((other : String) → Has anchors other → Has result other)
      unfolding judge_roles
      judge_roles-returns [] anchors s h = (anchors, refl, λ other has. has)
      judge_roles-returns ((role_id, units) ∷ groups) anchors s (g, h) =
          let s' = (judge_units F inspect secrets units s).1 in
          let (anchor, e) =
            anchor_of-returns anchors role_id units (judge_units F inspect secrets units s).0 g.1
              (judge_units-CanWin units s g.0) in
          let (result, r, kept) = judge_roles-returns groups (insert role_id anchor anchors) s' (
            IsGroup-mono (Has anchors) _ (λ other. Has-insert anchors role_id other anchor) groups
              h) in
          (
            result,
            rw (judge_roles, e) r,
            λ other has. kept other (Has-insert anchors role_id other anchor has),
          )

      -- The anchors are returned, whatever the judge raises, and every role that has a consumer has
      -- an anchor.
      pub role_quality_anchors-covers :
          (sha256 : String → String) (inventory : Inventory F) (adequacy_floor : Number)
          (s : JudgeState F inspect secrets)
          → (anchors : Dict String (RoleQualityAnchor F)) × ((role_quality_anchors F inspect secrets
                seed_anchors sha256 inventory adequacy_floor s).0
              ≡ return anchors)
            × All (λ c. Has anchors c.role_id) inventory.consumers
      unfolding role_quality_anchors
      role_quality_anchors-covers sha256 inventory adequacy_floor s =
          let cs = inventory.consumers in
          let floors = floor_anchors F adequacy_floor [] cs in
          let covered = floor_anchors-covers adequacy_floor cs [] in
          let (anchors, returned, kept) =
            judge_roles-returns (group_units [] (describing_units F sha256 cs)) floors s (
              group_units-All (Has floors) (describing_units F sha256 cs) []
                (describing_units-All sha256 (Has floors) cs covered) tt) in
          (anchors, returned, All_mono floors anchors cs covered kept)
        where
          All_mono :
              (floors anchors : Dict String (RoleQualityAnchor F)) (cs : List (Consumer F))
              → All (λ c. Has floors c.role_id) cs
              → ((other : String) → Has floors other → Has anchors other)
              → All (λ c. Has anchors c.role_id) cs
          All_mono floors anchors [] h kept = tt
          All_mono floors anchors (c ∷ cs) (h, hs) kept =
              (kept c.role_id h, All_mono floors anchors cs hs kept)
