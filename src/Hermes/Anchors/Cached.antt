-- ===== src/Hermes/Anchors/Cached.antt =====
-- A second refresh of the quality anchors reads the cache that the first one wrote.
use free_model_orchestrator.Base.{
  ◌≡◌, refl, String, true, Option, none, some, List, [], ◌∷◌, ◌==◌, inl, inr, string_eq, All,
  All-append, Bool-cases, arith, ap, ◌∙◌,
}
use free_model_orchestrator.Base.Dict.{Dict, lookup, insert, get_or, lookup-insert}
use free_model_orchestrator.Base.Float.{Float}
use free_model_orchestrator.Effects.{Outcome, return, Action, ◌>>=?◌}
use free_model_orchestrator.Hermes.Anchors.{
  DescribingUnit, IntelligenceForecastResponse, IntelligenceVerdict, add_unit, group_units,
  fresh_verdict, verdict_of, judge_units, JudgeState, assemble_intelligence_prompt,
}

-- Units with one key have one text.
abbrev pub Agree : DescribingUnit → DescribingUnit → Type 0
Agree u v = u.unit_key ≡ v.unit_key → u.content_hash ≡ v.content_hash

-- Every unit of a group fulfils `Q`.
abbrev pub InGroups : (DescribingUnit → Type 0) → Dict String (List DescribingUnit) → Type 0
InGroups Q = All (λ g. All Q g.1)

module _ (Q : DescribingUnit → Type 0) where
  InGroups-insert :
      (role_id : String) (units : List DescribingUnit)
      → All Q units
      → (d : Dict String (List DescribingUnit)) → InGroups Q d
      → InGroups Q (insert role_id units d)
  unfolding insert
  InGroups-insert role_id units q [] h = (q, tt)
  InGroups-insert role_id units q ((j, w) ∷ d) (g, h) = elim (Bool-cases (role_id == j)) [
    | inl e ↦ rw e (q, h)
    | inr e ↦ rw e (g, InGroups-insert role_id units q d h)
  ]

  get_or-All :
      (role_id : String) (d : Dict String (List DescribingUnit))
      → InGroups Q d
      → All Q (get_or role_id [] d)
  unfolding lookup
  get_or-All role_id [] h = tt
  get_or-All role_id ((j, w) ∷ d) (g, h) = elim (Bool-cases (role_id == j)) [
    | inl e ↦ rw (All, e) g
    | inr e ↦ rw (All, e) (get_or-All role_id d h)
  ]

  pub group_units-InGroups :
      (units : List DescribingUnit) (d : Dict String (List DescribingUnit))
      → All Q units
      → InGroups Q d
      → InGroups Q (group_units d units)
  unfolding group_units add_unit
  group_units-InGroups [] d qs h = h
  group_units-InGroups (unit ∷ units) d (q, qs) h =
      group_units-InGroups units (add_unit d unit) qs (
        InGroups-insert unit.role_id _
          (All-append Q (get_or unit.role_id [] d) _ (get_or-All unit.role_id d h) (q, tt)) d h)

module _ (F : Float) where
  -- The cache holds the verdict for the unit's text.
  abbrev pub Fresh :
      Dict String (IntelligenceVerdict F) → DescribingUnit → IntelligenceVerdict F → Type 0
  Fresh cache unit v = fresh_verdict F unit.content_hash (lookup unit.unit_key cache) ≡ some v

  -- The cache holds these verdicts for these units.
  abbrev pub Reads :
      Dict String (IntelligenceVerdict F)
      → List DescribingUnit
      → List (IntelligenceVerdict F)
      → Type 0
  Reads cache [] [] = Unit
  Reads cache (u ∷ us) (v ∷ vs) = Fresh cache u v × Reads cache us vs
  Reads cache _ _ = ⊥

  Fresh-insert :
      (cache : Dict String (IntelligenceVerdict F)) (unit other : DescribingUnit)
      (verdict v : IntelligenceVerdict F)
      → Agree other unit
      → fresh_verdict F unit.content_hash (lookup unit.unit_key cache) ≡ none
      → Fresh cache other v
      → Fresh (insert unit.unit_key verdict cache) other v
  Fresh-insert cache unit other verdict v agree stale fresh =
      rw (lookup-insert other.unit_key unit.unit_key verdict cache)
        (elim (Bool-cases (other.unit_key == unit.unit_key)) [
          | inl e ↦
              let k : other.unit_key ≡ unit.unit_key = ground (arith, e) in
              absurd (clash k (agree k) stale fresh)
          | inr e ↦ rw e fresh
        ])
    where
      clash :
          other.unit_key ≡ unit.unit_key
          → other.content_hash ≡ unit.content_hash
          → fresh_verdict F unit.content_hash (lookup unit.unit_key cache) ≡ none
          → Fresh cache other v
          → ⊥
      clash k h stale fresh = cc

  Fresh-inserted :
      (cache : Dict String (IntelligenceVerdict F)) (unit : DescribingUnit)
      (verdict : IntelligenceVerdict F)
      → verdict.content_hash ≡ unit.content_hash
      → Fresh (insert unit.unit_key verdict cache) unit verdict
  Fresh-inserted cache unit verdict h =
      rw
        (
          lookup-insert unit.unit_key unit.unit_key verdict cache,
          own unit.unit_key,
          h,
          own unit.content_hash,
        )
        refl
    where
      own : (s : String) → (s == s) ≡ true
      own s = ground arith

  module _ {W : Type 0} (inspect : String → Action W IntelligenceForecastResponse)
      (secrets : Dict String String) where
    abbrev pub judge :
        List DescribingUnit → Action (JudgeState F inspect secrets) (List (IntelligenceVerdict F))
    judge = judge_units F inspect secrets

    abbrev put_first :
        IntelligenceVerdict F
        → Outcome (List (IntelligenceVerdict F)) × JudgeState F inspect secrets
        → Outcome (List (IntelligenceVerdict F)) × JudgeState F inspect secrets
    put_first v (outcome, s) = (outcome >>=? λ vs. return (v ∷ vs), s)

    -- A unit whose verdict is in the cache
    judge_units-Fresh :
        (unit : DescribingUnit) (units : List DescribingUnit)
        (cache : Dict String (IntelligenceVerdict F)) (w : W) (v : IntelligenceVerdict F)
        → Fresh cache unit v
        → judge (unit ∷ units) (cache, w) ≡ put_first v (judge units (cache, w))
    unfolding judge_units
    judge_units-Fresh unit units cache w v e = rw (judge_units, e) refl

    -- A unit that the judge is asked about
    judge_units-asked :
        (unit : DescribingUnit) (units : List DescribingUnit)
        (cache : Dict String (IntelligenceVerdict F)) (w : W)
        (payload : IntelligenceForecastResponse)
        → fresh_verdict F unit.content_hash (lookup unit.unit_key cache) ≡ none
        → (inspect (assemble_intelligence_prompt unit secrets 12000) w).0 ≡ return payload
        → judge (unit ∷ units) (cache, w)
          ≡ put_first (verdict_of F payload unit.content_hash) (
              judge units (
                insert unit.unit_key (verdict_of F payload unit.content_hash) cache,
                (inspect (assemble_intelligence_prompt unit secrets 12000) w).1,
              ))
    unfolding judge_units
    judge_units-asked unit units cache w payload stale answered =
        rw (judge_units, stale, answered) refl

    judge_units-nil :
        (cache : Dict String (IntelligenceVerdict F)) (w : W)
        → judge [] (cache, w) ≡ (return [], (cache, w))
    unfolding judge_units
    judge_units-nil cache w = refl

    -- Units whose verdicts are in the cache leave everything as it was.
    pub judge_units-Reads :
        (units : List DescribingUnit) (vs : List (IntelligenceVerdict F))
        (cache : Dict String (IntelligenceVerdict F)) (w : W)
        → Reads cache units vs
        → judge units (cache, w) ≡ (return vs, (cache, w))
    judge_units-Reads [] [] cache w h = judge_units-nil cache w
    judge_units-Reads [] (v ∷ vs) cache w h = absurd h
    judge_units-Reads (u ∷ us) [] cache w h = absurd h
    judge_units-Reads (u ∷ us) (v ∷ vs) cache w (fresh, h) =
        rw (judge_units-Fresh u us cache w v fresh, judge_units-Reads us vs cache w h) refl

    module _
        (answers : (prompt : String) (w : W)
          → (payload : IntelligenceForecastResponse) × ((inspect prompt w).0
              ≡ return payload)) where
      -- What a run leaves: its verdicts are in the cache, and verdicts of units that agree stay.
      abbrev pub Kept :
          Dict String (IntelligenceVerdict F)
          → List DescribingUnit
          → Dict String (IntelligenceVerdict F)
          → Type 0
      Kept before units after =
          (other : DescribingUnit) (v : IntelligenceVerdict F)
          → All (Agree other) units
          → Fresh before other v
          → Fresh after other v

      abbrev pub Judged : List DescribingUnit → Dict String (IntelligenceVerdict F) → W → Type 0
      Judged units cache w =
          (vs : List (IntelligenceVerdict F)) × (after : Dict String (IntelligenceVerdict F))
          × (w' : W) × (judge units (cache, w) ≡ (return vs, (after, w')))
          × Reads after units vs
          × Kept cache units after

      verdict_of-hash :
          (payload : IntelligenceForecastResponse) (hash : String)
          → (verdict_of F payload hash).content_hash ≡ hash
      unfolding verdict_of
      verdict_of-hash payload hash = refl

      All-tails :
          (unit : DescribingUnit) (units us : List DescribingUnit)
          → All (λ u. All (Agree u) (unit ∷ units)) us
          → All (λ u. All (Agree u) units) us
      All-tails unit units [] h = tt
      All-tails unit units (u ∷ us) ((_, agree), h) = (agree, All-tails unit units us h)

      pub judge_units-Judged :
          (units : List DescribingUnit) (cache : Dict String (IntelligenceVerdict F)) (w : W)
          → All (λ u. All (Agree u) units) units
          → Judged units cache w
      judge_units-Judged [] cache w agree =
          ([], cache, w, judge_units-nil cache w, tt, λ other v _ fresh. fresh)
      judge_units-Judged (unit ∷ units) cache w ((own, agree), agrees) =
          go _ refl
            (λ cache' w'. judge_units-Judged units cache' w' (All-tails unit units units agrees))
        where
          ask : String
          ask = assemble_intelligence_prompt unit secrets 12000

          go :
              (found : Option (IntelligenceVerdict F))
              → fresh_verdict F unit.content_hash (lookup unit.unit_key cache) ≡ found
              → ((cache' : Dict String (IntelligenceVerdict F)) (w' : W) → Judged units cache' w')
              → Judged (unit ∷ units) cache w
          go (some v) fresh rest =
              let (vs, after, w', ran, reads, kept) = rest cache w in
              (
                v ∷ vs,
                after,
                w',
                judge_units-Fresh unit units cache w v fresh ∙ ap (put_first v) ran,
                (kept unit v agree fresh, reads),
                λ other u agreed. kept other u agreed.1,
              )
          go none stale rest =
              let (payload, answered) = answers ask w in
              let verdict = verdict_of F payload unit.content_hash in
              let (vs, after, w', ran, reads, kept) =
                rest (insert unit.unit_key verdict cache) (inspect ask w).1 in
              (
                verdict ∷ vs,
                after,
                w',
                judge_units-asked unit units cache w payload stale answered
                    ∙ ap (put_first verdict) ran,
                (
                  kept unit verdict agree (
                      Fresh-inserted cache unit verdict
                        (verdict_of-hash payload unit.content_hash)),
                  reads,
                ),
                λ other u agreed fresh.
                    kept other u agreed.1
                      (Fresh-insert cache unit other verdict u agreed.0 stale fresh),
              )

  pub Reads-Kept :
      (P : DescribingUnit → Type 0) (us : List DescribingUnit) (vs : List (IntelligenceVerdict F))
      (before after : Dict String (IntelligenceVerdict F))
      → ((other : DescribingUnit) (v : IntelligenceVerdict F)
          → P other
          → Fresh before other v
          → Fresh after other v)
      → All P us
      → Reads before us vs
      → Reads after us vs
  Reads-Kept P [] [] before after kept ps reads = tt
  Reads-Kept P [] (v ∷ vs) before after kept ps reads = absurd reads
  Reads-Kept P (u ∷ us) [] before after kept ps reads = absurd reads
  Reads-Kept P (u ∷ us) (v ∷ vs) before after kept (p, ps) (fresh, reads) =
      (kept u v p fresh, Reads-Kept P us vs before after kept ps reads)
