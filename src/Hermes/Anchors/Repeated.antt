-- ===== src/Hermes/Anchors/Repeated.antt =====
-- A second refresh of the quality anchors asks the judge nothing.
use free_model_orchestrator.Base.{◌≡◌, refl, String, List, [], ◌∷◌, string_eq, All, ap, ◌∙◌}
use free_model_orchestrator.Base.Dict.{Dict, insert}
use free_model_orchestrator.Base.Float.{Float}
use free_model_orchestrator.Effects.{Outcome, return, raise, Action}
use free_model_orchestrator.Hermes.{Inventory}
use free_model_orchestrator.Hermes.Anchors.{
  DescribingUnit, IntelligenceForecastResponse, IntelligenceVerdict, RoleQualityAnchor, group_units,
  floor_anchors, describing_units, judge_units, judge_roles, anchor_of, role_quality_anchors,
  JudgeState,
}
use free_model_orchestrator.Hermes.Anchors.Cached.{
  Agree, InGroups, group_units-InGroups, Fresh, Reads, judge, judge_units-Reads, judge_units-Judged,
  Reads-Kept,
}

module _ (F : Float) where
  open F use {Number}

  module _ {W : Type 0} (inspect : String → Action W IntelligenceForecastResponse)
      (secrets : Dict String String) where
    module _
        (answers : (prompt : String) (w : W)
          → (payload : IntelligenceForecastResponse) × ((inspect prompt w).0
              ≡ return payload)) where
      module _ (seed_anchors : Dict String (RoleQualityAnchor F)) where
        abbrev Anchors : Type 0
        Anchors = Dict String (RoleQualityAnchor F)

        abbrev Groups : Type 0
        Groups = Dict String (List DescribingUnit)

        abbrev run : Anchors → Groups → Action (JudgeState F inspect secrets) Anchors
        run = judge_roles F inspect secrets seed_anchors

        -- What a run leaves: it is the same run again that changes nothing.
        abbrev Settled : Anchors → Groups → Dict String (IntelligenceVerdict F) → W → Type 0
        Settled anchors groups cache w =
            (out : Outcome Anchors) × (after : Dict String (IntelligenceVerdict F)) × (w' : W)
            × (run anchors groups (cache, w) ≡ (out, (after, w')))
            × ((w'' : W) → run anchors groups (after, w'') ≡ (out, (after, w'')))
            × ((other : DescribingUnit) (v : IntelligenceVerdict F)
                → InGroups (Agree other) groups
                → Fresh F cache other v
                → Fresh F after other v)

        abbrev continue :
            String
            → Anchors
            → Groups
            → Outcome (RoleQualityAnchor F)
            → JudgeState F inspect secrets
            → Outcome Anchors × JudgeState F inspect secrets
        continue role_id anchors groups (raise e) s = (raise e, s)
        continue role_id anchors groups (return anchor) s =
            run (insert role_id anchor anchors) groups s

        judge_roles-step :
            (role_id : String) (units : List DescribingUnit) (groups : Groups) (anchors : Anchors)
            (s : JudgeState F inspect secrets)
            → run anchors ((role_id, units) ∷ groups) s
              ≡ continue role_id anchors groups
                  (anchor_of F inspect secrets seed_anchors anchors role_id units
                    (judge_units F inspect secrets units s).0)
                  (judge_units F inspect secrets units s).1
        unfolding judge_roles
        judge_roles-step role_id units groups anchors s = go (
            anchor_of F inspect secrets seed_anchors anchors role_id units
              (judge_units F inspect secrets units s).0)
          where
            go :
                (anchor : Outcome (RoleQualityAnchor F))
                → (elim anchor as (λ x. Outcome Anchors × JudgeState F inspect secrets) [
                  | raise e ↦ (raise e, (judge_units F inspect secrets units s).1)
                  | return a ↦
                      judge_roles F inspect secrets seed_anchors
                        (insert role_id a anchors)
                        groups
                        (judge_units F inspect secrets units s).1
                ])
                  ≡ continue role_id anchors groups anchor (judge_units F inspect secrets units s).1
            go (raise e) = refl
            go (return a) = refl

        judge_roles-nil :
            (anchors : Anchors) (s : JudgeState F inspect secrets)
            → run anchors [] s ≡ (return anchors, s)
        unfolding judge_roles
        judge_roles-nil anchors s = refl

        judge_roles-at :
            (role_id : String) (units : List DescribingUnit) (groups : Groups) (anchors : Anchors)
            (s s' : JudgeState F inspect secrets) (vs : List (IntelligenceVerdict F))
            {anchor : Outcome (RoleQualityAnchor F)}
            → judge_units F inspect secrets units s ≡ (return vs, s')
            → anchor_of F inspect secrets seed_anchors anchors role_id units (return vs) ≡ anchor
            → run anchors ((role_id, units) ∷ groups) s ≡ continue role_id anchors groups anchor s'
        judge_roles-at role_id units groups anchors s s' vs ran e =
            judge_roles-step role_id units groups anchors s
            ∙ ap
                (λ r.
                  continue role_id anchors groups
                    (anchor_of F inspect secrets seed_anchors anchors role_id units r.0) r.1)
                ran
            ∙ ap (λ a. continue role_id anchors groups a s') e

        abbrev GroupsAgree : Groups → Groups → Type 0
        GroupsAgree all groups = InGroups (λ u. InGroups (Agree u) all) groups

        unit_tails :
            (first : String × List DescribingUnit) (rest : Groups) (us : List DescribingUnit)
            → All (λ u. InGroups (Agree u) (first ∷ rest)) us
            → All (λ u. All (Agree u) first.1) us × All (λ u. InGroups (Agree u) rest) us
        unit_tails first rest [] h = (tt, tt)
        unit_tails first rest (u ∷ us) ((a, b), h) =
            let (as', bs) = unit_tails first rest us h in ((a, as'), (b, bs))

        group_tails :
            (first : String × List DescribingUnit) (rest groups : Groups)
            → GroupsAgree (first ∷ rest) groups
            → GroupsAgree rest groups
        group_tails first rest [] h = tt
        group_tails first rest ((_, us) ∷ groups) (g, h) =
            ((unit_tails first rest us g).1, group_tails first rest groups h)

        judge_roles-Settled :
            (groups : Groups) (anchors : Anchors) (cache : Dict String (IntelligenceVerdict F))
            (w : W)
            → GroupsAgree groups groups
            → Settled anchors groups cache w
        judge_roles-Settled [] anchors cache w agree =
            (return anchors, cache, w, nothing w, nothing, λ other v _ fresh. fresh)
          where
            nothing : (w' : W) → run anchors [] (cache, w') ≡ (return anchors, (cache, w'))
            nothing w' = judge_roles-nil anchors (cache, w')
        judge_roles-Settled ((role_id, units) ∷ groups) anchors cache w (own, agree) =
            let (heads, tails) = unit_tails (role_id, units) groups units own in
            let (vs, mid, w1, ran, reads, kept) =
              judge_units-Judged F inspect secrets answers units cache w heads in
            go vs mid w1 ran reads kept tails heads _ refl (λ anchors' cache' w'.
              judge_roles-Settled groups anchors' cache' w'
                (group_tails (role_id, units) groups groups agree))
          where
            go :
                (vs : List (IntelligenceVerdict F)) (mid : Dict String (IntelligenceVerdict F))
                (w1 : W)
                → judge F inspect secrets units (cache, w) ≡ (return vs, (mid, w1))
                → Reads F mid units vs
                → ((other : DescribingUnit) (v : IntelligenceVerdict F)
                    → All (Agree other) units
                    → Fresh F cache other v
                    → Fresh F mid other v)
                → All (λ u. InGroups (Agree u) groups) units
                → All (λ u. All (Agree u) units) units
                → (anchor : Outcome (RoleQualityAnchor F))
                → anchor_of F inspect secrets seed_anchors anchors role_id units (return vs)
                  ≡ anchor
                → ((anchors' : Anchors) (cache' : Dict String (IntelligenceVerdict F)) (w' : W)
                    → Settled anchors' groups cache' w')
                → Settled anchors ((role_id, units) ∷ groups) cache w
            go vs mid w1 ran reads kept tails heads (raise e) eq rest = (
              raise e,
              mid,
              w1,
              judge_roles-at role_id units groups anchors _ _ vs ran eq,
              λ w''.
                  judge_roles-at role_id units groups anchors _ _ vs
                    (judge_units-Reads F inspect secrets units vs mid w'' reads) eq,
              λ other v agreed. kept other v agreed.0,
            )
            go vs mid w1 ran reads kept tails heads (return anchor) eq rest =
                let (out, after, w2, r, again, keeps) =
                  rest (insert role_id anchor anchors) mid w1 in
                let later =
                  Reads-Kept F (λ u. InGroups (Agree u) groups) units vs mid after keeps tails
                    reads in
                (
                  out,
                  after,
                  w2,
                  judge_roles-at role_id units groups anchors _ _ vs ran eq ∙ r,
                  λ w''.
                      judge_roles-at role_id units groups anchors _ _ vs
                        (judge_units-Reads F inspect secrets units vs after w'' later) eq
                      ∙ again w'',
                  λ other v agreed fresh. keeps other v agreed.1 (kept other v agreed.0 fresh),
                )

        -- A judge that answers is asked once: a refresh of the same inventory on the cache that a
        -- refresh left returns the same anchors, writes nothing and asks nothing, where consumers
        -- with one key have one text.
        pub role_quality_anchors_again :
            (sha256 : String → String) (inventory : Inventory F) (adequacy_floor : Number)
            (s : JudgeState F inspect secrets)
            → All
                (λ u. All (Agree u) (describing_units F sha256 inventory.consumers))
                (describing_units F sha256 inventory.consumers)
            → let refresh =
                role_quality_anchors F inspect secrets seed_anchors sha256 inventory
                  adequacy_floor in
              refresh (refresh s).1 ≡ refresh s
        unfolding role_quality_anchors
        role_quality_anchors_again sha256 inventory adequacy_floor s agree =
            let units = describing_units F sha256 inventory.consumers in
            let groups = group_units [] units in
            let (out, after, w', first, again, kept) =
              judge_roles-Settled groups (floor_anchors F adequacy_floor [] inventory.consumers) s.0
                s.1
                (group_units-InGroups (λ u. InGroups (Agree u) groups) units []
                  (All_groups units groups units
                    (λ u h. group_units-InGroups (Agree u) units [] h tt) agree)
                  tt) in
            rw first (again w')
          where
            All_groups :
                (units : List DescribingUnit) (groups : Groups) (us : List DescribingUnit)
                → ((u : DescribingUnit) → All (Agree u) units → InGroups (Agree u) groups)
                → All (λ u. All (Agree u) units) us
                → All (λ u. InGroups (Agree u) groups) us
            All_groups units groups [] f h = tt
            All_groups units groups (u ∷ us) f (a, h) = (f u a, All_groups units groups us f h)
