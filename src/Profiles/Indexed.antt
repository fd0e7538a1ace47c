-- ===== src/Profiles/Indexed.antt =====
-- profile_normalization.py: the index of the combos of FMO by the canonical names of their members.
use text.Mathlib.Text.{starts_with}
use free_model_orchestrator.Base.{
  ◌≡◌, refl, String, true, Option, none, some, List, [], ◌∷◌, ◌==◌, ◌⊎◌, inl, inr, string_eq,
  Bool-cases, arith, ◌∙◌, sym, subst,
}
use free_model_orchestrator.Base.Dict.{Dict, lookup, insert, lookup-insert}
use free_model_orchestrator.Effects.{Outcome, return, raise, ◌>>=?◌}
use free_model_orchestrator.Json.{Json}
use free_model_orchestrator.Profiles.{canonical_of, set_if_new, index_members, index_fmo_combos}

-- A member of the list has the canonical name.
abbrev pub HasMember : String → List Json → Type 0
HasMember key [] = ⊥
HasMember key (member ∷ members) = (canonical_of member ≡ return key) ⊎ HasMember key members

-- A combo of FMO under this id has such a member.
abbrev pub Offers : Dict String (List Json) → String → String → Type 0
Offers [] key combo_id = ⊥
Offers ((id, members) ∷ combos) key combo_id =
    ((id ≡ combo_id) × (starts_with id "fmo-" ≡ true) × HasMember key members)
    ⊎ Offers combos key combo_id

module _ (P : String → String → Type 0) where
  -- Every entry of the index fulfils `P`.
  abbrev pub Sound : Dict String String → Type 0
  Sound index = (key combo_id : String) → lookup key index ≡ some combo_id → P key combo_id

  abbrev pub SoundIf : Outcome (Dict String String) → Type 0
  SoundIf (return index) = Sound index
  SoundIf (raise e) = Unit

  set_if_new-Sound :
      (key combo_id : String) (index : Dict String String)
      → P key combo_id
      → Sound index
      → Sound (set_if_new key combo_id index)
  unfolding set_if_new
  set_if_new-Sound key combo_id index p sound = go (lookup key index)
    where
      inserted : Sound (insert key combo_id index)
      inserted k c h = elim (Bool-cases (k == key)) [
        | inl e ↦
            let found : some combo_id ≡ some c =
              sym (lookup-insert k key combo_id index ∙ rw e refl) ∙ h in
            subst (λ x. P x c) (sym (ground (arith, e))) (subst (λ x. P key x) (cc) p)
        | inr e ↦ sound k c (sym (lookup-insert k key combo_id index ∙ rw e refl) ∙ h)
      ]

      go :
          (found : Option String)
          → Sound (elim found [ none ↦ insert key combo_id index | some _ ↦ index ])
      go none = inserted
      go (some _) = sound

  index_members-SoundIf :
      (combo_id : String) (members : List Json) (index : Dict String String)
      → ((key : String) → HasMember key members → P key combo_id)
      → Sound index
      → SoundIf (index_members combo_id members index)
  unfolding index_members
  index_members-SoundIf combo_id [] index ps sound = sound
  index_members-SoundIf combo_id (member ∷ members) index ps sound =
      go (canonical_of member) refl
        (λ index'. index_members-SoundIf combo_id members index' (λ key h. ps key (inr h)))
    where
      go :
          (r : Outcome String)
          → canonical_of member ≡ r
          → ((index' : Dict String String)
              → Sound index'
              → SoundIf (index_members combo_id members index'))
          → SoundIf (r >>=? λ key. index_members combo_id members (set_if_new key combo_id index))
      go (raise e) eq rest = tt
      go (return key) eq rest =
          rest (set_if_new key combo_id index)
            (set_if_new-Sound key combo_id index (ps key (inl eq)) sound)

  pub index_fmo_combos-SoundIf :
      (combos : Dict String (List Json)) (index : Dict String String)
      → ((key combo_id : String) → Offers combos key combo_id → P key combo_id)
      → Sound index
      → SoundIf (index_fmo_combos combos index)
  unfolding index_fmo_combos
  index_fmo_combos-SoundIf [] index ps sound = sound
  index_fmo_combos-SoundIf ((id, members) ∷ combos) index ps sound =
      elim (Bool-cases (starts_with id "fmo-")) [
        | inl e ↦ rw e (
            go (index_members id members index)
              (index_members-SoundIf id members index (λ key h. ps key id (inl (refl, e, h))) sound)
              (λ index'. index_fmo_combos-SoundIf combos index' (λ key c h. ps key c (inr h))))
        | inr e ↦ rw e (index_fmo_combos-SoundIf combos index (λ key c h. ps key c (inr h)) sound)
      ]
    where
      go :
          (r : Outcome (Dict String String))
          → SoundIf r
          → ((index' : Dict String String)
              → Sound index'
              → SoundIf (index_fmo_combos combos index'))
          → SoundIf (r >>=? λ index. index_fmo_combos combos index)
      go (raise e) h rest = tt
      go (return index') h rest = rest index' h

pub none_found : (key combo_id : String) → lookup key [] ≡ some combo_id → ⊥
unfolding lookup
none_found key combo_id h = cc
