-- ===== src/Profiles/Combos.antt =====
-- What a slot is rewritten to.
use free_model_orchestrator.Base.{
  ◌≡◌, refl, String, Bool, true, false, Option, none, some, List, [], ◌∷◌, ◌++◌, ◌==◌, ◌||◌, ◌⊎◌,
  inl, inr, contains, string_eq, All, All-append, Bool-cases, arith, ◌∙◌, subst,
}
use free_model_orchestrator.Base.Dict.{Dict, lookup, keys}
use free_model_orchestrator.Effects.{Outcome, return, raise, ◌>>=?◌}
use free_model_orchestrator.Json.{Json, Fields}
use free_model_orchestrator.Profiles.{
  canonical, index_fmo_combos, combo_by_canonical, rewrite_target, slot_values, combo_or,
}
use free_model_orchestrator.Profiles.Slots.{
  ProfileRewrite, Disk, NormalizationResult, rewrite_if, plan_slots, plan_configs,
  default_profile_combo, rewrite_configs, group_rewrites, carry_out, normalize_profiles,
}
use free_model_orchestrator.Profiles.Indexed.{
  Offers, Sound, SoundIf, index_fmo_combos-SoundIf, none_found,
}

module _ (repr : Json → String) (current_combos : Dict String (List Json)) (disk : Disk) where
  -- The slot named no combo that is there. It now names a combo of FMO with a member of the same
  -- canonical name, or the main combo of the default profile.
  abbrev pub IsFounded : ProfileRewrite → Type 0
  IsFounded r =
      (contains (keys current_combos) r.old ≡ false)
      × ((r.old == "auto") ≡ false)
      × (Offers current_combos (canonical r.old) r.new
          ⊎ (default_profile_combo repr disk.configs ≡ some r.new))

  abbrev FoundedIf : Outcome (List ProfileRewrite) → Type 0
  FoundedIf (return plan) = All IsFounded plan
  FoundedIf (raise e) = Unit

  module _ (index : Dict String String) (sound : Sound (Offers current_combos) index) where
    abbrev target : String → Option String
    target value =
        rewrite_target value (keys current_combos) index (default_profile_combo repr disk.configs)

    rewrite_target-IsFounded :
        (profile : Option String) (slot value new : String)
        → target value ≡ some new
        → IsFounded (record { profile = profile; slot = slot; old = value; new = new })
    unfolding rewrite_target
    rewrite_target-IsFounded profile slot value new h =
        elim (Bool-cases (value == "" || value == "auto" || contains (keys current_combos) value)) [
          | inl e ↦ absurd (ground (arith, e, h))
          | inr e ↦ (
            ground (arith, e),
            ground (arith, e),
            go (lookup (canonical value) index) refl (rw (rewrite_target, e) at h),
          )
        ]
      where
        go :
            (found : Option String)
            → lookup (canonical value) index ≡ found
            → combo_or found (default_profile_combo repr disk.configs) ≡ some new
            → Offers current_combos (canonical value) new
              ⊎ (default_profile_combo repr disk.configs ≡ some new)
        go none eq k = inr k
        go (some combo_id) eq k = elim (Bool-cases (combo_id == "")) [
          | inl e ↦ inr (rw e at k)
          | inr e ↦
              let found : some combo_id ≡ some new = rw e at k in
              inl (sound (canonical value) new (eq ∙ found))
        ]

    abbrev plan_of : Option String → Dict String String → List ProfileRewrite
    plan_of = plan_slots (keys current_combos) index (default_profile_combo repr disk.configs)

    plan_slots-IsFounded :
        (profile : Option String) (slots : Dict String String)
        → All IsFounded (plan_of profile slots)
    unfolding plan_slots
    plan_slots-IsFounded profile [] = tt
    plan_slots-IsFounded profile ((slot, value) ∷ slots) =
        All-append IsFounded
          (rewrite_if (keys current_combos) index (default_profile_combo repr disk.configs) profile
            slot value (target value))
          _ (go (target value) refl) (plan_slots-IsFounded profile slots)
      where
        go :
            (new : Option String)
            → target value ≡ new
            → All IsFounded (
                rewrite_if
                  (keys current_combos)
                  index
                  (default_profile_combo repr disk.configs)
                  profile
                  slot
                  value
                  new)
        go none e = tt
        go (some new) e = elim (Bool-cases (new == value)) [
          | inl same ↦ rw same tt
          | inr other ↦ rw other (rewrite_target-IsFounded profile slot value new e, tt)
        ]

    plan_configs-FoundedIf :
        (configs : Dict (Option String) Fields)
        → FoundedIf (
            plan_configs
              (keys current_combos)
              index
              (default_profile_combo repr disk.configs)
              repr
              configs)
    unfolding plan_configs
    plan_configs-FoundedIf [] = tt
    plan_configs-FoundedIf ((profile, config) ∷ configs) =
        go (slot_values repr config) _ (plan_configs-FoundedIf configs)
      where
        go :
            (slots : Outcome (Dict String String)) (rest : Outcome (List ProfileRewrite))
            → FoundedIf rest
            → FoundedIf
                (slots >>=? λ slots. rest >>=? λ others. return (plan_of profile slots ++ others))
        go (raise e) rest h = tt
        go (return slots) (raise e) h = tt
        go (return slots) (return others) h =
            All-append IsFounded (plan_of profile slots) others (plan_slots-IsFounded profile slots)
              h

  abbrev ResultFounded : Outcome NormalizationResult → Type 0
  ResultFounded (return result) = All IsFounded result.rewrites
  ResultFounded (raise e) = Unit

  carry_out-ResultFounded :
      (plan : List ProfileRewrite) (dry_run : Bool)
      → All IsFounded plan
      → ResultFounded (carry_out plan dry_run disk).0
  unfolding carry_out
  carry_out-ResultFounded [] dry_run h = h
  carry_out-ResultFounded (r ∷ rs) true h = h
  carry_out-ResultFounded (r ∷ rs) false h =
      go (rewrite_configs (group_rewrites [] (r ∷ rs)) disk).0
    where
      go :
          (done : Outcome (List (Option String)))
          → ResultFounded (
              done >>=? λ backups.
              return (record { rewrites = r ∷ rs; changed = true; backups = backups }))
      go (raise e) = tt
      go (return backups) = h

  normalize_profiles-ResultFounded :
      (dry_run : Bool) → ResultFounded (normalize_profiles repr current_combos dry_run disk).0
  unfolding normalize_profiles combo_by_canonical
  normalize_profiles-ResultFounded dry_run =
      go (index_fmo_combos current_combos [])
        (index_fmo_combos-SoundIf (Offers current_combos) current_combos [] (λ key c h. h) nothing)
    where
      nothing : Sound (Offers current_combos) []
      nothing key c h = absurd (none_found key c h)

      carried :
          (plan : Outcome (List ProfileRewrite))
          → FoundedIf plan
          → ResultFounded
              (elim plan as (λ x. Outcome NormalizationResult × Disk) [
                | raise e ↦ (raise e, disk)
                | return plan ↦ carry_out plan dry_run disk
              ]).0
      carried (raise e) h = tt
      carried (return plan) h = carry_out-ResultFounded plan dry_run h

      go :
          (index : Outcome (Dict String String))
          → SoundIf (Offers current_combos) index
          → ResultFounded
              (elim (index >>=? λ index.
                  plan_configs
                    (keys current_combos)
                    index
                    (default_profile_combo repr disk.configs)
                    repr
                    disk.configs)
                as (λ x. Outcome NormalizationResult × Disk) [
                  | raise e ↦ (raise e, disk)
                  | return plan ↦ carry_out plan dry_run disk
                ]).0
      go (raise e) sound = tt
      go (return index) sound =
          carried
            (plan_configs (keys current_combos) index (default_profile_combo repr disk.configs) repr
              disk.configs)
            (plan_configs-FoundedIf index sound disk.configs)

  -- Every rewrite that a normalization returns replaces a name under which there is no combo, and
  -- that is not "auto", by a combo of FMO with a member of the same canonical name, or by the main
  -- combo of the default profile.
  pub normalize_profiles-IsFounded :
      (dry_run : Bool) (result : NormalizationResult)
      → (normalize_profiles repr current_combos dry_run disk).0 ≡ return result
      → All IsFounded result.rewrites
  normalize_profiles-IsFounded dry_run result h =
      subst ResultFounded h (normalize_profiles-ResultFounded dry_run)
