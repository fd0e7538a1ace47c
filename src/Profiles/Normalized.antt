-- ===== src/Profiles/Normalized.antt =====
-- What the normalization of the profiles writes.
use free_model_orchestrator.Base.{
  ◌≡◌, refl, String, Bool, true, false, Option, none, some, List, [], ◌∷◌, ◌==◌, ◌⊎◌, inl, inr,
  ◌||◌, contains, string_eq, option_eq, Eq, Bool-cases, arith, ◌∙◌, sym,
}
use free_model_orchestrator.Base.Dict.{Dict, lookup, insert, keys, lookup-insert}
use free_model_orchestrator.Effects.{Outcome, return, raise, lookup_error, ◌>>=?◌}
use free_model_orchestrator.Json.{Json, Fields}
use free_model_orchestrator.Profiles.{combo_by_canonical}
use free_model_orchestrator.Profiles.Slots.{
  ProfileRewrite, Disk, NormalizationResult, set_slots, group_rewrites, rewrite_config,
  rewrite_configs, carry_out, plan_configs, default_profile_combo, normalize_profiles,
}

module _ {ℓ κ} {K : Type ℓ} {V : Type κ} ⦃e : Eq K⦄ where
  contains-keys-insert :
      (j k : K) (v : V) (d : Dict K V)
      → contains (keys (insert k v d)) j ≡ (j == k || contains (keys d) j)
  unfolding insert keys
  contains-keys-insert j k v [] = refl
  contains-keys-insert j k v ((i, w) ∷ d) = ground (arith, contains-keys-insert j k v d)

  -- No key stands twice.
  abbrev Distinct : Dict K V → Type 0
  Distinct [] = Unit
  Distinct ((k, _) ∷ d) = (contains (keys d) k ≡ false) × Distinct d

  Distinct-insert : (k : K) (v : V) (d : Dict K V) → Distinct d → Distinct (insert k v d)
  unfolding insert keys
  Distinct-insert k v [] h = (refl, tt)
  Distinct-insert k v ((i, w) ∷ d) (own, h) = elim (Bool-cases (k == i)) [
    | inl same ↦ rw same (own, h)
    | inr other ↦
        rw other (ground (arith, contains-keys-insert i k v d, own, other), Distinct-insert k v d h)
  ]

group_rewrites-Distinct :
    (rs : List ProfileRewrite) (groups : Dict (Option String) (List ProfileRewrite))
    → Distinct groups
    → Distinct (group_rewrites groups rs)
unfolding group_rewrites
group_rewrites-Distinct [] groups h = h
group_rewrites-Distinct (r ∷ rs) groups h =
    group_rewrites-Distinct rs _ (Distinct-insert r.profile _ groups h)

-- The config of the profile is as it was, or its copy is.
abbrev pub IsSafe : Disk → Disk → Option String → Type 0
IsSafe before after profile =
    (lookup profile after.configs ≡ lookup profile before.configs)
    ⊎ (lookup profile after.backups ≡ lookup profile before.configs)

module _ (profile p : Option String) (disk after : Disk) where
  -- Only the files of the profile are written, and its config not before its copy.
  abbrev IsStep : Type 0
  IsStep =
      ((p == profile) ≡ false
        → (lookup p after.configs ≡ lookup p disk.configs)
          × (lookup p after.backups ≡ lookup p disk.backups))
      × ((p == profile) ≡ true
          → ((lookup p after.configs ≡ lookup p disk.configs)
              × (lookup p after.backups ≡ lookup p disk.backups))
            ⊎ (lookup p after.backups ≡ lookup p disk.configs))

rewrite_config-IsStep :
    (profile p : Option String) (rewrites : List ProfileRewrite) (disk : Disk)
    → IsStep profile p disk (rewrite_config profile rewrites disk).1
unfolding rewrite_config
rewrite_config-IsStep profile p rewrites disk = go (lookup profile disk.configs) refl
  where
    same : (p == profile) ≡ true → p ≡ profile
    same h = ground (arith, h)

    go :
        (found : Option Fields)
        → lookup profile disk.configs ≡ found
        → IsStep profile p disk
            (elim found as (λ x. Outcome (Option String) × Disk) [
              | none ↦ (raise (record { kind = lookup_error; message = "no such file" }), disk)
              | some config ↦
                  let copied : Disk = record disk {
                    backups = insert profile config disk.backups;
                  } in
                  elim (set_slots rewrites config) [
                    | raise e ↦ (raise e, copied)
                    | return config ↦ (
                      return profile,
                      record copied { configs = insert profile config copied.configs },
                    )
                  ]
            ]).1
    go none e = (λ h. (refl, refl), λ h. inl (refl, refl))
    go (some config) e = written (set_slots rewrites config)
      where
        written :
            (done : Outcome Fields)
            → IsStep profile p disk
                (elim done as (λ x. Outcome (Option String) × Disk) [
                  | raise e ↦
                      (raise e, record disk { backups = insert profile config disk.backups })
                  | return new ↦ (
                    return profile,
                    record disk {
                      configs = insert profile new disk.configs;
                      backups = insert profile config disk.backups;
                    },
                  )
                ]).1
        written (raise _) = (
          λ h. (refl, lookup-insert p profile config disk.backups ∙ rw h refl),
          λ h. inr (lookup-insert p profile config disk.backups ∙ rw h (rw (same h) (sym e))),
        )
        written (return new) = (
          λ h. (
            lookup-insert p profile new disk.configs ∙ rw h refl,
            lookup-insert p profile config disk.backups ∙ rw h refl,
          ),
          λ h. inr (lookup-insert p profile config disk.backups ∙ rw h (rw (same h) (sym e))),
        )

module _ (before : Disk) where
  -- What is not rewritten yet is as it was.
  abbrev IsPending : Dict (Option String) (List ProfileRewrite) → Disk → Type 0
  IsPending groups disk =
      (p : Option String)
      → contains (keys groups) p ≡ true
      → lookup p disk.configs ≡ lookup p before.configs

  rewrite_configs-IsSafe :
      (groups : Dict (Option String) (List ProfileRewrite)) (disk : Disk)
      → Distinct groups
      → IsPending groups disk
      → ((p : Option String) → IsSafe before disk p)
      → (p : Option String) → IsSafe before (rewrite_configs groups disk).1 p
  unfolding rewrite_configs keys
  rewrite_configs-IsSafe [] disk distinct pending safe p = safe p
  rewrite_configs-IsSafe ((profile, rewrites) ∷ groups) disk (own, distinct) pending safe p =
      go (rewrite_config profile rewrites disk).0 (
        rewrite_configs-IsSafe groups (rewrite_config profile rewrites disk).1 distinct still safe1
          p)
    where
      disk1 : Disk
      disk1 = (rewrite_config profile rewrites disk).1

      moved :
          (q : Option String)
          → (lookup q disk1.configs ≡ lookup q disk.configs)
            × (lookup q disk1.backups ≡ lookup q disk.backups)
          → IsSafe before disk q
          → IsSafe before disk1 q
      moved q (c, b) (inl h) = inl (c ∙ h)
      moved q (c, b) (inr h) = inr (b ∙ h)

      safe1 : (q : Option String) → IsSafe before disk1 q
      safe1 q = elim (Bool-cases (q == profile)) [
        | inr e ↦ moved q ((rewrite_config-IsStep profile q rewrites disk).0 e) (safe q)
        | inl e ↦ elim ((rewrite_config-IsStep profile q rewrites disk).1 e) [
          | inl same ↦ moved q same (safe q)
          | inr copied ↦ inr (copied ∙ pending q (ground (arith, e)))
        ]
      ]

      still : IsPending groups disk1
      still q h = elim (Bool-cases (q == profile)) [
        | inr e ↦
            ((rewrite_config-IsStep profile q rewrites disk).0 e).0 ∙ pending q (ground (arith, h))
        | inl e ↦ absurd (ground (arith, e, h, own))
      ]

      go :
          (done : Outcome (Option String))
          → IsSafe before (rewrite_configs groups disk1).1 p
          → IsSafe before
              (elim done as (λ x. Outcome (List (Option String)) × Disk) [
                | raise e ↦ (raise e, disk1)
                | return backup ↦
                    let (rest, disk2) = rewrite_configs groups disk1 in
                    (rest >>=? λ backups. return (backup ∷ backups), disk2)
              ]).1
              p
      go (raise e) h = safe1 p
      go (return backup) h = h

module _ (repr : Json → String) (current_combos : Dict String (List Json)) where
  carry_out-IsSafe :
      (plan : List ProfileRewrite) (dry_run : Bool) (disk : Disk) (p : Option String)
      → IsSafe disk (carry_out plan dry_run disk).1 p
  unfolding carry_out
  carry_out-IsSafe [] dry_run disk p = inl refl
  carry_out-IsSafe (r ∷ rs) true disk p = inl refl
  carry_out-IsSafe (r ∷ rs) false disk p =
      rewrite_configs-IsSafe disk (group_rewrites [] (r ∷ rs)) disk
        (group_rewrites-Distinct (r ∷ rs) [] tt) (λ q h. refl) (λ q. inl refl) p

  carry_out-dry_run :
      (plan : List ProfileRewrite) (disk : Disk) → (carry_out plan true disk).1 ≡ disk
  unfolding carry_out
  carry_out-dry_run [] disk = refl
  carry_out-dry_run (r ∷ rs) disk = refl

  -- However a normalization ends, each config is as it was, or its copy is; a dry run writes
  -- nothing.
  pub normalize_profiles-IsSafe :
      (dry_run : Bool) (disk : Disk)
      → ((p : Option String)
          → IsSafe disk (normalize_profiles repr current_combos dry_run disk).1 p)
        × (dry_run ≡ true → (normalize_profiles repr current_combos dry_run disk).1 ≡ disk)
  unfolding normalize_profiles
  normalize_profiles-IsSafe dry_run disk = go (
      combo_by_canonical current_combos >>=? λ index.
      plan_configs (keys current_combos) index (default_profile_combo repr disk.configs) repr
        disk.configs)
    where
      go :
          (plan : Outcome (List ProfileRewrite))
          → ((p : Option String)
              → IsSafe disk
                  (elim plan as (λ x. Outcome NormalizationResult × Disk) [
                    | raise e ↦ (raise e, disk)
                    | return plan ↦ carry_out plan dry_run disk
                  ]).1
                  p)
            × (dry_run ≡ true
                → (elim plan as (λ x. Outcome NormalizationResult × Disk) [
                  | raise e ↦ (raise e, disk)
                  | return plan ↦ carry_out plan dry_run disk
                ]).1
                  ≡ disk)
      go (raise e) = (λ p. inl refl, λ h. refl)
      go (return plan) =
          (carry_out-IsSafe plan dry_run disk, λ h. rw h (carry_out-dry_run plan disk))
