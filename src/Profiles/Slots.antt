-- ===== src/Profiles/Slots.antt =====
-- profile_normalization.py: writing a slot, and the normalization of the configs on disk. A config is
-- known by its profile, `none` for the config.yaml of the home itself, and its file holds the value
-- that was dumped. The profiles that have a config.yaml are listed in the order of their names.
use free_model_orchestrator.Base.{
  String, Bool, true, false, Option, none, some, List, [], ◌∷◌, ◌++◌, ◌==◌, string_eq, option_eq,
  if◌then◌else◌,
}
use free_model_orchestrator.Base.Dict.{Dict, lookup, insert, get_or, keys}
use free_model_orchestrator.Effects.{
  Outcome, return, raise, type_error, index_error, lookup_error, ◌>>=?◌, Action,
}
use free_model_orchestrator.Json.{Json, null, bool, int, decimal, str, arr, obj, Fields, end, get}
use free_model_orchestrator.Text.{split}
use free_model_orchestrator.Hermes.Auxiliary.{get_or_null, set_field}
use free_model_orchestrator.Profiles.{
  as_mapping, main_combo, slot_values, rewrite_target, combo_by_canonical,
}

-- `d.setdefault(key, {})` as a mapping, changed in place
abbrev pub within : String → (Fields → Outcome Fields) → Fields → Outcome Fields
unfolding get set_field
within key change fields =
    elim (get key fields) [ none ↦ return end | some value ↦ as_mapping value ] >>=? λ inner.
    change inner >>=? λ inner. return (set_field key (obj inner) fields)

-- `route["model"] = value` and `route["provider"] = "omniroute"` on a value
abbrev set_route : String → Json → Outcome Json
unfolding set_field
set_route value (obj route) =
    return (obj (set_field "provider" (str "omniroute") (set_field "model" (str value) route)))
set_route value _ = raise (record { kind = type_error; message = "item assignment" })

abbrev route_or_new : Option Json → Json
route_or_new none = obj end
route_or_new (some route) = route

abbrev set_in_routes : String → String → Fields → Outcome Fields
unfolding get set_field set_route
set_in_routes name value routes = set_route value (route_or_new (get name routes)) >>=? λ route.
    return (set_field name route routes)

-- `_set_auxiliary_slot`
unfoldable pub set_auxiliary_slot : String → String → Fields → Outcome Fields
unfolding within set_in_routes
set_auxiliary_slot name value = within "auxiliary" (set_in_routes name value)

abbrev set_main : String → Fields → Fields
unfolding get set_field
set_main value config = elim (get_or_null "model" config) [
  | obj model ↦ set_field "model" (obj (set_field "default" (str value) model)) config
  | null ↦ set_field "model" (str value) config
  | bool _ ↦ set_field "model" (str value) config
  | int _ ↦ set_field "model" (str value) config
  | decimal _ _ ↦ set_field "model" (str value) config
  | str _ ↦ set_field "model" (str value) config
  | arr _ ↦ set_field "model" (str value) config
]

abbrev no_part {ℓ} : {A : Type ℓ} → Outcome A
no_part = raise (record { kind = index_error; message = "list index out of range" })

-- What `_set_slot` does to the platform `parts[2]`, from the parts behind it
abbrev set_in_platform : List String → String → Fields → Outcome Fields
unfolding set_field set_auxiliary_slot
set_in_platform (_ ∷ []) value platform = return (set_field "model" (str value) platform)
set_in_platform (_ ∷ name ∷ _) value platform = set_auxiliary_slot name value platform
set_in_platform [] value platform = no_part

abbrev set_gateway : List String → String → Fields → Outcome Fields
unfolding within set_in_platform
set_gateway (_ ∷ name ∷ rest) value =
    within "gateway" (within "platforms" (within name (set_in_platform rest value)))
set_gateway _ value = λ _. no_part

abbrev set_parts : List String → String → Fields → Outcome Fields
unfolding set_auxiliary_slot set_gateway
set_parts [] value config = no_part
set_parts (first ∷ rest) value config =
    if first == "auxiliary"
    then elim rest [ [] ↦ no_part | ◌∷◌ name _ ↦ set_auxiliary_slot name value config ]
    else set_gateway rest value config

-- `_set_slot`
unfoldable pub set_slot : String → String → Fields → Outcome Fields
unfolding split set_main set_parts
set_slot slot value config =
    if slot == "model"
    then return (set_main value config)
    else set_parts (split 46 slot) value config

pub record ProfileRewrite : Type 0 where
  pub profile : Option String
  pub slot : String
  pub old : String
  pub new : String

pub record Disk : Type 0 where
  -- What the files config.yaml and config.yaml.bak hold
  pub configs : Dict (Option String) Fields
  pub backups : Dict (Option String) Fields

pub record NormalizationResult : Type 0 where
  pub rewrites : List ProfileRewrite
  pub changed : Bool
  pub backups : List (Option String)

-- `_default_profile_combo`
abbrev first_main : (Json → String) → Dict (Option String) Fields → Option String
unfolding main_combo
first_main repr [] = none
first_main repr ((_, config) ∷ _) = main_combo repr config

unfoldable pub default_profile_combo : (Json → String) → Dict (Option String) Fields → Option String
unfolding lookup main_combo first_main
default_profile_combo repr configs = elim (lookup (some "default") configs) [
  | some config ↦ main_combo repr config
  | none ↦ first_main repr configs
]

module _ (existing_combos : List String) (index : Dict String String)
    (default_combo : Option String) where
  abbrev pub rewrite_if : Option String → String → String → Option String → List ProfileRewrite
  rewrite_if profile slot value none = []
  rewrite_if profile slot value (some target) =
      if target == value
      then []
      else (record { profile = profile; slot = slot; old = value; new = target }) ∷ []

  unfoldable pub plan_slots : Option String → Dict String String → List ProfileRewrite
  unfolding rewrite_target
  plan_slots profile [] = []
  plan_slots profile ((slot, value) ∷ slots) =
      rewrite_if profile slot value (rewrite_target value existing_combos index default_combo)
      ++ plan_slots profile slots

  -- The plan in the order of the configs
  unfoldable pub plan_configs :
      (Json → String) → Dict (Option String) Fields → Outcome (List ProfileRewrite)
  unfolding slot_values plan_slots
  plan_configs repr [] = return []
  plan_configs repr ((profile, config) ∷ configs) =
      let rest = plan_configs repr configs in
      slot_values repr config >>=? λ slots.
      rest >>=? λ others. return (plan_slots profile slots ++ others)

-- `rewrites_by_config[config_path].append(rewrite)`; the plan is in the order of the paths.
unfoldable pub group_rewrites :
    Dict (Option String) (List ProfileRewrite)
    → List ProfileRewrite
    → Dict (Option String) (List ProfileRewrite)
unfolding lookup insert
group_rewrites groups [] = groups
group_rewrites groups (r ∷ rs) =
    group_rewrites (insert r.profile (get_or r.profile [] groups ++ r ∷ []) groups) rs

unfoldable pub set_slots : List ProfileRewrite → Fields → Outcome Fields
unfolding set_slot
set_slots [] config = return config
set_slots (r ∷ rs) config = set_slot r.slot r.new config >>=? λ config. set_slots rs config

-- A config is copied, read, changed and written, one after the other; `copy2` raises where there is
-- no file.
unfoldable pub rewrite_config : Option String → List ProfileRewrite → Action Disk (Option String)
unfolding lookup insert set_slots
rewrite_config profile rewrites disk = elim (lookup profile disk.configs) [
  | none ↦ (raise (record { kind = lookup_error; message = "no such file" }), disk)
  | some config ↦
      let copied : Disk = record disk { backups = insert profile config disk.backups } in
      elim (set_slots rewrites config) [
        | raise e ↦ (raise e, copied)
        | return config ↦
            (return profile, record copied { configs = insert profile config copied.configs })
      ]
]

unfoldable pub rewrite_configs :
    Dict (Option String) (List ProfileRewrite) → Action Disk (List (Option String))
unfolding rewrite_config
rewrite_configs [] disk = (return [], disk)
rewrite_configs ((profile, rewrites) ∷ groups) disk =
    let (done, disk1) = rewrite_config profile rewrites disk in
    elim done [
      | raise e ↦ (raise e, disk1)
      | return backup ↦
          let (rest, disk2) = rewrite_configs groups disk1 in
          (rest >>=? λ backups. return (backup ∷ backups), disk2)
    ]

abbrev planned : List ProfileRewrite → NormalizationResult
planned plan = record { rewrites = plan; changed = false; backups = [] }

-- The plan is carried out unless it is empty or only to be shown.
unfoldable pub carry_out : List ProfileRewrite → Bool → Action Disk NormalizationResult
unfolding rewrite_configs group_rewrites
carry_out [] dry_run disk = (return (planned []), disk)
carry_out (r ∷ rs) dry_run disk =
    if dry_run
    then (return (planned (r ∷ rs)), disk)
    else (let (done, disk') = rewrite_configs (group_rewrites [] (r ∷ rs)) disk in
        (
          done >>=? λ backups.
              return (record { rewrites = r ∷ rs; changed = true; backups = backups }),
          disk',
        ))

-- `normalize_profiles`
unfoldable pub normalize_profiles :
    (Json → String) → Dict String (List Json) → Bool → Action Disk NormalizationResult
unfolding combo_by_canonical default_profile_combo plan_configs carry_out keys
normalize_profiles repr current_combos dry_run disk =
    elim (combo_by_canonical current_combos >>=? λ index.
    plan_configs (keys current_combos) index (default_profile_combo repr disk.configs) repr
      disk.configs) [ raise e ↦ (raise e, disk) | return plan ↦ carry_out plan dry_run disk ]
