-- ===== src/Hermes/Sources.antt =====
-- hermes_inventory.py: profiles and their config.yaml. `HermesFiles` is the disk below HERMES_HOME
-- with the parsers of yaml, json and sqlite3 that read it.
use free_model_orchestrator.Base.{
  String, Bool, false, Option, none, some, List, [], ◌∷◌, ◌++◌, ◌<>◌, if◌then◌else◌,
}
use free_model_orchestrator.Base.Dict.{Dict}
use free_model_orchestrator.Base.Float.{Float}
use free_model_orchestrator.Effects.{Outcome, return, ◌>>=?◌}
use free_model_orchestrator.Json.{Json, str, obj, Fields, end, field, truth, get}
use free_model_orchestrator.Hermes.{
  Consumer, Profile, Job, Route, calls_of, combo_role, required, join, inventory_failure,
}
use free_model_orchestrator.Hermes.Auxiliary.{get_or_null, py_str, auxiliary_consumers}

abbrev pub path_join : String → String → String
path_join directory name = directory <> "/" <> name

abbrev pub invalid_config {ℓ} : {A : Type ℓ} → String → Outcome A
unfolding inventory_failure
invalid_config path = inventory_failure "filesystem" "invalid_config" path

-- `payload or {}` where the payload is None or a dict
abbrev pub fields_or_empty : Option Fields → Fields
fields_or_empty none = end
fields_or_empty (some fields) = fields

pub record ProfileSlots : Type 0 where
  pub name : String
  pub path : String
  pub gateway_running : Bool
  pub main_combo : Option String
  pub auxiliary : Fields

module _ (F : Float) where
  open F use {Number}

  pub record HermesFiles : Type 0 where
    -- `is_file` and `read_text`
    pub text_at : String → Option String
    -- `is_dir`, and the sorted names of the directories in it
    pub directories : String → Option (List String)
    pub safe_load : String → Outcome Json
    -- `json.dumps(value, sort_keys=True)`
    pub dumps : Json → String
    pub load_jobs : String → Outcome (List Job)
    pub load_routes : String → Outcome (Dict String Route)
    -- `observe_session_demand` on state.db; `none` where the file is not there
    pub session_demand : String → Option (Outcome (Dict String Number))
    -- `str` of a list, a dict or a number with a point
    pub repr : Json → String

  module _ (files : HermesFiles) where
    abbrev pub as_config : String → Json → Outcome (Option Fields)
    as_config path (obj fields) = return (some fields)
    as_config path _ = invalid_config path

    abbrev config_of : String → Json → Outcome (Option Fields)
    config_of path json = if truth json then as_config path json else return (some end)

    -- `_read_yaml_file`
    unfoldable pub read_yaml_file : String → Outcome (Option Fields)
    unfolding truth
    read_yaml_file path = elim (files.text_at path) [
      | none ↦ return none
      | some text ↦ files.safe_load text >>=? config_of path
    ]

    -- `_main_combo_from_config`
    unfoldable pub main_combo_from_config : Json → Option String
    unfolding truth get py_str
    main_combo_from_config (obj model) =
        let value = get_or_null "default" model in
        if truth value then some (py_str files.repr value) else none
    main_combo_from_config (str s) = if truth (str s) then some s else none
    main_combo_from_config _ = none

    abbrev pub as_auxiliary : String → Json → Outcome Fields
    as_auxiliary path (obj fields) = return fields
    as_auxiliary path _ = invalid_config (path_join path "config.yaml")

    abbrev auxiliary_of : String → Json → Outcome Fields
    auxiliary_of path json = if truth json then as_auxiliary path json else return end

    -- `_profile_slots_from_config`; `name` is looked up behind the check of "auxiliary".
    unfoldable pub profile_slots_from_config :
        (name : Option String) (path : String) (gateway_running : Bool)
        → Fields
        → Outcome ProfileSlots
    unfolding truth get main_combo_from_config
    profile_slots_from_config name path gateway_running config =
        auxiliary_of path (get_or_null "auxiliary" config) >>=? λ auxiliary.
        required "name" name >>=? λ name. return (record {
          name = name;
          path = path;
          gateway_running = gateway_running;
          main_combo = main_combo_from_config (get_or_null "model" config);
          auxiliary = auxiliary;
        })

    -- `read_profile_slots`
    unfoldable pub read_profile_slots : Profile → Outcome ProfileSlots
    unfolding read_yaml_file profile_slots_from_config
    read_profile_slots profile = required "path" profile.path >>=? λ path.
        read_yaml_file (path_join path "config.yaml") >>=? λ config.
        profile_slots_from_config profile.name path profile.gateway_running (fields_or_empty config)

    abbrev pub text_or_empty : Option String → String
    text_or_empty none = ""
    text_or_empty (some s) = s

    -- `_profile_slots_from_record`
    unfoldable pub profile_slots_from_record : Profile → Outcome ProfileSlots
    unfolding read_profile_slots
    profile_slots_from_record profile = elim profile.main_combo [
      | none ↦ read_profile_slots profile
      | some main_combo ↦ required "name" profile.name >>=? λ name. return (record {
        name = name;
        path = text_or_empty profile.path;
        gateway_running = profile.gateway_running;
        main_combo = main_combo;
        auxiliary = profile.auxiliary;
      })
    ]

    abbrev pub file_part : String → String → List String
    file_part path filename = elim (files.text_at (path_join path filename)) [
      | none ↦ []
      | some text ↦ (filename <> ":\n" <> text) ∷ []
    ]

    abbrev pub tools_part : Json → List String
    unfolding truth
    tools_part allowed_tools =
        if truth allowed_tools then ("allowed_tools: " <> files.dumps allowed_tools) ∷ [] else []

    -- `_profile_describing_text`
    unfoldable pub profile_describing_text : String → Fields → String
    unfolding truth get join
    profile_describing_text path auxiliary = join "\n\n" (
        file_part path "SOUL.md"
        ++ file_part path "AGENTS.md"
        ++ tools_part (get_or_null "allowed_tools" auxiliary))

    unfoldable pub main_consumer : Dict String Number → ProfileSlots → String → List (Consumer F)
    unfolding combo_role profile_describing_text
    main_consumer demand_by_role slots name = elim slots.main_combo [
      | none ↦ []
      | some main_combo ↦
          record {
            role_id = combo_role (some main_combo);
            consumer_type = if slots.gateway_running then "service" else "agent_profile";
            consumer = name;
            cadence = if slots.gateway_running then "continuous" else "manual";
            calls_per_run = calls_of F demand_by_role (combo_role (some main_combo));
            describing_text = profile_describing_text slots.path slots.auxiliary;
            required_capabilities = [];
            minimum_context_window = 0;
          }
          ∷ []
    ]

    unfoldable pub profile_consumers : Dict String Number → ProfileSlots → List (Consumer F)
    unfolding auxiliary_consumers main_consumer
    profile_consumers demand_by_role slots =
        main_consumer demand_by_role slots slots.name
        ++ auxiliary_consumers files.repr F slots.name slots.main_combo slots.auxiliary
            demand_by_role

    -- `parse_profiles`
    unfoldable pub parse_profiles : Dict String Number → List Profile → Outcome (List (Consumer F))
    unfolding profile_slots_from_record profile_consumers
    parse_profiles demand_by_role [] = return []
    parse_profiles demand_by_role (profile ∷ profiles) =
        let rest = parse_profiles demand_by_role profiles in
        profile_slots_from_record profile >>=? λ slots.
        rest >>=? λ consumers. return (profile_consumers demand_by_role slots ++ consumers)

    -- `_profile_record`
    unfoldable pub profile_record : (name path : String) → Fields → Outcome Profile
    unfolding profile_slots_from_config
    profile_record name path config =
        profile_slots_from_config (some name) path false config >>=? λ slots. return (record {
          name = some name;
          path = some path;
          gateway_running = false;
          main_combo = some slots.main_combo;
          auxiliary = slots.auxiliary;
        })

    -- `if config: profiles.append(_profile_record(...))`
    abbrev pub record_if : (name path : String) → Option Fields → Outcome (List Profile)
    unfolding profile_record
    record_if name path (some (field key value fields)) =
        profile_record name path (field key value fields) >>=? λ profile. return (profile ∷ [])
    record_if name path _ = return []

    unfoldable pub enumerate_directories :
        (profiles_dir : String) → List String → Outcome (List Profile)
    unfolding read_yaml_file
    enumerate_directories profiles_dir [] = return []
    enumerate_directories profiles_dir (name ∷ names) =
        let rest = enumerate_directories profiles_dir names in
        let path = path_join profiles_dir name in
        read_yaml_file (path_join path "config.yaml") >>=? λ config.
        record_if name path config >>=? λ first. rest >>=? λ profiles. return (first ++ profiles)

    abbrev names_or_empty : Option (List String) → List String
    names_or_empty none = []
    names_or_empty (some names) = names

    -- `enumerate_live_profiles`
    unfoldable pub enumerate_live_profiles : (home : String) → Outcome (List Profile)
    unfolding read_yaml_file enumerate_directories
    enumerate_live_profiles home =
        read_yaml_file (path_join home "config.yaml") >>=? λ default_config.
        record_if "default" home default_config >>=? λ first.
        enumerate_directories (path_join home "profiles")
          (names_or_empty (files.directories (path_join home "profiles")))
        >>=? λ profiles. return (first ++ profiles)
