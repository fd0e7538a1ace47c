-- ===== src/Profiles/Reader.antt =====
-- combo_reader.py, and the command "normalize-profiles" of composition.py. What the client answers is
-- an argument, `none` where there is no client that can be asked.
use text.Mathlib.Text.{starts_with}
use free_model_orchestrator.Base.{
  ℕ, String, Bool, false, not, Option, none, some, List, [], ◌∷◌, ◌&&◌, ◌==◌, ◌<>◌, string_eq,
  if◌then◌else◌, map,
}
use free_model_orchestrator.Base.Dict.{Dict, insert}
use free_model_orchestrator.Effects.{Outcome, return, raise, type_error, Action, ◌>>=?◌}
use free_model_orchestrator.Json.{
  Json, str, arr, obj, Items, nil, cons, Fields, end, field, truth, get,
}
use free_model_orchestrator.Text.{singleton}
use free_model_orchestrator.Hermes.{join}
use free_model_orchestrator.Hermes.Auxiliary.{get_or_null, json_or, py_str}
use free_model_orchestrator.Profiles.Slots.{
  ProfileRewrite, Disk, NormalizationResult, normalize_profiles,
}

-- The values that a loop over a value meets: the keys of a dict, the characters of a text.
unfoldable pub characters : String → List Json
characters String.[] = []
characters (String.◌∷◌ c s) = str (singleton c) ∷ characters s

unfoldable pub field_names : Fields → List Json
field_names end = []
field_names (field key _ fields) = str key ∷ field_names fields

unfoldable pub items_of : Items → List Json
items_of nil = []
items_of (cons item items) = item ∷ items_of items

unfoldable pub iterated : Json → Outcome (List Json)
unfolding characters field_names items_of
iterated (arr items) = return (items_of items)
iterated (obj fields) = return (field_names fields)
iterated (str s) = return (characters s)
iterated _ = raise (record { kind = type_error; message = "not iterable" })

-- `d.get(key, [])`
abbrev get_or_list : String → Fields → Json
unfolding get
get_or_list key fields = elim (get key fields) [ none ↦ arr nil | some value ↦ value ]

pub record ComboState : Type 0 where
  pub write_id : String
  pub models : List Json

module _ (repr : Json → String) where
  -- `_normalize_combo_member`
  unfoldable pub normalize_combo_member : Json → Json
  unfolding get truth py_str
  normalize_combo_member (obj member) =
      let provider = get_or_null "provider" member in
      let model = get_or_null "model" member in
      if truth provider && truth model
      then str (py_str repr provider <> "/" <> py_str repr model)
      else json_or (get_or_null "providerModelId" member)
          (json_or (get_or_null "provider_model_id" member) (obj member))
  normalize_combo_member member = member

  abbrev field_text : String → Fields → String
  unfolding get truth py_str
  field_text key combo = py_str repr (json_or (get_or_null key combo) (str ""))

  -- `_live_combo_key`
  unfoldable pub live_combo_key : Fields → Option String
  unfolding field_text
  live_combo_key combo =
      if starts_with (field_text "name" combo) "fmo-"
      then some (field_text "name" combo)
      else if starts_with (field_text "id" combo) "fmo-"
      then some (field_text "id" combo)
      else none

  unfoldable pub combo_state : Fields → String → Outcome ComboState
  unfolding get truth py_str iterated normalize_combo_member get_or_list
  combo_state combo combo_key = iterated (get_or_list "models" combo) >>=? λ models.
      return (record {
        write_id = py_str repr (json_or (get_or_null "id" combo) (str combo_key));
        models = map normalize_combo_member models;
      })

  abbrev add_live_combo : Fields → Dict String ComboState → Outcome (Dict String ComboState)
  unfolding live_combo_key combo_state insert
  add_live_combo combo current = elim (live_combo_key combo) [
    | none ↦ return current
    | some combo_key ↦
        combo_state combo combo_key >>=? λ state. return (insert combo_key state current)
  ]

  unfoldable pub add_combos : List Json → Dict String ComboState → Outcome (Dict String ComboState)
  unfolding add_live_combo
  add_combos [] current = return current
  add_combos (obj combo ∷ combos) current =
      add_live_combo combo current >>=? λ current. add_combos combos current
  add_combos (_ ∷ combos) current = add_combos combos current

  abbrev payload_combos : Json → Json
  unfolding get_or_list
  payload_combos (obj payload) = get_or_list "combos" payload
  payload_combos _ = arr nil

  -- `read_current_combo_states`
  unfoldable pub read_current_combo_states :
      Option (Outcome Json) → Outcome (Dict String ComboState)
  unfolding iterated add_combos payload_combos
  read_current_combo_states none = return []
  read_current_combo_states (some answer) =
      answer >>=? λ payload. iterated (payload_combos payload) >>=? λ combos. add_combos combos []

  -- `read_current_combos`
  unfoldable pub read_current_combos : Option (Outcome Json) → Outcome (Dict String (List Json))
  unfolding read_current_combo_states
  read_current_combos client = read_current_combo_states client >>=? λ states.
      return (map (λ (combo_id, state). (combo_id, state.models)) states)

  -- What the command reports.
  pub record CliReport : Type 0 where
    pub exit_code : ℕ
    pub changed : Bool
    pub error_reason : Option String
    pub output : String

  module _ (path_of : Option String → String) where
    abbrev rewrite_line : ProfileRewrite → String
    rewrite_line r = path_of r.profile <> ":" <> r.slot <> ":" <> r.old <> "->" <> r.new

    -- `_profile_normalization_output`
    unfoldable pub profile_normalization_output : NormalizationResult → String
    unfolding join
    profile_normalization_output result = join "\n" (map rewrite_line result.rewrites)

    abbrev report_of : NormalizationResult → CliReport
    unfolding profile_normalization_output
    report_of result = record {
      exit_code = 0;
      changed = result.changed;
      error_reason = none;
      output = profile_normalization_output result;
    }

    abbrev home_required : CliReport
    home_required = record {
      exit_code = 3;
      changed = false;
      error_reason = some "hermes_home_required";
      output = "";
    }

    abbrev has_home : Option String → Bool
    has_home none = false
    has_home (some home) = not (home == "")

    -- `ComposedRuntime.normalize_profiles`
    unfoldable pub run_normalize_profiles :
        (hermes_home : Option String) → Option (Outcome Json) → Bool → Action Disk CliReport
    unfolding read_current_combos report_of
    run_normalize_profiles hermes_home client dry_run disk =
        if has_home hermes_home
        then elim (read_current_combos client) [
          | raise e ↦ (raise e, disk)
          | return current_combos ↦
              let (result, disk') = normalize_profiles repr current_combos dry_run disk in
              (result >>=? λ result. return (report_of result), disk')
        ]
        else (return home_required, disk)
