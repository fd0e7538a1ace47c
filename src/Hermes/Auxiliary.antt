-- ===== src/Hermes/Auxiliary.antt =====
-- hermes_inventory.py: consumers from the auxiliary slots of a profile or a platform. `repr` is
-- Python's `str` of a list, a dict or a number with a point. A set is a list that is sorted and
-- freed of doubles where the code sorts it.
use text.Mathlib.Text.{starts_with}
use free_model_orchestrator.Base.{
  String, Bool, true, false, not, Option, none, some, List, [], ◌∷◌, ◌||◌, ◌==◌, ◌<>◌, contains,
  string_eq, if◌then◌else◌, map,
}
use free_model_orchestrator.Base.Dict.{Dict}
use free_model_orchestrator.Base.Float.{Float}
use free_model_orchestrator.Json.{
  Json, null, bool, int, str, arr, obj, Items, nil, cons, Fields, end, field, truth, get, pos,
  negsuc,
}
use free_model_orchestrator.Text.{lower, str_le, sorted_set, show_nat}
use free_model_orchestrator.Hermes.{Consumer, calls_of, combo_role}
use Prim.Native.Nat.{suc}

-- `part in text`
unfoldable pub is_in : String → String → Bool
is_in part String.[] = starts_with "" part
is_in part (String.◌∷◌ c text) =
    let rest = is_in part text in if starts_with (String.◌∷◌ c text) part then true else rest

-- `d.get(key)`, which is None where the key is absent
abbrev pub get_or_null : String → Fields → Json
get_or_null key fields = elim (get key fields) [ none ↦ null | some value ↦ value ]

-- `a or b` on JSON values
abbrev pub json_or : Json → Json → Json
json_or a b = if truth a then a else b

-- `sorted(d.items())`; the keys are distinct.
unfoldable pub insert_slot : String → Json → Dict String Json → Dict String Json
insert_slot key value [] = (key, value) ∷ []
insert_slot key value ((k, v) ∷ slots) =
    let rest = insert_slot key value slots in
    if str_le key k then (key, value) ∷ (k, v) ∷ slots else (k, v) ∷ rest

unfoldable pub sorted_items : Fields → Dict String Json
unfolding insert_slot
sorted_items end = []
sorted_items (field key value fields) = insert_slot key value (sorted_items fields)

-- `_auxiliary_mapping`
unfoldable pub auxiliary_mapping : Option Json → Fields
auxiliary_mapping (some (obj fields)) = fields
auxiliary_mapping _ = end

-- `d[key] = value`
unfoldable pub set_field : String → Json → Fields → Fields
set_field key value end = field key value end
set_field key value (field k v fields) =
    let rest = set_field key value fields in
    if key == k then field k value fields else field k v rest

-- `{**a, **b}`
unfoldable pub merge_fields : Fields → Fields → Fields
unfolding set_field
merge_fields a end = a
merge_fields a (field key value b) = merge_fields (set_field key value a) b

abbrev pub add_if : Bool → String → List String → List String
add_if test value values = if test then value ∷ values else values

module _ (repr : Json → String) where
  -- `str(value)`
  unfoldable pub py_str : Json → String
  py_str null = "None"
  py_str (bool true) = "True"
  py_str (bool false) = "False"
  py_str (int (pos n)) = show_nat n
  py_str (int (negsuc n)) = "-" <> show_nat (suc n)
  py_str (str s) = s
  py_str value = repr value

  unfoldable pub texts_of : Items → List String
  unfolding py_str
  texts_of nil = []
  texts_of (cons item items) = py_str item ∷ texts_of items

  abbrev pub same_combo : Json → Option String → Bool
  same_combo (str s) (some main) = s == main
  same_combo _ _ = false

  -- `_resolved_aux_combo`
  unfoldable pub resolved_aux_combo : Json → Option String → Option String
  unfolding py_str get truth
  resolved_aux_combo (obj config) main_combo =
      let model = get_or_null "model" config in
      if lower (py_str (json_or (get_or_null "provider" config) (str ""))) == "auto"
      then none
      else if not (truth model) || same_combo model main_combo
      then none
      else some (py_str model)
  resolved_aux_combo _ main_combo = none

  -- `_auxiliary_purpose`
  unfoldable pub auxiliary_purpose : String → Json → String
  unfolding py_str get truth
  auxiliary_purpose slot (obj config) = py_str (
      json_or (get_or_null "purpose" config) (
        json_or (get_or_null "description" config)
          (json_or (get_or_null "capability" config) (str slot))))
  auxiliary_purpose slot _ = ""

  unfoldable pub capability_values : Json → List String
  unfolding texts_of
  capability_values (str s) = s ∷ []
  capability_values (arr items) = texts_of items
  capability_values _ = []

  unfoldable pub with_vision : String → List String → List String
  unfolding is_in
  with_vision slot_name lowered =
      add_if (contains lowered "vision" || is_in "vision" slot_name || is_in "image" slot_name)
        "vision" lowered

  unfoldable pub with_tool_calling : String → List String → List String
  unfolding is_in
  with_tool_calling slot_name lowered =
      add_if
        (contains lowered "tool_calling"
          || is_in "tools" slot_name
          || is_in "mcp" slot_name
          || is_in "skills" slot_name)
        "tool_calling" lowered

  unfoldable pub with_structured_output : String → List String → List String
  unfolding is_in
  with_structured_output slot_name lowered =
      add_if
        (contains lowered "structured_output"
          || is_in "approval" slot_name
          || is_in "structured" slot_name)
        "structured_output" lowered

  -- `_auxiliary_capabilities`
  unfoldable pub auxiliary_capabilities : String → Json → List String
  unfolding get truth sorted_set with_vision with_tool_calling with_structured_output
      capability_values
  auxiliary_capabilities slot (obj config) =
      let raw =
        json_or (get_or_null "required_capabilities" config)
          (json_or (get_or_null "capabilities" config) (get_or_null "capability" config)) in
      let slot_name = lower slot in
      sorted_set (
        with_structured_output slot_name
          (with_tool_calling slot_name (with_vision slot_name (map lower (capability_values raw)))))
  auxiliary_capabilities slot _ = []

  module _ (F : Float) where
    open F use {Number}

    abbrev pub auxiliary_consumer :
        (owner : String) → Dict String Number → (slot : String) → Json → String → Consumer F
    auxiliary_consumer owner demand_by_role slot config combo = record {
      role_id = combo_role (some combo);
      consumer_type = "auxiliary";
      consumer = owner <> ":" <> slot;
      cadence = "auxiliary";
      calls_per_run = calls_of F demand_by_role (combo_role (some combo));
      describing_text = auxiliary_purpose slot config;
      required_capabilities = auxiliary_capabilities slot config;
      minimum_context_window = 0;
    }

    unfoldable pub slot_consumers :
        (owner : String) (main_combo : Option String)
        → Dict String Number
        → Dict String Json
        → List (Consumer F)
    slot_consumers owner main_combo demand_by_role [] = []
    slot_consumers owner main_combo demand_by_role ((slot, config) ∷ slots) =
        let rest = slot_consumers owner main_combo demand_by_role slots in
        elim (resolved_aux_combo config main_combo) [
          | none ↦ rest
          | some combo ↦ auxiliary_consumer owner demand_by_role slot config combo ∷ rest
        ]

    -- `_auxiliary_consumers`
    unfoldable pub auxiliary_consumers :
        (owner : String) (main_combo : Option String)
        → Fields
        → Dict String Number
        → List (Consumer F)
    unfolding slot_consumers sorted_items
    auxiliary_consumers owner main_combo auxiliary demand_by_role =
        slot_consumers owner main_combo demand_by_role (sorted_items auxiliary)
