-- ===== src/Profiles.antt =====
-- profile_normalization.py: the slots of the profiles' config.yaml that name models, and what they
-- are rewritten to. A config is the JSON value that its YAML holds; `repr` is `str` of a list, a
-- dict or a number with a point.
pub mod Slots
pub mod Indexed
pub mod Combos
pub mod Normalized
pub mod Reader
mod Samples
use text.Mathlib.Text.{starts_with}
use free_model_orchestrator.Base.{
  ℕ, ◌≡◌, refl, String, Bool, true, false, not, Option, none, some, List, [], ◌∷◌, ◌++◌, ◌&&◌, ◌||◌,
  ◌==◌, ◌<>◌, contains, string_eq, if◌then◌else◌, map,
}
use free_model_orchestrator.Base.Dict.{Dict, lookup, insert, keys}
use free_model_orchestrator.Effects.{
  Outcome, return, raise, Exception, attribute_error, type_error, ◌>>=?◌,
}
use free_model_orchestrator.Json.{
  Json, null, bool, int, decimal, str, arr, obj, Items, nil, cons, Fields, end, field, truth, get,
}
use free_model_orchestrator.Text.{split, lower}
use free_model_orchestrator.Hermes.Auxiliary.{get_or_null, json_or, py_str, sorted_items}

-- `value.items()` and `value.setdefault(...)`: only a dict has them.
abbrev pub as_mapping : Json → Outcome Fields
as_mapping (obj fields) = return fields
as_mapping _ = raise (record { kind = attribute_error; message = "no attribute" })

abbrev last_or : String → List String → String
last_or default [] = default
last_or default (s ∷ ss) = last_or s ss

-- `_canonical`: what stands behind the last "/", in small letters
unfoldable pub canonical : String → String
unfolding split lower
canonical model_id = lower (last_or "" (split 47 model_id))

-- A member of a combo is a text, or a dict that names no model, and a dict has no `rsplit`.
unfoldable pub canonical_of : Json → Outcome String
unfolding canonical
canonical_of (str s) = return (canonical s)
canonical_of _ = raise (record { kind = attribute_error; message = "rsplit" })

-- `index.setdefault(key, combo_id)`
unfoldable pub set_if_new : String → String → Dict String String → Dict String String
unfolding lookup insert
set_if_new key combo_id index = elim (lookup key index) [
  | none ↦ insert key combo_id index
  | some _ ↦ index
]

unfoldable pub index_members :
    String → List Json → Dict String String → Outcome (Dict String String)
unfolding canonical_of set_if_new
index_members combo_id [] index = return index
index_members combo_id (member ∷ members) index =
    canonical_of member >>=? λ key. index_members combo_id members (set_if_new key combo_id index)

unfoldable pub index_fmo_combos :
    Dict String (List Json) → Dict String String → Outcome (Dict String String)
unfolding index_members
index_fmo_combos [] index = return index
index_fmo_combos ((combo_id, members) ∷ combos) index =
    if starts_with combo_id "fmo-"
    then (index_members combo_id members index >>=? λ index. index_fmo_combos combos index)
    else index_fmo_combos combos index

-- `_combo_by_canonical`
unfoldable pub combo_by_canonical : Dict String (List Json) → Outcome (Dict String String)
unfolding index_fmo_combos
combo_by_canonical current_combos = index_fmo_combos current_combos []

abbrev pub combo_or : Option String → Option String → Option String
combo_or none default_combo = default_combo
combo_or (some combo_id) default_combo = if combo_id == "" then default_combo else some combo_id

-- `_rewrite_target`
unfoldable pub rewrite_target :
    String → List String → Dict String String → Option String → Option String
unfolding canonical lookup
rewrite_target value existing_combos combo_by_canonical default_combo =
    if value == "" || value == "auto" || contains existing_combos value
    then none
    else combo_or (lookup (canonical value) combo_by_canonical) default_combo

module _ (repr : Json → String) where
  abbrev text_if : Json → Option String
  unfolding truth py_str
  text_if value = if truth value then some (py_str repr value) else none

  -- `_main_combo`
  unfoldable pub main_combo : Fields → Option String
  unfolding get text_if
  main_combo config = elim (get_or_null "model" config) [
    | obj model ↦ text_if (get_or_null "default" model)
    | null ↦ text_if null
    | bool b ↦ text_if (bool b)
    | int n ↦ text_if (int n)
    | decimal m k ↦ text_if (decimal m k)
    | str s ↦ text_if (str s)
    | arr items ↦ text_if (arr items)
  ]

  abbrev slot_if : String → Option String → Dict String String
  slot_if slot none = []
  slot_if slot (some value) = (slot, value) ∷ []

  abbrev route_model : Json → Option String
  unfolding get text_if
  route_model (obj route) = text_if (get_or_null "model" route)
  route_model _ = none

  -- The slots of an "auxiliary" mapping, each under the prefix
  unfoldable pub auxiliary_slots : String → Fields → Dict String String
  unfolding route_model
  auxiliary_slots prefix end = []
  auxiliary_slots prefix (field slot route routes) =
      slot_if (prefix <> slot) (route_model route) ++ auxiliary_slots prefix routes

  abbrev owner_slots : String → Fields → Outcome (Dict String String)
  unfolding truth get auxiliary_slots
  owner_slots prefix owner =
      as_mapping (json_or (get_or_null "auxiliary" owner) (obj end)) >>=? λ routes.
      return (auxiliary_slots prefix routes)

  abbrev platform_slots : String → Json → Outcome (Dict String String)
  unfolding get text_if owner_slots
  platform_slots name (obj platform) =
      let prefix = "gateway.platforms." <> name in
      owner_slots (prefix <> ".auxiliary.") platform >>=? λ slots.
      return (slot_if (prefix <> ".model") (text_if (get_or_null "model" platform)) ++ slots)
  platform_slots name _ = return []

  unfoldable pub platforms_slots : Dict String Json → Outcome (Dict String String)
  unfolding platform_slots
  platforms_slots [] = return []
  platforms_slots ((name, platform) ∷ platforms) =
      let rest = platforms_slots platforms in
      platform_slots name platform >>=? λ slots. rest >>=? λ others. return (slots ++ others)

  abbrev fields_or_none : Json → Fields
  fields_or_none (obj fields) = fields
  fields_or_none _ = end

  -- `_gateway_slot_values`: what is no dict has no slots.
  unfoldable pub gateway_slot_values : Fields → Outcome (Dict String String)
  unfolding get sorted_items platforms_slots
  gateway_slot_values config =
      let gateway = fields_or_none (get_or_null "gateway" config) in
      platforms_slots (sorted_items (fields_or_none (get_or_null "platforms" gateway)))

  -- `_slot_values`: the slots with what they name, in the order of the code
  unfoldable pub slot_values : Fields → Outcome (Dict String String)
  unfolding main_combo owner_slots gateway_slot_values
  slot_values config = owner_slots "auxiliary." config >>=? λ auxiliary.
      gateway_slot_values config >>=? λ gateway.
      return (slot_if "model" (main_combo config) ++ auxiliary ++ gateway)
