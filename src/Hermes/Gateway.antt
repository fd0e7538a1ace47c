-- ===== src/Hermes/Gateway.antt =====
-- hermes_inventory.py: the services of the gateway's config.yaml. A model that is a number or a
-- truth value is its text here; of an exception only its kind matters.
pub mod Mapping
use free_model_orchestrator.Base.{
  ◌≡◌, refl, String, Bool, true, false, not, Option, none, some, List, [], ◌∷◌, ◌++◌, ◌<>◌,
  if◌then◌else◌,
}
use free_model_orchestrator.Base.Dict.{Dict}
use free_model_orchestrator.Base.Float.{Float}
use free_model_orchestrator.Effects.{Outcome, return, raise, type_error, attribute_error, ◌>>=?◌}
use free_model_orchestrator.Json.{
  Json, null, bool, int, decimal, str, arr, obj, Fields, end, field, truth, get,
}
use free_model_orchestrator.Hermes.{Consumer, calls_of, default_role}
use free_model_orchestrator.Hermes.Auxiliary.{
  get_or_null, json_or, py_str, auxiliary_mapping, merge_fields, sorted_items, auxiliary_consumers,
}

-- `value.get(...)` and `value.items()`: only a dict has them.
abbrev pub dict_fields : Json → Outcome Fields
dict_fields (obj fields) = return fields
dict_fields _ = raise (record { kind = attribute_error; message = "no attribute" })

module _ (repr : Json → String) where
  -- A role is a key of `demand_by_role`: a list or a dict is not hashable.
  unfoldable pub hashable_role : Json → Outcome String
  unfolding py_str
  hashable_role (arr _) = raise (record { kind = type_error; message = "unhashable type" })
  hashable_role (obj _) = raise (record { kind = type_error; message = "unhashable type" })
  hashable_role value = return (py_str repr value)

  module _ (F : Float) where
    open F use {Number}

    module _ (demand_by_role : Dict String Number) where
      abbrev pub service_consumer : (role name : String) → Fields → Consumer F
      unfolding truth get py_str
      service_consumer role name platform = record {
        role_id = role;
        consumer_type = "service";
        consumer = "gateway:" <> name;
        cadence = "continuous";
        calls_per_run = calls_of F demand_by_role role;
        describing_text = py_str repr (
            json_or (get_or_null "description" platform)
              (json_or (get_or_null "prompt" platform) (str "")));
        required_capabilities = [];
        minimum_context_window = 0;
      }

      module _ (default_model : Json) (gateway_auxiliary : Fields) where
        unfoldable pub platform_consumers : (role name : String) → Fields → List (Consumer F)
        unfolding get auxiliary_mapping merge_fields auxiliary_consumers
        platform_consumers role name platform =
            service_consumer role name platform
            ∷ auxiliary_consumers repr F ("gateway:" <> name) (some role)
                (merge_fields gateway_auxiliary (auxiliary_mapping (get "auxiliary" platform)))
                demand_by_role

        unfoldable pub platform_services : String → Fields → Outcome (List (Consumer F))
        unfolding truth get hashable_role platform_consumers
        platform_services name platform =
            if truth (get_or_null "enabled" platform)
            then (hashable_role (json_or (get_or_null "model" platform) default_model) >>=? λ role.
                return (platform_consumers role name platform))
            else return []

        unfoldable pub services_of : Dict String Json → Outcome (List (Consumer F))
        unfolding platform_services
        services_of [] = return []
        services_of ((name, platform) ∷ platforms) =
            let rest = services_of platforms in
            dict_fields platform >>=? λ platform. platform_services name platform >>=? λ consumers.
            rest >>=? λ others. return (consumers ++ others)

      -- `parse_gateway_services`
      unfoldable pub parse_gateway_services : Fields → Outcome (List (Consumer F))
      unfolding truth get auxiliary_mapping services_of sorted_items
      parse_gateway_services config =
          dict_fields (json_or (get_or_null "gateway" config) (obj end)) >>=? λ gateway.
          dict_fields (json_or (get_or_null "platforms" gateway) (obj end)) >>=? λ platforms.
          services_of (json_or (get_or_null "model" config) (str default_role))
            (auxiliary_mapping (get "auxiliary" config)) (sorted_items platforms)
