-- ===== src/Hermes/Allowed.antt =====
-- The types of the consumers that jobs, webhooks, slots and services give.
pub mod Home
use free_model_orchestrator.Base.{
  ◌≡◌, refl, String, Bool, true, false, Option, none, some, List, [], ◌∷◌, ◌++◌, contains, ◌<>◌,
  string_eq, All, All-append, if◌then◌else◌, inl, inr, Bool-cases,
}
use free_model_orchestrator.Base.Dict.{Dict}
use free_model_orchestrator.Base.Float.{Float}
use free_model_orchestrator.Effects.{Outcome, return, raise, Exception, ◌>>=?◌}
use free_model_orchestrator.Json.{Json, Fields, end, get, truth, obj}
use free_model_orchestrator.Catalog.{consumer_types}
use free_model_orchestrator.Hermes.{
  Consumer, Inventory, Job, Route, Profile, parse_cron_jobs, parse_webhook_subscriptions,
  enabled_or_absent, required,
}
use free_model_orchestrator.Hermes.Auxiliary.{
  resolved_aux_combo, auxiliary_consumer, slot_consumers, auxiliary_consumers, get_or_null, json_or,
  sorted_items, merge_fields, auxiliary_mapping,
}
use free_model_orchestrator.Hermes.Sources.{
  HermesFiles, ProfileSlots, parse_profiles, profile_slots_from_record, profile_consumers,
  main_consumer, read_yaml_file, path_join, enumerate_live_profiles,
}
use free_model_orchestrator.Hermes.Gateway.{
  dict_fields, services_of, platform_services, platform_consumers, parse_gateway_services,
}
use free_model_orchestrator.Hermes.Home.{
  Sources, if_given, build_hermes_inventory, read_hermes_home, load_if,
}

pub each_type :
    (contains consumer_types "agent_profile" ≡ true)
    × (contains consumer_types "cron_job" ≡ true)
    × (contains consumer_types "webhook" ≡ true)
    × (contains consumer_types "service" ≡ true)
    × (contains consumer_types "auxiliary" ≡ true)
unfolding string_eq
each_type = (refl, refl, refl, refl, refl)

module _ (F : Float) where
  open F use {Number}

  abbrev pub IsAllowed : Consumer F → Type 0
  IsAllowed c = contains consumer_types c.consumer_type ≡ true

  -- The schema allows the type of each consumer.
  abbrev pub AreAllowed : List (Consumer F) → Type 0
  AreAllowed = All IsAllowed

  abbrev pub Allowed : Outcome (List (Consumer F)) → Type 0
  Allowed (return consumers) = AreAllowed consumers
  Allowed (raise e) = Unit

  pub parse_cron_jobs-Allowed :
      (demand : Dict String Number) (jobs : List Job) → Allowed (parse_cron_jobs F demand jobs)
  unfolding parse_cron_jobs
  parse_cron_jobs-Allowed demand [] = tt
  parse_cron_jobs-Allowed demand (job ∷ jobs) = elim (Bool-cases (enabled_or_absent job.enabled)) [
    | inl e ↦ rw e (
        go (required "id" job.id) (parse_cron_jobs F demand jobs) _
          (parse_cron_jobs-Allowed demand jobs) (λ id. each_type.1))
    | inr e ↦ rw e (parse_cron_jobs-Allowed demand jobs)
  ]
    where
      go :
          {A : Type 0} (r : Outcome A) (rest : Outcome (List (Consumer F))) (f : A → Consumer F)
          → Allowed rest
          → ((a : A) → contains consumer_types (f a).consumer_type ≡ true)
          → Allowed (r >>=? λ a. rest >>=? λ others. return (f a ∷ others))
      go (raise e) rest f h each = tt
      go (return a) (raise e) f h each = tt
      go (return a) (return others) f h each = (each a, h)

  pub parse_webhook_subscriptions-AreAllowed :
      (demand : Dict String Number) (routes : Dict String Route)
      → AreAllowed (parse_webhook_subscriptions F demand routes)
  unfolding parse_webhook_subscriptions
  parse_webhook_subscriptions-AreAllowed demand [] = tt
  parse_webhook_subscriptions-AreAllowed demand ((name, route) ∷ routes) =
      elim (Bool-cases (enabled_or_absent route.enabled)) [
        | inl e ↦ rw e (each_type.2, parse_webhook_subscriptions-AreAllowed demand routes)
        | inr e ↦ rw e (parse_webhook_subscriptions-AreAllowed demand routes)
      ]

  module _ (repr : Json → String) where
    slot_consumers-AreAllowed :
        (owner : String) (main : Option String) (demand : Dict String Number)
        (slots : Dict String Json)
        → AreAllowed (slot_consumers repr F owner main demand slots)
    unfolding slot_consumers
    slot_consumers-AreAllowed owner main demand [] = tt
    slot_consumers-AreAllowed owner main demand ((slot, config) ∷ slots) =
        go (resolved_aux_combo repr config main) _
          (slot_consumers-AreAllowed owner main demand slots)
      where
        go :
            (combo : Option String) (rest : List (Consumer F))
            → AreAllowed rest
            → AreAllowed (elim combo [
              | none ↦ rest
              | some combo ↦ auxiliary_consumer repr F owner demand slot config combo ∷ rest
            ])
        go none rest h = h
        go (some combo) rest h = (each_type.4, h)

    pub auxiliary_consumers-AreAllowed :
        (owner : String) (main : Option String) (slots : Fields) (demand : Dict String Number)
        → AreAllowed (auxiliary_consumers repr F owner main slots demand)
    unfolding auxiliary_consumers
    auxiliary_consumers-AreAllowed owner main slots demand =
        slot_consumers-AreAllowed owner main demand (sorted_items slots)

    module _ (demand : Dict String Number) where
      platform_services-Allowed :
          (default_model : Json) (gateway : Fields) (name : String) (platform : Fields)
          → Allowed (platform_services repr F demand default_model gateway name platform)
      unfolding platform_services platform_consumers
      platform_services-Allowed default_model gateway name platform =
          elim (Bool-cases (truth (get_or_null "enabled" platform))) [
            | inl e ↦ rw e (
                go _
                  (λ role.
                    platform_consumers repr F demand default_model gateway role name platform)
                  (λ role. (
                    each_type.3,
                    auxiliary_consumers-AreAllowed ("gateway:" <> name) (some role)
                        (merge_fields gateway (auxiliary_mapping (get "auxiliary" platform)))
                        demand,
                  )))
            | inr e ↦ rw e tt
          ]
        where
          go :
              (r : Outcome String) (f : String → List (Consumer F))
              → ((a : String) → AreAllowed (f a))
              → Allowed (r >>=? λ a. return (f a))
          go (raise e) f each = tt
          go (return a) f each = each a

      services_of-Allowed :
          (default_model : Json) (gateway : Fields) (platforms : Dict String Json)
          → Allowed (services_of repr F demand default_model gateway platforms)
      unfolding services_of
      services_of-Allowed default_model gateway [] = tt
      services_of-Allowed default_model gateway ((name, platform) ∷ platforms) =
          go (dict_fields platform) _ (services_of-Allowed default_model gateway platforms)
        where
          join_allowed :
              (r rest : Outcome (List (Consumer F)))
              → Allowed r
              → Allowed rest
              → Allowed (r >>=? λ a. rest >>=? λ others. return (a ++ others))
          join_allowed (raise e) rest h others = tt
          join_allowed (return a) (raise e) h others = tt
          join_allowed (return a) (return b) h others = All-append IsAllowed a b h others

          go :
              (r : Outcome Fields) (rest : Outcome (List (Consumer F)))
              → Allowed rest
              → Allowed (
                  r >>=? λ platform.
                  platform_services repr F demand default_model gateway name platform >>=? λ a.
                  rest >>=? λ others. return (a ++ others))
          go (raise e) rest h = tt
          go (return fields) rest h =
              join_allowed _ rest (platform_services-Allowed default_model gateway name fields) h

      pub parse_gateway_services-Allowed :
          (config : Fields) → Allowed (parse_gateway_services repr F demand config)
      unfolding parse_gateway_services
      parse_gateway_services-Allowed config =
          go (dict_fields (json_or (get_or_null "gateway" config) (obj end)))
            (λ gateway. dict_fields (json_or (get_or_null "platforms" gateway) (obj end))) _
            (λ platforms. services_of-Allowed _ _ (sorted_items platforms))
        where
          inner :
              (r : Outcome Fields) (f : Fields → Outcome (List (Consumer F)))
              → ((fields : Fields) → Allowed (f fields))
              → Allowed (r >>=? f)
          inner (raise e) f each = tt
          inner (return fields) f each = each fields

          go :
              (r : Outcome Fields) (r' : Fields → Outcome Fields)
              (f : Fields → Outcome (List (Consumer F)))
              → ((fields : Fields) → Allowed (f fields))
              → Allowed (r >>=? λ gateway. r' gateway >>=? f)
          go r r' f each = inner r _ (λ gateway. inner (r' gateway) f each)
