-- ===== src/Hermes/Allowed/Home.antt =====
-- The types of the consumers of profiles and of a whole inventory.
use free_model_orchestrator.Base.{
  ◌≡◌, String, Bool, true, false, Option, none, some, List, [], ◌∷◌, ◌++◌, contains, string_eq,
  All-append, if◌then◌else◌,
}
use free_model_orchestrator.Base.Dict.{Dict}
use free_model_orchestrator.Base.Float.{Float}
use free_model_orchestrator.Effects.{Outcome, return, raise, Exception, ◌>>=?◌}
use free_model_orchestrator.Catalog.{consumer_types}
use free_model_orchestrator.Hermes.{Consumer, Inventory, Profile}
use free_model_orchestrator.Hermes.Sources.{
  HermesFiles, ProfileSlots, parse_profiles, profile_slots_from_record, profile_consumers,
  main_consumer, read_yaml_file, path_join, enumerate_live_profiles,
}
use free_model_orchestrator.Hermes.Home.{
  Sources, if_given, build_hermes_inventory, read_hermes_home, load_if,
}
use free_model_orchestrator.Hermes.Allowed.{
  IsAllowed, AreAllowed, Allowed, each_type, auxiliary_consumers-AreAllowed,
  parse_cron_jobs-Allowed, parse_webhook_subscriptions-AreAllowed, parse_gateway_services-Allowed,
}

module _ (F : Float) where
  open F use {Number}

  module _ (files : HermesFiles F) where
    main_consumer-AreAllowed :
        (demand : Dict String Number) (slots : ProfileSlots) (name : String)
        → AreAllowed F (main_consumer F files demand slots name)
    unfolding main_consumer
    main_consumer-AreAllowed demand slots name =
        go slots.main_combo _ (λ combo. one_of slots.gateway_running)
      where
        one_of :
            (test : Bool)
            → contains consumer_types (if test then "service" else "agent_profile") ≡ true
        one_of true = each_type.3
        one_of false = each_type.0

        go :
            (main : Option String) (f : String → Consumer F)
            → ((combo : String) → contains consumer_types (f combo).consumer_type ≡ true)
            → AreAllowed F (elim main [ none ↦ [] | some combo ↦ f combo ∷ [] ])
        go none f each = tt
        go (some combo) f each = (each combo, tt)

    parse_profiles-Allowed :
        (demand : Dict String Number) (profiles : List Profile)
        → Allowed F (parse_profiles F files demand profiles)
    unfolding parse_profiles profile_consumers
    parse_profiles-Allowed demand [] = tt
    parse_profiles-Allowed demand (profile ∷ profiles) =
        go (profile_slots_from_record F files profile) _ (parse_profiles-Allowed demand profiles)
      where
        go :
            (r : Outcome ProfileSlots) (rest : Outcome (List (Consumer F)))
            → Allowed F rest
            → Allowed F (
                r >>=? λ slots.
                rest >>=? λ others. return (profile_consumers F files demand slots ++ others))
        go (raise e) rest h = tt
        go (return slots) (raise e) h = tt
        go (return slots) (return others) h =
            All-append (IsAllowed F) (profile_consumers F files demand slots) others
              (All-append (IsAllowed F) (main_consumer F files demand slots slots.name) _
                (main_consumer-AreAllowed demand slots slots.name)
                (auxiliary_consumers-AreAllowed F files.repr slots.name slots.main_combo
                  slots.auxiliary demand))
              h

    if_given-Allowed :
        {A : Type 0} (given : Option A) (parse : A → Outcome (List (Consumer F)))
        → ((a : A) → Allowed F (parse a))
        → Allowed F (if_given given parse)
    if_given-Allowed none parse each = tt
    if_given-Allowed (some a) parse each = each a

  pub data AllowedInventory : Outcome (Inventory F) → Type 0 where
    returned :
        (inventory : Inventory F)
        → AreAllowed F inventory.consumers
        → AllowedInventory (return inventory)
    raised : (e : Exception) → AllowedInventory (raise e)

  after_any :
      {A : Type 0} (r : Outcome A) (k : A → Outcome (Inventory F))
      → ((a : A) → AllowedInventory (k a))
      → AllowedInventory (r >>=? k)
  after_any (raise e) k each = raised e
  after_any (return a) k each = each a

  Allowed-after :
      (r : Outcome (List (Consumer F))) (k : List (Consumer F) → Outcome (Inventory F))
      → Allowed F r
      → ((cs : List (Consumer F)) → AreAllowed F cs → AllowedInventory (k cs))
      → AllowedInventory (r >>=? k)
  Allowed-after (raise e) k h each = raised e
  Allowed-after (return cs) k h each = each cs h

  module _ (files : HermesFiles F) where
    pub build_hermes_inventory-Allowed :
        (sources : Sources) (connection : Option (Outcome (Dict String Number)))
        → AllowedInventory (build_hermes_inventory F files sources connection)
    unfolding build_hermes_inventory
    build_hermes_inventory-Allowed sources connection = after_any _ _ λ demand.
        Allowed-after _ _
          (if_given-Allowed files sources.cron_jobs _ (parse_cron_jobs-Allowed F demand))
          λ jobs a.
            Allowed-after _ _
              (if_given-Allowed files sources.webhook_subscriptions _
                (parse_webhook_subscriptions-AreAllowed F demand))
              λ webhooks b.
                Allowed-after _ _
                  (if_given-Allowed files sources.profiles _ (parse_profiles-Allowed files demand))
                  λ profiles c.
                    Allowed-after _ _
                      (if_given-Allowed files sources.gateway_config _
                        (parse_gateway_services-Allowed F files.repr demand))
                      λ services d. returned _ (
                        All-append (IsAllowed F) _ services
                          (All-append (IsAllowed F) _ profiles
                            (All-append (IsAllowed F) jobs webhooks a b) c)
                          d)

    pub read_hermes_home-Allowed :
        (home : String) → AllowedInventory (read_hermes_home F files home)
    unfolding read_hermes_home
    read_hermes_home-Allowed home =
        after_any (read_yaml_file F files (path_join home "config.yaml")) _ λ gateway_config.
          after_any
            (load_if F files (path_join (path_join home "cron") "jobs.json") files.load_jobs) _
            λ cron_jobs.
              after_any
                (load_if F files (path_join home "webhook_subscriptions.json") files.load_routes) _
                λ routes.
                  after_any (enumerate_live_profiles F files home) _
                    λ profiles. build_hermes_inventory-Allowed _ _
