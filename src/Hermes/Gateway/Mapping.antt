-- ===== src/Hermes/Gateway/Mapping.antt =====
-- A gateway's config.yaml whose "model" is a mapping, the form that a profile's config.yaml may have.
use free_model_orchestrator.Base.{
  ◌≡◌, refl, String, true, false, some, List, [], ◌∷◌, string_eq, All, inl, inr, ◌⊎◌, Bool-cases,
  arith, subst, sym,
}
use free_model_orchestrator.Base.Dict.{Dict}
use free_model_orchestrator.Base.Float.{Float}
use free_model_orchestrator.Effects.{Outcome, return, raise, ◌>>=?◌}
use free_model_orchestrator.Json.{Json, obj, Fields, end, field, truth, get}
use free_model_orchestrator.Hermes.{Consumer}
use free_model_orchestrator.Hermes.Auxiliary.{get_or_null, json_or, py_str, sorted_items}
use free_model_orchestrator.Hermes.Sources.{HermesFiles, main_combo_from_config}
use free_model_orchestrator.Hermes.Gateway.{
  parse_gateway_services, services_of, platform_services, hashable_role, dict_fields,
}

bind-return :
    {A B : Type 0} (o : Outcome A) (f : A → Outcome B) (b : B)
    → (o >>=? f) ≡ return b
    → (a : A) × (o ≡ return a) × (f a ≡ return b)
bind-return (return a) f b h = (a, refl, h)
bind-return (raise e) f b h = absurd (ground (arith, h))

-- A platform that is a dict, and is off or has a model of its own
abbrev pub HasOwnModel : String × Json → Type 0
HasOwnModel (name, obj platform) =
    (truth (get_or_null "enabled" platform) ≡ false) ⊎ (truth (get_or_null "model" platform) ≡ true)
HasOwnModel (name, _) = ⊥

default_is_nonempty :
    (model : Fields) → truth (get_or_null "default" model) ≡ true → truth (obj model) ≡ true
unfolding truth get
default_is_nonempty end h = absurd (ground (arith, h))
default_is_nonempty (field key value model) h = refl

or_empty : (fields : Fields) → json_or (obj fields) (obj end) ≡ obj fields
unfolding truth
or_empty end = refl
or_empty (field key value fields) = refl

dict_fields-obj :
    (json : Json) (fields : Fields) → dict_fields json ≡ return fields → json ≡ obj fields
dict_fields-obj json fields h = ground (arith, h)

module _ (F : Float) (files : HermesFiles F) (demand : Dict String F.Number) (model : Fields) where
  platform_services-HasOwnModel :
      (auxiliary : Fields) (name : String) (platform : Fields) (consumers : List (Consumer F))
      → platform_services files.repr F demand (obj model) auxiliary name platform ≡ return consumers
      → HasOwnModel (name, obj platform)
  unfolding platform_services hashable_role
  platform_services-HasOwnModel auxiliary name platform consumers h =
      elim (Bool-cases (truth (get_or_null "enabled" platform))) [
        | inl enabled ↦ elim (Bool-cases (truth (get_or_null "model" platform))) [
          | inl own ↦ inr own
          | inr missing ↦ absurd (ground (arith, rw (enabled, missing) at h))
        ]
        | inr off ↦ inl off
      ]

  services_of-HasOwnModel :
      (auxiliary : Fields) (platforms : Dict String Json) (consumers : List (Consumer F))
      → services_of files.repr F demand (obj model) auxiliary platforms ≡ return consumers
      → All HasOwnModel platforms
  unfolding services_of
  services_of-HasOwnModel auxiliary [] consumers h = tt
  services_of-HasOwnModel auxiliary ((name, platform) ∷ platforms) consumers h =
      let (fields, is, h1) = bind-return (dict_fields platform) _ consumers h in
      let (own, served, h2) =
        bind-return (platform_services files.repr F demand (obj model) auxiliary name fields) _
          consumers h1 in
      let (others, rest, _) =
        bind-return (services_of files.repr F demand (obj model) auxiliary platforms) _ consumers
          h2 in
      (
        subst (λ p. HasOwnModel (name, p)) (sym (dict_fields-obj platform fields is))
            (platform_services-HasOwnModel auxiliary name fields own served),
        services_of-HasOwnModel auxiliary platforms others rest,
      )

  -- A config.yaml whose "model" is a mapping with a default, whatever else it holds, names a combo
  -- for a profile. But the gateway's reader returns for it only if each of its platforms is a dict
  -- and is off or has a model of its own: no platform can inherit the model.
  pub parse_gateway_services-mapping_model :
      (config gateway platforms : Fields) (consumers : List (Consumer F))
      → get_or_null "model" config ≡ obj model
      → truth (get_or_null "default" model) ≡ true
      → get_or_null "gateway" config ≡ obj gateway
      → get_or_null "platforms" gateway ≡ obj platforms
      → parse_gateway_services files.repr F demand config ≡ return consumers
      → (main_combo_from_config F files (get_or_null "model" config)
          ≡ some (py_str files.repr (get_or_null "default" model)))
        × All HasOwnModel (sorted_items platforms)
  unfolding main_combo_from_config parse_gateway_services
  parse_gateway_services-mapping_model config gateway platforms consumers m default g p h = (
    rw (m, default) refl,
    services_of-HasOwnModel _ (sorted_items platforms) consumers (
        rw (m, default_is_nonempty model default, g, or_empty gateway, p, or_empty platforms) at h),
  )
