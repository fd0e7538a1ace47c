-- ===== src/Publisher/Publish.antt =====
-- `publish_pool_generation` with published_generation.py and persistence/audit.py: the version
-- gate, the resolution of combo names, the PUT, and the two rows that record it. The state is the
-- outside world with the tables published_generations and change_log, without their times. `payload_json` and
-- `stable_hash` stand for json.dumps and hashlib on the generation's dict.
pub mod Records
use free_model_orchestrator.Base.{
  ℕ, String, Bool, true, false, Option, none, some, List, [], ◌∷◌, ◌++◌, ◌&&◌, ◌==◌, string_eq,
  if◌then◌else◌, ◌<>◌,
}
use free_model_orchestrator.Base.Float.{Float}
use free_model_orchestrator.Effects.{
  Outcome, return, raise, raise_value_error, type_error, Action, pure, lift, branch, ◌>>=◌, ◌>>◌,
}
use free_model_orchestrator.Json.{Json, Fields, obj}
use free_model_orchestrator.Omniroute.{Outside, OmniRouteClient, get, put}
use free_model_orchestrator.Omniroute.Version.{evaluate}
use free_model_orchestrator.Publisher.{Generation, pool_contract_version, or_text}
use free_model_orchestrator.Publisher.Combos.{resolve_generation, text_field}

module _ (F : Float) where
  pub record PublishedRow : Type 0 where
    pub generation : String
    pub payload_hash : String
    pub payload : Generation F
    pub status : String

  pub record AuditRow : Type 0 where
    pub run_id : Option ℕ
    pub entity_type : String
    pub entity_id : String
    pub action : String
    pub payload_hash : String
    pub status : String
    pub reason_codes : List String
    pub contract_version : String
    pub omniroute_version : String

  pub record Tables : Type 0 where
    pub published_generations : List PublishedRow
    pub change_log : List AuditRow

  pub record PublishState (W : Type 0) : Type 0 where
    pub outside : W
    pub tables : Tables

  pub record Wire : Type 0 where
    pub payload_json : Generation F → Json
    pub stable_hash : Generation F → String

  abbrev pub has_key : String → String → PublishedRow → Bool
  has_key generation payload_hash row =
      row.generation == generation && row.payload_hash == payload_hash

  -- `PublishedGenerationRepository.upsert` on the table
  unfoldable pub upsert : PublishedRow → List PublishedRow → List PublishedRow
  upsert new [] = new ∷ []
  upsert new (row ∷ rows) =
      if has_key new.generation new.payload_hash row
      then record row { payload = new.payload; status = new.status } ∷ rows
      else row ∷ upsert new rows

  -- `PublishedGenerationRepository.get`
  unfoldable pub get_published : String → String → List PublishedRow → Option PublishedRow
  get_published generation payload_hash [] = none
  get_published generation payload_hash (row ∷ rows) =
      if has_key generation payload_hash row
      then some row
      else get_published generation payload_hash rows

  pub record PoolPublishResult : Type 0 where
    pub generation : String
    pub payload_hash : String
    pub status : String
    pub response : Fields

  -- What is known once OmniRoute has answered the PUT.
  pub record Acknowledged : Type 0 where
    pub version : String
    pub resolved : Generation F
    pub response : Fields

module _ {F : Float} {W : Type 0} (outside : Outside F W) (client : OmniRouteClient)
    (wire : Wire F) where
  abbrev pub on_outside : {A : Type 0} → Action W A → Action (PublishState F W) A
  on_outside m s = let (o, w) = m s.outside in (o, record s { outside = w })

  -- `.get` on what is no dict raises AttributeError.
  abbrev pub as_dict : Json → Outcome Fields
  as_dict (obj fields) = return fields
  as_dict _ = raise (record { kind = type_error; message = "object has no attribute 'get'" })

  abbrev pub ask_version : Action (PublishState F W) String
  ask_version = do
    health ← on_outside (get outside client "/api/monitoring/health")
    fields ← lift (as_dict health)
    pure (text_field "version" fields)

  -- `server_version or str(client.get("/api/monitoring/health").get("version") or "")`
  abbrev pub read_version : Option String → Action (PublishState F W) String
  read_version given = branch (or_text given "" == "") ask_version (pure (or_text given ""))

  abbrev pub check_version : List String → String → Outcome (Unit {0})
  check_version known_apply_versions version =
      if (evaluate known_apply_versions version).can_apply
      then return tt
      else raise_value_error
          ("unsupported pool contract " <> pool_contract_version <> " on OmniRoute " <> version)

  abbrev pub sent : Generation F → Action (PublishState F W) Json
  sent resolved = on_outside (
      put outside client "/api/fmo/pools" (wire.payload_json resolved) []
        (some (wire.stable_hash resolved)))

  -- All that comes before the transaction.
  unfoldable pub send_generation :
      List String → Option String → Generation F → Action (PublishState F W) (Acknowledged F)
  send_generation known_apply_versions server_version generation = do
    version ← read_version server_version
    lift (check_version known_apply_versions version)
    payload ← on_outside (get outside client "/api/combos")
    resolved ← lift (resolve_generation payload generation)
    answer ← sent resolved
    response ← lift (as_dict answer)
    pure (record { version = version; resolved = resolved; response = response })

  abbrev pub status_of : Acknowledged F → String
  status_of a = or_text (some (text_field "status" a.response)) "acknowledged"

  abbrev pub published_row : Acknowledged F → PublishedRow F
  published_row a = record {
    generation = a.resolved.generation;
    payload_hash = wire.stable_hash a.resolved;
    payload = a.resolved;
    status = status_of a;
  }

  abbrev pub audit_row : Option ℕ → Acknowledged F → AuditRow F
  audit_row run_id a = record {
    run_id = run_id;
    entity_type = "fmo-pools";
    entity_id = a.resolved.generation;
    action = "publish";
    payload_hash = wire.stable_hash a.resolved;
    status = status_of a;
    reason_codes = "pool_spec_publish" ∷ [];
    contract_version = pool_contract_version;
    omniroute_version = a.version;
  }

  -- The transaction.
  unfoldable pub record_publish : Option ℕ → Acknowledged F → Tables F → Tables F
  unfolding upsert
  record_publish run_id a t = record {
    published_generations = upsert F (published_row a) t.published_generations;
    change_log = t.change_log ++ audit_row run_id a ∷ [];
  }

  abbrev pub result_of : Acknowledged F → PoolPublishResult F
  result_of a = record {
    generation = a.resolved.generation;
    payload_hash = wire.stable_hash a.resolved;
    status = status_of a;
    response = a.response;
  }

  abbrev pub commit : Option ℕ → Acknowledged F → Action (PublishState F W) (PoolPublishResult F)
  unfolding record_publish
  commit run_id a s = (return (result_of a), record s { tables = record_publish run_id a s.tables })

  unfoldable pub publish_pool_generation :
      List String
      → (server_version : Option String) → (run_id : Option ℕ) → Generation F
      → Action (PublishState F W) (PoolPublishResult F)
  unfolding send_generation record_publish
  publish_pool_generation known_apply_versions server_version run_id generation = do
    a ← send_generation known_apply_versions server_version generation
    commit run_id a

  -- `usage_feedback`
  unfoldable pub usage_feedback : Action W Json
  usage_feedback = get outside client "/api/fmo/usage"
