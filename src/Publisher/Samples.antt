-- ===== src/Publisher/Samples.antt =====
-- A role, its pool, and a publish of the pool to a world that accepts it.
use free_model_orchestrator.Base.{
  ℕ, ◌≡◌, refl, ◌+◌, ◌==◌, true, none, some, [], ◌∷◌, arith, if◌then◌else◌, string_eq, option_eq,
}
use free_model_orchestrator.Base.Dict.{lookup}
use free_model_orchestrator.Base.Float.Whole.{whole, whole-IsOrdered}
use free_model_orchestrator.Effects.{return, raise, Exception, value_error}
use free_model_orchestrator.Json.{Json, end, int, field, obj, arr, str, null, pos, nil, cons}
use free_model_orchestrator.Omniroute.{Request, answered, Outside, OmniRouteClient, get, put}
use free_model_orchestrator.Omniroute.Version.{evaluate}
use free_model_orchestrator.Text.{lower, strip}
use free_model_orchestrator.Publisher.{
  RoleRow, Pool, Requirements, Generation, compose_pool, compose_pools, shared_capabilities,
  workload_class_of, quality_category,
}
use free_model_orchestrator.Publisher.Bands.{IsScaled, Composed, compose_pools-Composed}
use free_model_orchestrator.Publisher.Combos.{resolve_generation}
use free_model_orchestrator.Publisher.Combos.Resolution.{
  index_of, Resolved, resolve_generation-Resolved,
}
use free_model_orchestrator.Publisher.Publish.{
  PublishState, Wire, PoolPublishResult, publish_pool_generation,
}
use free_model_orchestrator.Publisher.Publish.Records.{Recorded, publish-Recorded}

whole-IsScaled : IsScaled whole
whole-IsScaled = record {
  zero_le_zero = refl;
  zero_le_one = refl;
  one_le_one = refl;
  comparable = λ x y _ _. whole-IsOrdered.le_total x y;
  scaled_low = λ x h. ground arith;
  scaled_high = λ x h. ground arith;
}

aliases : shared_capabilities ("Tools " ∷ "json" ∷ "tool_calling" ∷ []) ≡ "json" ∷ "tool_call" ∷ []
unfolding shared_capabilities string_eq lookup
aliases = refl

unknown_class : workload_class_of (some " Tools") ≡ "tools"
unfolding workload_class_of string_eq lower strip
unknown_class = refl

abbrev requirements : Requirements
requirements = record {
  min_context_tokens = some (pos 8192);
  minimum_context_window = none;
  pool_id = none;
  combo_id = some "chat";
  workload_class = none;
  free_only = none;
  capabilities = [];
  quality_metric = none;
  quality_relax = none;
}

abbrev pub chat_role : RoleRow whole
chat_role = record {
  id = "chat";
  requirements = requirements;
  role_lifecycle_status = "active";
  minimum_quality_metric = none;
  minimum_quality_value = none;
  maximum_quality_value = none;
  consumer_count = 2;
}

abbrev old_role : RoleRow whole
old_role = record chat_role { id = "old"; role_lifecycle_status = "retired" }

abbrev chat_pool : Pool whole
chat_pool = record {
  pool_id = "chat";
  combo_id = "chat";
  requests_per_day = 40;
  consumers = 2;
  workload_class = "chat";
  free_only = true;
  capabilities = [];
  min_context_tokens = 8192;
  quality_band = record {
    category = "intelligence";
    minimum = 0;
    maximum = 1;
    relax = obj (field "when" (str "underfilled") (field "max_delta" (int (pos 0)) end));
  };
}

composes :
    compose_pools whole (old_role ∷ chat_role ∷ []) (("chat", 40) ∷ []) ≡ return (chat_pool ∷ [])
unfolding compose_pools string_eq lookup workload_class_of shared_capabilities quality_category
    compose_pool
composes = refl

compose_pools-Composed_example : Composed whole (old_role ∷ chat_role ∷ []) (chat_pool ∷ [])
compose_pools-Composed_example =
    compose_pools-Composed whole whole-IsScaled (("chat", 40) ∷ []) (old_role ∷ chat_role ∷ [])
      (chat_pool ∷ []) composes

abbrev pub generation : Generation whole
generation = record {
  contract_version = "fmo-pools/v1";
  generation = "g1";
  generated_at = "t1";
  pools = chat_pool ∷ [];
}

abbrev pub resolved : Generation whole
resolved = record generation { pools = record chat_pool { combo_id = "c-1" } ∷ [] }

abbrev listing : Json
listing = obj (
    field "combos"
      (arr (cons null (cons (obj (field "id" (str "c-1") (field "name" (str "chat") end))) nil)))
      end)

resolves : resolve_generation listing generation ≡ return resolved
unfolding resolve_generation string_eq lookup
resolves = refl

resolve_generation-Resolved_example :
    (resolved ≡ record generation { pools = resolved.pools })
    × Resolved (index_of listing).combo_ids generation.pools resolved.pools
resolve_generation-Resolved_example =
    resolve_generation-Resolved listing generation resolved resolves

-- The state counts the requests.
abbrev pub answer : Request → Json
answer r = if r.path == "/api/combos" then listing else obj end

abbrev outside : Outside whole ℕ
outside = record {
  transport = λ r n. (
    answered (record {
      status_code = 200;
      json = some (answer r);
      text = "";
      headers = end;
      retry_after = none;
    }),
    n + 1,
  );
  sleep = λ _ n. n;
  uuid = λ _. "id";
}

abbrev pub client : OmniRouteClient
client = record { api_key = none; max_get_retries = 0 }

abbrev pub wire : Wire whole
wire = record { payload_json = λ g. str g.generation; stable_hash = λ g. g.generation }

abbrev pub empty : PublishState whole ℕ
empty = record { outside = 0; tables = record { published_generations = []; change_log = [] } }

abbrev pub result : PoolPublishResult whole
result = record { generation = "g1"; payload_hash = "g1"; status = "acknowledged"; response = end }

abbrev stored : PublishState whole ℕ
stored = record {
  outside = 2;
  tables = record {
    published_generations =
        record {
          generation = "g1";
          payload_hash = "g1";
          payload = resolved;
          status = "acknowledged";
        }
        ∷ [];
    change_log =
        record {
          run_id = some 1;
          entity_type = "fmo-pools";
          entity_id = "g1";
          action = "publish";
          payload_hash = "g1";
          status = "acknowledged";
          reason_codes = "pool_spec_publish" ∷ [];
          contract_version = "fmo-pools/v1";
          omniroute_version = "3.8.0";
        }
        ∷ [];
  };
}

publishes :
    publish_pool_generation outside client wire
      (">=3.7" ∷ [])
      (some "3.8.0")
      (some 1)
      generation
      empty
    ≡ (return result, stored)
unfolding publish_pool_generation resolve_generation evaluate string_eq lookup get put
publishes = refl

publish-Recorded_example :
    Recorded outside client wire (">=3.7" ∷ []) (some "3.8.0") generation empty stored result
publish-Recorded_example =
    publish-Recorded outside client wire (">=3.7" ∷ []) (some "3.8.0") (some 1) generation empty
      stored result publishes

abbrev unsupported : Exception
unsupported = record {
  kind = value_error;
  message = "unsupported pool contract fmo-pools/v1 on OmniRoute ";
}

abbrev asked : PublishState whole ℕ
asked = record empty { outside = 1 }

refuses :
    publish_pool_generation outside client wire (">=3.7" ∷ []) none (some 1) generation empty
    ≡ (raise unsupported, asked)
unfolding publish_pool_generation evaluate string_eq get free_model_orchestrator.Json.get
refuses = refl
