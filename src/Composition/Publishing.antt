-- ===== src/Composition/Publishing.antt =====
-- What the stage "publish" leaves.
use free_model_orchestrator.Base.{ℕ, ◌≡◌, ◌≢◌, String, Option, none, some, List, string_eq}
use free_model_orchestrator.Base.Float.{Float}
use free_model_orchestrator.Effects.{Outcome, return}
use free_model_orchestrator.Omniroute.{Outside, OmniRouteClient}
use free_model_orchestrator.Pipeline.{StageResult}
use free_model_orchestrator.Publisher.{Generation}
use free_model_orchestrator.Publisher.Publish.{Wire, PublishState, PoolPublishResult}
use free_model_orchestrator.Publisher.Publish.Records.{Recorded}
use free_model_orchestrator.Composition.{Env, publish_state, with_published}

module _ {F : Float} {W : Type 0} (outside : Outside F W) (client : Option OmniRouteClient)
    (wire : Wire F) (known : List String) (run_id : ℕ) (env : Env F W) where
  -- Recorded with success, or failed with the tables as they were; never raised.
  pub data Published : Outcome StageResult × Env F W → Type 0 where
    recorded :
        (c : OmniRouteClient) (generation : Generation F) (r : StageResult)
        (result : PoolPublishResult F) (s1 : PublishState F W)
        → client ≡ some c
        → env.config.pool_generation ≡ some generation
        → Recorded outside c wire known none generation (publish_state env) s1 result
        → r.idempotency_key ≡ some result.payload_hash
        → Published (return r, with_published env s1)
    failed :
        (r : StageResult) (env1 : Env F W)
        → r.status ≢ "success"
        → env1.tables ≡ env.tables
        → Published (return r, env1)
