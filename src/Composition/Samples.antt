-- ===== src/Composition/Samples.antt =====
-- A publish from the pipeline, a run that cannot compose, and the stages of commands.
use free_model_orchestrator.Base.{
  ℕ, ◌≡◌, refl, ◌+◌, ◌==◌, ◌≢◌, String, none, some, [], ◌∷◌, string_eq, if◌then◌else◌, arith,
}
use free_model_orchestrator.Base.Dict.{lookup}
use free_model_orchestrator.Base.Float.Whole.{whole}
use free_model_orchestrator.Effects.{return, raise_value_error}
use free_model_orchestrator.Json.{Json, obj, field, str, end}
use free_model_orchestrator.Omniroute.{Request, answered, Outside}
use free_model_orchestrator.Persistence.{no_runs}
use free_model_orchestrator.Pipeline.{State, Stage}
use free_model_orchestrator.Publisher.{RoleRow, compose_pool_generation}
use free_model_orchestrator.Publisher.Samples.{answer, wire, empty, generation, chat_role}
use free_model_orchestrator.Composition.{Env, compose_from_repository, on_env, usage_feedback_stage}
use free_model_orchestrator.Composition.Commands.{stages_for_command}
use text.Mathlib.TextEquality.{eq_iff}

abbrev healthy : Request → Json
healthy r =
    if r.path == "/api/monitoring/health" then obj (field "version" (str "3.8.0") end) else answer r

abbrev outside : Outside whole ℕ
outside = record {
  transport = λ r n. (
    answered (record {
      status_code = 200;
      json = some (healthy r);
      text = "";
      headers = end;
      retry_after = none;
    }),
    n + 1,
  );
  sleep = λ _ n. n;
  uuid = λ _. "id";
}

abbrev env : Env whole ℕ
env = record {
  outside = 0;
  tables = empty.tables;
  roles = [];
  role_consumers = [];
  role_demand_forecasts = [];
  config = record { generation = none; pool_generation = some generation; feedback = none };
}

-- A role without a context window.
abbrev bare_role : RoleRow whole
bare_role = record chat_role {
  requirements = record chat_role.requirements { min_context_tokens = none };
}

abbrev state : State (Env whole ℕ)
state = record { runs = no_runs; env = record env { roles = bare_role ∷ [] } }

cannot_compose :
    compose_from_repository "t" state.env ≡ raise_value_error "pool chat missing min_context_tokens"
unfolding compose_from_repository string_eq lookup compose_pool_generation
cannot_compose = refl

abbrev reconcile : Stage (Env whole ℕ)
reconcile = on_env "role-lifecycle" (λ _. usage_feedback_stage outside none wire [])

selects : stages_for_command "reconcile-roles" (reconcile ∷ []) ≡ return (reconcile ∷ [])
unfolding stages_for_command string_eq lookup
selects = refl

not_full : ◌≢◌ {A = String} "reconcile-roles" "full"
not_full = ground (arith, eq_iff "reconcile-roles" "full")
