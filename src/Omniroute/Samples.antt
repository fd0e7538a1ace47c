-- ===== src/Omniroute/Samples.antt =====
-- A world that answers from a list of status codes and records what was slept.
use free_model_orchestrator.Base.{
  ℕ, ◌+◌, ◌≤◌, ◌≡◌, refl, true, none, some, List, [], ◌∷◌, if◌then◌else◌, string_eq,
}
use free_model_orchestrator.Base.Float.Whole.{whole}
use free_model_orchestrator.Effects.{return, raise}
use free_model_orchestrator.Json.{end, null}
use free_model_orchestrator.Omniroute.{
  Reply, failed, answered, Outside, OmniRouteClient, get_method, put_method, is_get, request, get,
  put, conclude, request_failure,
}
use free_model_orchestrator.Omniroute.Requests.{Sent, request-Sent}
use free_model_orchestrator.Omniroute.Version.{evaluate, version_tuple, tuple_le, evaluate_mono}

pub record World : Type 0 where
  pub codes : List ℕ
  pub sends : ℕ

abbrev reply_to : World → Reply × World
reply_to w = elim w.codes [
  | [] ↦ (failed, record w { sends = w.sends + 1 })
  | code ∷ codes ↦ (
    answered (record {
      status_code = code;
      json = some null;
      text = "";
      headers = end;
      retry_after = some "2";
    }),
    record { codes = codes; sends = w.sends + 1 },
  )
]

abbrev outside : Outside whole World
outside = record { transport = λ _ w. reply_to w; sleep = λ _ w. w; uuid = λ _. "id" }

abbrev client : OmniRouteClient
client = record { api_key = some "key"; max_get_retries = 1 }

abbrev flaky : World
flaky = record { codes = 503 ∷ 200 ∷ []; sends = 0 }

get_retries :
    get outside client "/api/combos" flaky ≡ (return null, record { codes = []; sends = 2 })
unfolding get
get_retries = refl

put_does_not : put outside client "/api/fmo/pools" null [] none flaky ≡ (
  raise (request_failure put_method "/api/fmo/pools" 503),
  record { codes = 200 ∷ []; sends = 1 },
)
unfolding put
put_does_not = refl

request-Sent_example :
    let result = request outside client get_method "/api/combos" none [] none flaky in
    (n : ℕ) × (reply : Reply) × Sent outside client get_method "/api/combos" none [] none 0 n reply
      flaky result.1
    × (1 ≤ n)
    × (n ≤ (if is_get get_method then 1 + 1 else 1))
    × (result.0 ≡ conclude get_method "/api/combos" reply)
request-Sent_example = request-Sent outside client get_method "/api/combos" none [] none flaky

reads_prerelease : version_tuple "3.7.0-beta" ≡ 3 ∷ 7 ∷ 0 ∷ []
unfolding version_tuple
reads_prerelease = refl

prefixed_version : version_tuple "v3.8" ≡ 0 ∷ 0 ∷ 0 ∷ []
unfolding version_tuple
prefixed_version = refl

evaluate_mono_example : (evaluate (">=3.7.0" ∷ []) "3.10").can_apply ≡ true
unfolding version_tuple tuple_le evaluate
evaluate_mono_example = evaluate_mono (">=3.7.0" ∷ []) "3.9.1" "3.10" (refl, tt) refl refl
