-- ===== src/Llm/Samples.antt =====
-- A transport that fails once, and completions as models write them.
use free_model_orchestrator.Base.{ℕ, suc, zero, ◌≡◌, refl, String, none, some, string_eq}
use free_model_orchestrator.Effects.{return, raise, request_error, Action}
use free_model_orchestrator.Json.{str, arr, obj, nil, cons, field, end}
use free_model_orchestrator.Llm.{
  LlmSiteConfig, LlmProviderConfig, LlmRequest, complete, openai_message_content, braced,
}
use free_model_orchestrator.Llm.Attempts.{Attempted, complete-Attempted}

abbrev site : LlmSiteConfig
site = record { name = "test"; model = some "m"; retries = 3; max_prompt_chars = 100 }

abbrev provider : LlmProviderConfig
provider = record { base_url = "http://localhost"; model = none; structured_output_mode = "json" }

-- The state counts the calls; only the first one fails.
abbrev transport : LlmRequest → Action ℕ String
transport request zero = (raise (record { kind = request_error; message = "down" }), 1)
transport request (suc n) = (return request.model, suc (suc n))

second_answers : complete provider none transport (λ r. return r) site "p" 0 ≡ (return "m", 2)
unfolding complete string_eq
second_answers = refl

complete-Attempted_example :
    Attempted {A = String} provider none transport
      (λ r. return r)
      site
      "p"
      3
      0
      (complete provider none transport (λ r. return r) site "p" 0)
complete-Attempted_example = complete-Attempted provider none transport (λ r. return r) site "p" 0

fenced : braced "```json {\"a\": {}} ```" ≡ some "{\"a\": {}}"
unfolding braced
fenced = refl

chat_content :
    openai_message_content (
      field "choices"
        (arr (cons (obj (field "message" (obj (field "content" (str "{}") end)) end)) nil))
        end)
    ≡ return (some "{}")
unfolding openai_message_content string_eq
chat_content = refl
