-- ===== src/Llm.antt =====
-- llm_runtime.py: prompts, the loop over the attempts, and the reading of a completion. The regular
-- expressions of the prompts, json.loads, pydantic's model_validate, the transport and the resolver
-- of the model are parameters; `W` is the state of the outside world.
pub mod Attempts
mod Samples
use free_model_orchestrator.Base.{
  ℕ, suc, zero, max, ◌≡◌, refl, String, Bool, true, false, not, Option, none, some, List, [], ◌∷◌,
  ◌&&◌, ◌||◌, ◌==◌, ◌<>◌, leb, nat_beq, string_eq, if◌then◌else◌, length,
}
use Prim.Native.Char.{Char, code}
use free_model_orchestrator.Base.Dict.{Dict}
use free_model_orchestrator.Effects.{
  Outcome, return, raise, Exception, llm_runtime_error, attribute_error, key_error, type_error,
  Action, ◌>>=?◌, ◌>>=◌, lift,
}
use free_model_orchestrator.Json.{
  Json, null, bool, int, decimal, str, arr, obj, Items, nil, cons, Fields, end, field, truth, get,
}
use free_model_orchestrator.Text.{codes}
use free_model_orchestrator.Hermes.Auxiliary.{get_or_null, is_in}
use free_model_orchestrator.Text.Replace.{first_chars, replace}

pub record LlmSiteConfig : Type 0 where
  pub name : String
  pub model : Option String
  pub retries : ℕ
  pub max_prompt_chars : ℕ

pub record LlmProviderConfig : Type 0 where
  pub base_url : String
  pub model : Option String
  pub structured_output_mode : String

-- What the transport is given, but for the response model.
pub record LlmRequest : Type 0 where
  pub base_url : String
  pub model : String
  pub site : String
  pub mode : String
  pub prompt : String

abbrev pub llm_error {ℓ} : {A : Type ℓ} → String → Outcome A
llm_error message = raise (record { kind = llm_runtime_error; message = message })

-- `str.upper` on ASCII is a parameter of the test for secrets.
abbrev has_marker : String → Bool
unfolding is_in
has_marker normalized =
    is_in "API_KEY" normalized
    || is_in "TOKEN" normalized
    || is_in "SECRET" normalized
    || is_in "COOKIE" normalized
    || is_in "DATABASE_URL" normalized

module _ (upper : String → String) (strip_placeholders redact_secrets : String → String) where
  -- `_looks_secret_key`
  unfoldable pub looks_secret_key : String → Bool
  unfolding has_marker
  looks_secret_key key = has_marker (upper key)

  unfoldable pub fill : Dict String String → String → String
  unfolding looks_secret_key replace
  fill [] prompt = prompt
  fill ((key, value) ∷ context) prompt =
      if looks_secret_key key
      then fill context prompt
      else fill context
          (replace ("{{" <> key <> "}}") value (replace ("{{ " <> key <> " }}") value prompt))

  -- `assemble_prompt` on the template and the texts of the context
  unfoldable pub assemble_prompt : String → Dict String String → String
  unfolding fill
  assemble_prompt template context = redact_secrets (strip_placeholders (fill context template))

  -- `limit_prompt`
  unfoldable pub limit_prompt : String → ℕ → String
  unfolding first_chars
  limit_prompt prompt max_chars =
      let redacted = redact_secrets prompt in
      if leb (length (codes redacted)) max_chars then redacted else first_chars max_chars redacted

-- `text[text.find(c):]`
unfoldable pub from_first : ℕ → String → Option String
from_first c String.[] = none
from_first c (String.◌∷◌ d s) = if nat_beq (code d) c then some (String.◌∷◌ d s) else from_first c s

abbrev cons_to : Char → Option String → Option String
cons_to d none = none
cons_to d (some s) = some (String.◌∷◌ d s)

-- `text[: text.rfind(c) + 1]`
unfoldable pub to_last : ℕ → String → Option String
to_last c String.[] = none
to_last c (String.◌∷◌ d s) = elim (to_last c s) [
  | some rest ↦ some (String.◌∷◌ d rest)
  | none ↦ if nat_beq (code d) c then some (String.◌∷◌ d "") else none
]

abbrev bind_option : {A B : Type 0} → Option A → (A → Option B) → Option B
bind_option none f = none
bind_option (some a) f = f a

-- From the first "{" to the last "}", where that stands behind it
unfoldable pub braced : String → Option String
unfolding from_first to_last
braced text = bind_option (from_first 123 text) (to_last 125)

abbrev no_attribute {ℓ} : {A : Type ℓ} → Outcome A
no_attribute = raise (record { kind = attribute_error; message = "get" })

-- `value.get(...)` needs a dict.
abbrev with_get : Json → Outcome Fields
with_get (obj fields) = return fields
with_get _ = no_attribute

-- `value[0]` of a value that is not empty
abbrev first_of : Json → Outcome Json
first_of (arr (cons first _)) = return first
first_of (str s) = return (str (first_chars 1 s))
first_of (obj _) = raise (record { kind = key_error; message = "0" })
first_of _ = raise (record { kind = type_error; message = "not subscriptable" })

-- `d.get(key, {})`
abbrev get_or_empty : String → Fields → Json
unfolding get
get_or_empty key fields = elim (get key fields) [ none ↦ obj end | some value ↦ value ]

abbrev text_of : Json → Option String
text_of (str s) = some s
text_of _ = none

abbrev tool_arguments : Json → Outcome (Option String)
unfolding truth get get_or_empty
tool_arguments tool_calls =
    if truth tool_calls
    then (first_of tool_calls >>=? λ call. with_get call >>=? λ call.
        with_get (get_or_empty "function" call) >>=? λ function.
        return (text_of (get_or_null "arguments" function)))
    else return none

abbrev or_content : Option String → Fields → Option String
unfolding get
or_content none message = text_of (get_or_null "content" message)
or_content (some arguments) message = some arguments

-- `_openai_message_content`
unfoldable pub openai_message_content : Fields → Outcome (Option String)
unfolding truth get tool_arguments or_content get_or_empty
openai_message_content raw =
    let choices = get_or_null "choices" raw in
    if truth choices
    then (first_of choices >>=? λ choice. with_get choice >>=? λ choice.
        with_get (get_or_empty "message" choice) >>=? λ message.
        tool_arguments (get_or_null "tool_calls" message) >>=? λ arguments.
        return (or_content arguments message))
    else return none

module _ (loads : String → Option Json) where
  abbrev loaded_or : Outcome Json → Option Json → Outcome Json
  loaded_or other none = other
  loaded_or other (some json) = return json

  abbrev not_json : Outcome Json
  not_json = llm_error "structured_completion_not_json"

  -- `_json_from_text`
  unfoldable pub json_from_text : String → Outcome Json
  unfolding braced
  json_from_text text =
      loaded_or (loaded_or not_json (bind_option (braced text) loads)) (loads text)

  abbrev arguments_or : Fields → Option String → Outcome Json
  unfolding json_from_text
  arguments_or raw none = return (obj raw)
  arguments_or raw (some arguments) = json_from_text arguments

  abbrev content_or : Fields → Option String → Outcome Json
  unfolding json_from_text get arguments_or
  content_or raw none = arguments_or raw (text_of (get_or_null "arguments" raw))
  content_or raw (some content) = json_from_text content

  -- `_coerce_completion_payload` on what is no instance of a model
  unfoldable pub coerce_completion_payload : Json → Outcome Json
  unfolding openai_message_content content_or json_from_text
  coerce_completion_payload (obj raw) = openai_message_content raw >>=? content_or raw
  coerce_completion_payload (str text) = json_from_text text
  coerce_completion_payload raw = return raw

-- What the transport returns: an instance of a pydantic model, or another value.
pub data Completion (M : Type 0) : Type 0 where
  instance_of : M → Completion M
  value_of : Json → Completion M

module _ {M A : Type 0} (loads : String → Option Json) (validate_instance : M → Outcome A)
    (validate_value : Json → Outcome A) where
  -- A ValidationError is raised again as LlmRuntimeError.
  abbrev as_llm_error : Outcome A → Outcome A
  as_llm_error (return a) = return a
  as_llm_error (raise e) = llm_error e.message

  -- `validate_structured_completion`
  unfoldable pub validate_structured_completion : Completion M → Outcome A
  unfolding coerce_completion_payload
  validate_structured_completion (instance_of m) = as_llm_error (validate_instance m)
  validate_structured_completion (value_of raw) =
      coerce_completion_payload loads raw >>=? λ payload. as_llm_error (validate_value payload)

module _ {W : Type 0} (provider : LlmProviderConfig)
    (model_resolver : Option (Action W (Option String))) where
  abbrev model_or_raise : Option String → Outcome String
  model_or_raise none = llm_error "llm_model_unavailable"
  model_or_raise (some model) =
      if model == "" then llm_error "llm_model_unavailable" else return model

  abbrev site_or_provider : Option String → Option String → Option String
  site_or_provider none model = model
  site_or_provider (some own) model = if own == "" then model else some own

  -- `_resolve_model`
  unfoldable pub resolve_model : LlmSiteConfig → Action W String
  resolve_model site = elim model_resolver [
    | some resolver ↦ resolver >>= λ model. lift (model_or_raise model)
    | none ↦ lift (model_or_raise (site_or_provider site.model provider.model))
  ]

  module _ {R A : Type 0} (transport : LlmRequest → Action W R) (validate : R → Outcome A) where
    -- The body of the try statement
    unfoldable pub attempt : LlmSiteConfig → String → Action W A
    unfolding resolve_model
    attempt site prompt = resolve_model site >>= λ model.
        transport (record {
          base_url = provider.base_url;
          model = model;
          site = site.name;
          mode = provider.structured_output_mode;
          prompt = prompt;
        })
        >>= λ raw. lift (validate raw)

    -- The attempts that are left, and the message of the last error
    unfoldable pub attempts_left : LlmSiteConfig → String → ℕ → String → Action W A
    unfolding attempt
    attempts_left site prompt zero last_error w = (llm_error last_error, w)
    attempts_left site prompt (suc n) last_error w =
        let (outcome, w') = attempt site prompt w in
        elim outcome [
          | return a ↦ (return a, w')
          | raise e ↦ attempts_left site prompt n e.message w'
        ]

    -- `SharedInstructorRuntime.complete` from the prompt on
    unfoldable pub complete : LlmSiteConfig → String → Action W A
    unfolding attempts_left
    complete site prompt = attempts_left site prompt (max site.retries 1) "None"
