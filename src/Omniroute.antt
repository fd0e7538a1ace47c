-- ===== src/Omniroute.antt =====
-- omniroute.py: the HTTP client with its retries, and the version gate.
-- `W` is the state of the outside world and `F` is Python's float. What httpx, uuid and time.sleep
-- do to the world is the record `Outside`; the base URL and the timeout are its own.
pub mod Requests
pub mod Version
mod Samples
use free_model_orchestrator.Base.{
  ℕ, zero, suc, ◌+◌, ◌^◌, String, Bool, true, false, ◌&&◌, ◌||◌, Option, none, some, List, [], ◌∷◌,
  ◌==◌, string_eq, if◌then◌else◌, leb, ltb, nat_beq, ◌<>◌,
}
use free_model_orchestrator.Base.Dict.{Dict, insert}
use free_model_orchestrator.Base.Float.{Float, fmin, fmax}
use free_model_orchestrator.Effects.{Outcome, return, raise, Exception, request_error, Action}
use free_model_orchestrator.Json.{Json, Fields, end, field, str, int, pos, obj}
use free_model_orchestrator.Text.{show_nat}

pub data Method : Type 0 where
  get_method post_method put_method : Method

abbrev show_method : Method → String
show_method get_method = "GET"
show_method post_method = "POST"
show_method put_method = "PUT"

abbrev pub is_get : Method → Bool
is_get get_method = true
is_get _ = false

pub record Request : Type 0 where
  pub method : Method
  pub path : String
  pub headers : Dict String String
  pub payload : Option Json

-- `json` is `none` where `response.json()` raises ValueError.
pub record Response : Type 0 where
  pub status_code : ℕ
  pub json : Option Json
  pub text : String
  pub headers : Fields
  pub retry_after : Option String

-- `failed` stands for an httpx.TransportError.
pub data Reply : Type 0 where
  failed : Reply
  answered : Response → Reply

pub record Outside (F : Float) (W : Type 0) : Type 0 where
  pub transport : Request → W → Reply × W
  pub sleep : F.Number → W → W
  pub uuid : W → String

pub record OmniRouteClient : Type 0 where
  pub api_key : Option String
  pub max_get_retries : ℕ

abbrev pub is_truthy : Option String → Bool
is_truthy none = false
is_truthy (some s) = if s == "" then false else true

abbrev set_if_truthy :
    String → (String → String) → Option String → Dict String String → Dict String String
set_if_truthy name f none headers = headers
set_if_truthy name f (some value) headers =
    if is_truthy (some value) then insert name (f value) headers else headers

-- `_headers`
unfoldable pub request_headers :
    OmniRouteClient
    → Dict String String
    → (idempotency_key : Option String) → (uuid : String) → Dict String String
request_headers client headers idempotency_key uuid =
    set_if_truthy "Idempotency-Key" (λ key. key) idempotency_key
      (set_if_truthy "Authorization" (λ key. "Bearer " <> key) client.api_key
        (insert "X-Request-Id" uuid headers))

-- `_is_transient_get_status`
unfoldable pub is_transient_get_status : Method → ℕ → Bool
is_transient_get_status method code =
    is_get method && (nat_beq code 502 || nat_beq code 503 || nat_beq code 504)

abbrev pub is_success : ℕ → Bool
is_success code = leb 200 code && ltb code 300

-- OmniRouteRequestError
unfoldable pub request_failure : Method → String → ℕ → Exception
request_failure method path code = record {
  kind = request_error;
  message =
      "OmniRoute " <> show_method method <> " " <> path <> " failed with HTTP " <> show_nat code;
}

-- `response.json()`, or the response as a dict where its body is no JSON.
unfoldable pub body_of : Response → Json
body_of r = elim r.json [
  | some value ↦ value
  | none ↦ obj (
      field "status_code" (int (pos r.status_code))
        (field "content" (str r.text) (field "headers" (obj r.headers) end)))
]

module _ (F : Float) where
  open F use {Number, of_nat, of_text, mul, div}

  -- `_transient_backoff_seconds`: min(1.0, 0.1 * 2 ** attempt)
  unfoldable pub transient_backoff_seconds : ℕ → Number
  transient_backoff_seconds attempt =
      fmin F (of_nat 1) (mul (div (of_nat 1) (of_nat 10)) (of_nat (2 ^ attempt)))

  -- `_retry_after_seconds`
  unfoldable pub retry_after_seconds : Option String → Number
  retry_after_seconds none = of_nat 0
  retry_after_seconds (some value) =
      if is_truthy (some value)
      then (elim (of_text value) [ some seconds ↦ fmax F (of_nat 0) seconds | none ↦ of_nat 0 ])
      else of_nat 0

  -- What the loop of `_request` does with a reply when another attempt is left: `some` is the
  -- time to sleep before it.
  unfoldable pub retry_delay : Method → (attempt : ℕ) → Reply → Option Number
  unfolding is_transient_get_status transient_backoff_seconds retry_after_seconds
  retry_delay method attempt failed =
      if is_get method then some (transient_backoff_seconds attempt) else none
  retry_delay method attempt (answered r) =
      if nat_beq r.status_code 429 && is_get method
      then some (retry_after_seconds r.retry_after)
      else if is_transient_get_status method r.status_code
      then some (transient_backoff_seconds attempt)
      else none

-- What it does with the reply that ends it.
unfoldable pub conclude : Method → String → Reply → Outcome Json
unfolding body_of request_failure
conclude method path failed = raise (request_failure method path 0)
conclude method path (answered r) =
    if is_success r.status_code
    then return (body_of r)
    else raise (request_failure method path r.status_code)

module _ {F : Float} {W : Type 0} (outside : Outside F W) (client : OmniRouteClient) where
  open outside use {transport, sleep, uuid}

  module _ (method : Method) (path : String) (payload : Option Json) (headers : Dict String String)
      (idempotency_key : Option String) where
    -- The request of an attempt: each has a request id of its own.
    abbrev pub request_at : W → Request
    request_at w = record {
      method = method;
      path = path;
      headers = request_headers client headers idempotency_key (uuid w);
      payload = payload;
    }

    -- The loop of `_request`; the first argument counts the attempts that are left.
    unfoldable pub request_loop : ℕ → (attempt : ℕ) → Action W Json
    unfolding retry_delay conclude
    request_loop zero attempt w = (raise (request_failure method path 0), w)
    request_loop (suc zero) attempt w =
        let (reply, w') = transport (request_at w) w in (conclude method path reply, w')
    request_loop (suc (suc left)) attempt w =
        let (reply, w') = transport (request_at w) w in
        elim (retry_delay F method attempt reply) [
          | some delay ↦ request_loop (suc left) (attempt + 1) (sleep delay w')
          | none ↦ (conclude method path reply, w')
        ]

    -- `_request`
    unfoldable pub request : Action W Json
    unfolding request_loop
    request = request_loop (if is_get method then client.max_get_retries + 1 else 1) 0

  unfoldable pub get : String → Action W Json
  unfolding request
  get path = request get_method path none [] none

  unfoldable pub post : String → Json → Dict String String → Option String → Action W Json
  unfolding request
  post path payload headers idempotency_key =
      request post_method path (some payload) headers idempotency_key

  unfoldable pub put : String → Json → Dict String String → Option String → Action W Json
  unfolding request
  put path payload headers idempotency_key =
      request put_method path (some payload) headers idempotency_key
