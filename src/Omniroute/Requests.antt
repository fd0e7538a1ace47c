-- ===== src/Omniroute/Requests.antt =====
-- What one call of the client sends, whatever the network does.
use free_model_orchestrator.Base.{
  ℕ, zero, suc, ◌+◌, ◌≤◌, ◌≡◌, refl, inl, inr, String, Bool, true, false, Option, some,
  if◌then◌else◌, arith, Option-cases,
}
use free_model_orchestrator.Base.Dict.{Dict}
use native.Mathlib.Numerals.{add-one}
use free_model_orchestrator.Base.Float.{Float}
use free_model_orchestrator.Effects.{Outcome}
use free_model_orchestrator.Json.{Json}
use free_model_orchestrator.Omniroute.{
  Method, is_get, Reply, Outside, OmniRouteClient, request_at, retry_delay, conclude, request_loop,
  request,
}

module _ {F : Float} {W : Type 0} (outside : Outside F W) (client : OmniRouteClient)
    (method : Method) (path : String) (payload : Option Json) (headers : Dict String String)
    (idempotency_key : Option String) where
  abbrev sent : W → Reply × W
  sent w =
      outside.transport (request_at outside client method path payload headers idempotency_key w) w

  -- From the world `w` the request was sent `n` times: each reply but the last was one to retry,
  -- and its delay was slept; `reply` is the last, and `w'` the world after it.
  pub data Sent : ℕ → ℕ → Reply → W → W → Type 0 where
    last : (attempt : ℕ) (w : W) → Sent attempt 1 (sent w).0 w (sent w).1
    again :
        {n : ℕ} {reply : Reply} {w' : W} (attempt : ℕ) (w : W) (delay : F.Number)
        → retry_delay F method attempt (sent w).0 ≡ some delay
        → Sent (attempt + 1) n reply (outside.sleep delay (sent w).1) w'
        → Sent attempt (suc n) reply w w'

  -- A call ends after at most `attempts` sends with the verdict on its last reply.
  abbrev Ended : ℕ → ℕ → W → Outcome Json × W → Type 0
  Ended attempts attempt w result =
      (n : ℕ) × (reply : Reply) × Sent attempt n reply w result.1
      × (1 ≤ n)
      × (n ≤ attempts)
      × (result.0 ≡ conclude method path reply)

  request_loop-Ended :
      (left attempt : ℕ) (w : W)
      → Ended (suc left) attempt w (
          request_loop outside client method path payload headers idempotency_key
            (suc left)
            attempt
            w)
  unfolding request_loop
  request_loop-Ended zero attempt w = (1, _, last attempt w, omega arith, omega arith, refl)
  request_loop-Ended (suc left) attempt w =
      elim (Option-cases (retry_delay F method attempt (sent w).0)) [
        | inl e ↦ rw (e, request_loop) (1, _, last attempt w, omega arith, omega arith, refl)
        | inr (delay, e) ↦
            let (n, reply, rest, low, high, verdict) =
              request_loop-Ended left (attempt + 1) (outside.sleep delay (sent w).1) in
            rw (e, request_loop)
              (suc n, reply, again attempt w delay e rest, omega arith, omega arith, verdict)
      ]

  -- Every call sends its request at least once and ends. A GET is sent at most once more for each
  -- retry allowed, any other method exactly once; each reply but the last asked for a retry, and
  -- the outcome is the verdict on the last one.
  pub request-Sent :
      (w : W)
      → let result = request outside client method path payload headers idempotency_key w in
        (n : ℕ) × (reply : Reply) × Sent 0 n reply w result.1
        × (1 ≤ n)
        × (n ≤ (if is_get method then client.max_get_retries + 1 else 1))
        × (result.0 ≡ conclude method path reply)
  unfolding request
  request-Sent w = go (is_get method)
    where
      go :
          (b : Bool)
          → Ended (if b then client.max_get_retries + 1 else 1) 0 w (
              request_loop outside client method path payload headers idempotency_key
                (if b then client.max_get_retries + 1 else 1)
                0
                w)
      go true = rw add-one (request_loop-Ended client.max_get_retries 0 w)
      go false = request_loop-Ended 0 0 w
