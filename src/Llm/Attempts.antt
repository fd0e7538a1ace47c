-- ===== src/Llm/Attempts.antt =====
-- How often a completion asks the transport.
use free_model_orchestrator.Base.{
  ℕ, suc, zero, max, ◌<◌, ◌≤◌, ◌≡◌, refl, String, Option, ◌⊎◌, inl, inr, arith, ◌∙◌, ap,
}
use free_model_orchestrator.Effects.{Outcome, return, raise, Exception, Action}
use free_model_orchestrator.Llm.{
  LlmSiteConfig, LlmProviderConfig, LlmRequest, llm_error, attempt, attempts_left, complete,
}

module _ {W R A : Type 0} (provider : LlmProviderConfig)
    (model_resolver : Option (Action W (Option String))) (transport : LlmRequest → Action W R)
    (validate : R → Outcome A) (site : LlmSiteConfig) (prompt : String) where
  abbrev once : Action W A
  once = attempt provider model_resolver transport validate site prompt

  abbrev loop : ℕ → String → Action W A
  loop = attempts_left provider model_resolver transport validate site prompt

  -- The state behind some attempts
  unfoldable pub behind : ℕ → W → W
  behind zero w = w
  behind (suc n) w = behind n (once w).1

  -- Each of the first attempts raises.
  abbrev pub AllRaise : ℕ → W → Type 0
  AllRaise zero w = Unit
  AllRaise (suc n) w = ((e : Exception) × ((once w).0 ≡ raise e)) × AllRaise n (once w).1

  -- The attempt behind `failed` ones that raised returns, or it is the last one and raises.
  abbrev pub Attempted : ℕ → W → Outcome A × W → Type 0
  Attempted attempts w ran =
      (failed : ℕ) × (failed < attempts)
      × AllRaise failed w
      × (((a : A) × (once (behind failed w) ≡ (return a, behind (suc failed) w))
            × (ran ≡ (return a, behind (suc failed) w)))
          ⊎ ((e : Exception) × (suc failed ≡ attempts)
              × (once (behind failed w) ≡ (raise e, behind (suc failed) w))
              × (ran ≡ (llm_error e.message, behind (suc failed) w))))

  left_return :
      (n : ℕ) (message : String) (w : W) (a : A)
      → (once w).0 ≡ return a
      → loop (suc n) message w ≡ (return a, (once w).1)
  unfolding attempts_left
  left_return n message w a e = rw (attempts_left, e) refl

  left_raise :
      (n : ℕ) (message : String) (w : W) (e : Exception)
      → (once w).0 ≡ raise e
      → loop (suc n) message w ≡ loop n e.message (once w).1
  unfolding attempts_left
  left_raise n message w e h = rw (attempts_left, h) refl

  left_none : (message : String) (w : W) → loop zero message w ≡ (llm_error message, w)
  unfolding attempts_left
  left_none message w = refl

  attempts_left-Attempted :
      (n : ℕ) (message : String) (w : W) → Attempted (suc n) w (loop (suc n) message w)
  unfolding behind
  attempts_left-Attempted zero message w = go (once w).0 refl
    where
      go : (o : Outcome A) → (once w).0 ≡ o → Attempted 1 w (loop 1 message w)
      go (return a) e =
          (0, omega arith, tt, inl (a, ap (λ o. (o, (once w).1)) e, left_return 0 message w a e))
      go (raise x) e = (
        0,
        omega arith,
        tt,
        inr (
          x,
          refl,
          ap (λ o. (o, (once w).1)) e,
          left_raise 0 message w x e ∙ left_none x.message (once w).1,
        ),
      )
  attempts_left-Attempted (suc n) message w =
      go (once w).0 refl (λ m. attempts_left-Attempted n m (once w).1)
    where
      go :
          (o : Outcome A)
          → (once w).0 ≡ o
          → ((m : String) → Attempted (suc n) (once w).1 (loop (suc n) m (once w).1))
          → Attempted (suc (suc n)) w (loop (suc (suc n)) message w)
      go (return a) e rest = (
        0,
        omega arith,
        tt,
        inl (a, ap (λ o. (o, (once w).1)) e, left_return (suc n) message w a e),
      )
      go (raise x) e rest =
          let (failed, fewer, raised, ended) = rest x.message in
          (
            suc failed,
            omega (arith, fewer),
            ((x, e), raised),
            elim ended [
              | inl (a, last, ran) ↦ inl (a, last, left_raise (suc n) message w x e ∙ ran)
              | inr (y, full, last, ran) ↦
                  inr (y, ap suc full, last, left_raise (suc n) message w x e ∙ ran)
            ],
          )

  -- A completion makes at least one attempt and at most `max(retries, 1)`: it ends with the first
  -- that returns, and where all raise with LlmRuntimeError and the message of the last.
  pub complete-Attempted :
      (w : W)
      → Attempted
          (max site.retries 1)
          w
          (complete provider model_resolver transport validate site prompt w)
  unfolding complete
  complete-Attempted w = positive (max site.retries 1) (ground arith)
    where
      positive : (n : ℕ) → 1 ≤ n → Attempted n w (loop n "None" w)
      positive zero h = absurd (omega (arith, h))
      positive (suc n) h = attempts_left-Attempted n "None" w
