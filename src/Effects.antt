-- ===== src/Effects.antt =====
-- Python statements that change a state and may raise. What was written before a raise stays
-- written, so the state stands beside the exception too.
use free_model_orchestrator.Base.{◌≡◌, refl, String, Bool, if◌then◌else◌}

-- The classes of exceptions that some `except` clause of the program tells apart.
pub data ExceptionKind : Type 0 where
  value_error key_error lookup_error index_error type_error attribute_error : ExceptionKind
  llm_runtime_error request_error inventory_error transport_error integrity_error : ExceptionKind

pub record Exception : Type 0 where
  pub kind : ExceptionKind
  pub message : String

pub data Outcome {ℓ} (A : Type ℓ) : Type ℓ where
  return : A → Outcome A
  raise : Exception → Outcome A

abbrev pub raise_value_error {ℓ} : {A : Type ℓ} → String → Outcome A
raise_value_error message = raise (record { kind = value_error; message = message })

infixl 5 ◌>>=?◌
-- Chains of calls that may raise and change nothing.
abbrev pub ◌>>=?◌ {ℓ κ} : {A : Type ℓ} {B : Type κ} → Outcome A → (A → Outcome B) → Outcome B
return a >>=? f = f a
raise e >>=? f = raise e

abbrev pub Action {ℓ} : Type ℓ → Type ℓ → Type ℓ
Action S A = S → Outcome A × S

module _ {ℓ} {S A : Type ℓ} where
  abbrev pub pure : A → Action S A
  pure a s = (return a, s)

  abbrev pub throw : Exception → Action S A
  throw e s = (raise e, s)

  -- A call that reads and writes nothing.
  abbrev pub lift : Outcome A → Action S A
  lift r s = (r, s)

  abbrev pub gets : (S → A) → Action S A
  gets f s = (return (f s), s)

  -- `if test: a` / `else: b`
  abbrev pub branch : Bool → Action S A → Action S A → Action S A
  branch test a b s = if test then a s else b s

module _ {ℓ} {S A B : Type ℓ} where
  abbrev pub and_then : Outcome A → (A → Action S B) → Action S B
  and_then (return a) f s = f a s
  and_then (raise e) f s = (raise e, s)

  infixl 5 ◌>>=◌ ◌>>◌
  abbrev pub ◌>>=◌ : Action S A → (A → Action S B) → Action S B
  ◌>>=◌ m f s = let (r, s') = m s in and_then r f s'

  abbrev pub ◌>>◌ : Action S A → Action S B → Action S B
  m >> n = m >>= λ _. n

  -- Inversion of a chain that returned.
  pub and_then-eq-return :
      (r : Outcome A) (f : A → Action S B) (s : S) {b : B} {s' : S}
      → and_then r f s ≡ (return b, s')
      → (a : A) × (r ≡ return a) × (f a s ≡ (return b, s'))
  and_then-eq-return (return a) f s e = (a, refl, e)
  and_then-eq-return (raise _) f s e = cc (ap_fst e)
    where
      ap_fst : {x y : Outcome B × S} → x ≡ y → x.0 ≡ y.0
      ap_fst p = λ i. (p i).0
