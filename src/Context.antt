-- ===== src/Context.antt =====
-- context.py: the effective context window and the test on it.
mod Window
mod Samples
use free_model_orchestrator.Base.{
  ℕ, min, Bool, true, false, Option, none, some, List, [], ◌∷◌, leb, nat_beq, if◌then◌else◌,
}

pub record ContextDecision : Type 0 where
  pub eligible : Bool
  pub bonus : ℕ

-- The values that are not None.
unfoldable pub known_values : List (Option ℕ) → List ℕ
known_values [] = []
known_values (none ∷ values) = known_values values
known_values (some value ∷ values) = value ∷ known_values values

-- `min(...)` of a first value and the others
unfoldable pub min_from : ℕ → List ℕ → ℕ
min_from m [] = m
min_from m (value ∷ values) = min_from (min m value) values

unfoldable pub effective_context_window : List (Option ℕ) → Option ℕ
unfolding known_values min_from
effective_context_window values = elim (known_values values) [
  | [] ↦ none
  | value ∷ rest ↦ some (min_from value rest)
]

abbrev eligible : Bool → ContextDecision
eligible e = record { eligible = e; bonus = 0 }

-- A minimum of 0 stands for every minimum that is not positive.
unfoldable pub context_eligible :
    Option ℕ → (minimum_context : ℕ) → (manual_override : Bool) → ContextDecision
context_eligible effective minimum_context manual_override =
    if nat_beq minimum_context 0 then eligible true else (elim effective [
      | none ↦ eligible manual_override
      | some window ↦ eligible (leb minimum_context window)
    ])
