-- ===== src/Composition/Selection.antt =====
-- The stages that a command selects.
use free_model_orchestrator.Base.{
  ◌≡◌, refl, ◌≢◌, ◌⊎◌, inl, inr, String, some, List, [], ◌∷◌, ◌==◌, string_eq, arith, Bool-cases,
  Option-cases, subst,
}
use free_model_orchestrator.Base.Dict.{lookup}
use free_model_orchestrator.Effects.{Outcome, return, raise}
use free_model_orchestrator.Pipeline.{Stage}
use free_model_orchestrator.Composition.Commands.{
  command_stage_names, run_type_of, stage_named, stages_for_command,
}

module _ {E : Type 0} where
  abbrev pub IsAmong : Stage E → List (Stage E) → Type 0
  IsAmong stage [] = ⊥
  IsAmong stage (s ∷ stages) = (stage ≡ s) ⊎ IsAmong stage stages

  abbrev named : String → List (Stage E) → Outcome (Stage E)
  named name stages = stage_named name (λ (s : Stage E). s.name) stages

  stage_named-IsAmong :
      (name : String) (stages : List (Stage E)) (found : Stage E)
      → named name stages ≡ return found
      → (found.name ≡ name) × IsAmong found stages
  unfolding stage_named
  stage_named-IsAmong name [] found h = absurd (ground (arith, h))
  stage_named-IsAmong name (stage ∷ stages) found h =
      go (named name stages) refl (λ f k. stage_named-IsAmong name stages f k)
    where
      go :
          (o : Outcome (Stage E))
          → named name stages ≡ o
          → ((f : Stage E) → named name stages ≡ return f → (f.name ≡ name) × IsAmong f stages)
          → (found.name ≡ name) × IsAmong found (stage ∷ stages)
      go (return f) e ih =
          let same : f ≡ found = ground (arith, e, h) in
          let (named_so, among) = ih f e in
          subst (λ x. (x.name ≡ name) × IsAmong x (stage ∷ stages)) same (named_so, inr among)
      go (raise x) e ih = elim (Bool-cases (stage.name == name)) [
        | inl b ↦
            let same : stage ≡ found = ground (arith, e, b, h) in
            subst (λ x. (x.name ≡ name) × IsAmong x (stage ∷ stages)) same
              (ground (arith, b), inl refl)
        | inr b ↦ absurd (ground (arith, e, b, h))
      ]

  -- A command other than "full" that selects stages selects one, a stage of the list whose name is
  -- the run type of the command.
  pub stages_for_command-IsAmong :
      (command : String) (stages selected : List (Stage E))
      → command ≢ "full"
      → stages_for_command command stages ≡ return selected
      → (stage : Stage E) × (selected ≡ stage ∷ [])
        × IsAmong stage stages
        × (run_type_of command ≡ return stage.name)
  unfolding stages_for_command run_type_of
  stages_for_command-IsAmong command stages selected ne h =
      elim (Option-cases (lookup command command_stage_names)) [
        | inl e ↦ absurd (ground (arith, ne, e, h))
        | inr (name, e) ↦ go name e (named name stages) refl
      ]
    where
      go :
          (name : String)
          → lookup command command_stage_names ≡ some name
          → (o : Outcome (Stage E)) → named name stages ≡ o
          → (stage : Stage E) × (selected ≡ stage ∷ [])
            × IsAmong stage stages
            × (run_type_of command ≡ return stage.name)
      go name e (raise x) k = absurd (ground (arith, ne, e, k, h))
      go name e (return stage) k =
          let (named_so, among) = stage_named-IsAmong name stages stage k in
          (stage, ground (arith, ne, e, k, h), among, ground (arith, ne, e, named_so))
