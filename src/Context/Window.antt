-- ===== src/Context/Window.antt =====
-- The effective window is the least known one, and decides for every known window.
use free_model_orchestrator.Base.{
  ℕ, suc, ◌≤◌, ◌<◌, ◌≡◌, refl, ◌⊎◌, inl, inr, ◌↔◌, Bool, true, false, Option, none, some, List, [],
  ◌∷◌, arith, leb, All, if◌then◌else◌,
}
use free_model_orchestrator.Context.{
  known_values, min_from, effective_context_window, context_eligible,
}

-- Each known window is at least `n`.
abbrev pub AllAtLeast : ℕ → List (Option ℕ) → Type 0
AllAtLeast n [] = Unit
AllAtLeast n (none ∷ values) = AllAtLeast n values
AllAtLeast n (some v ∷ values) = (n ≤ v) × AllAtLeast n values

abbrev AllLe : ℕ → List ℕ → Type 0
AllLe n values = All (λ v. n ≤ v) values

min_from-le_iff : (n m : ℕ) (values : List ℕ) → (n ≤ min_from m values) ↔ ((n ≤ m) × AllLe n values)
unfolding min_from
min_from-le_iff n m [] = (λ h. (h, tt), λ h. h.0)
min_from-le_iff n m (v ∷ values) =
    let ih = min_from-le_iff n (free_model_orchestrator.Base.min m v) values in
    (λ h. let (a, b) = ih.0 h in (omega arith, (omega arith, b)), λ h. ih.1 (omega arith, h.1.1))

known_values-AllLe :
    (n : ℕ) (values : List (Option ℕ)) → AllLe n (known_values values) ↔ AllAtLeast n values
unfolding known_values
known_values-AllLe n [] = (λ h. h, λ h. h)
known_values-AllLe n (none ∷ values) = known_values-AllLe n values
known_values-AllLe n (some v ∷ values) =
    let ih = known_values-AllLe n values in (λ h. (h.0, ih.0 h.1), λ h. (h.0, ih.1 h.1))

-- With a positive minimum and some window known, a model is eligible exactly when every known
-- window reaches the minimum; the manual override does not count then.
pub context_eligible_iff :
    (values : List (Option ℕ)) (minimum_context window : ℕ) (manual_override : Bool)
    → 0 < minimum_context
    → effective_context_window values ≡ some window
    → ((context_eligible (effective_context_window values) minimum_context manual_override).eligible
        ≡ true)
      ↔ AllAtLeast minimum_context values
unfolding context_eligible effective_context_window
context_eligible_iff values minimum_context window manual_override positive known =
    go (known_values values) refl
  where
    go :
        (l : List ℕ)
        → known_values values ≡ l
        → ((context_eligible
              (effective_context_window values)
              minimum_context
              manual_override).eligible
            ≡ true)
          ↔ AllAtLeast minimum_context values
    go [] e = absurd (ground (arith, e))
    go (v ∷ vs) e =
        let a = min_from-le_iff minimum_context v vs in
        let b = known_values-AllLe minimum_context values in
        (
          λ h. b.0 (rw e (a.0 (ground (arith, e, h)))),
          λ h. let reach = a.1 (rw e at (b.1 h)) in ground (arith, e, reach),
        )
