-- ===== src/Audit/Rollback.antt =====
-- What a rollback restores.
use free_model_orchestrator.Base.{
  ◌≡◌, refl, String, Option, some, none, List, [], ◌∷◌, ◌++◌, ◌==◌, string_eq, if◌then◌else◌, arith,
  ◌&&◌, ◌∙◌, All, ap, Bool-cases, inl, inr, ◌⊎◌, true, false,
}
use free_model_orchestrator.Base.Dict.{Dict, lookup, lookup-insert}
use free_model_orchestrator.Json.{Json}
use free_model_orchestrator.Audit.{Change, audit_change, is_combo_of, rollback_from, rollback_run}

module _ (run_id id : String) where
  -- The `before_json` of the last change of the combo `id` in the run, after a first guess.
  abbrev last_before : Option Json → List Change → Option Json
  last_before found [] = found
  last_before found (entry ∷ log) =
      last_before
        (if is_combo_of run_id entry && id == entry.entity_id
          then some entry.before_json
          else found)
        log

  lookup-rollback_from :
      (log : List Change) (restored : Dict String Json)
      → lookup id (rollback_from run_id restored log) ≡ last_before (lookup id restored) log
  unfolding rollback_from
  lookup-rollback_from [] restored = refl
  lookup-rollback_from (entry ∷ log) restored =
      lookup-rollback_from log _
      ∙ ground (arith, lookup-insert id entry.entity_id entry.before_json restored)

  -- A change of this combo in this run
  pub record IsChange (entry : Change) : Type 0 where
    pub in_run : entry.run_id ≡ run_id
    pub of_combo : entry.entity_type ≡ "combo"
    pub of_id : entry.entity_id ≡ id

  -- What stands for the combo: the state before its last change in the run, or what stood before.
  pub data Restored (log : List Change) (old : Option Json) : Option Json → Type 0 where
    last_change :
        (older newer : List Change) (entry : Change)
        → log ≡ older ++ entry ∷ newer
        → IsChange entry
        → All (λ later. ¬ IsChange later) newer
        → Restored log old (some entry.before_json)
    unchanged : All (λ entry. ¬ IsChange entry) log → Restored log old old

  change_or_not :
      (entry : Change)
      → (IsChange entry × ((is_combo_of run_id entry && id == entry.entity_id) ≡ true))
        ⊎ ((¬ IsChange entry) × ((is_combo_of run_id entry && id == entry.entity_id) ≡ false))
  change_or_not entry = elim (Bool-cases (is_combo_of run_id entry && id == entry.entity_id)) [
    | inl e ↦ inl (
      record {
        in_run = ground (arith, e);
        of_combo = ground (arith, e);
        of_id = ground (arith, e);
      },
      e,
    )
    | inr e ↦ inr (λ c. ground (arith, e, c.in_run, c.of_combo, c.of_id), e)
  ]

  last_before-Restored :
      (log : List Change) (old : Option Json) → Restored log old (last_before old log)
  last_before-Restored [] old = unchanged tt
  last_before-Restored (entry ∷ log) old =
      go (change_or_not entry) (λ next. last_before-Restored log next)
    where
      step :
          (next : Option Json)
          → (All (λ later. ¬ IsChange later) log → Restored (entry ∷ log) old next)
          → (found : Option Json) → Restored log next found
          → Restored (entry ∷ log) old found
      step next none_later _ (last_change older newer e same is later) =
          last_change (entry ∷ older) newer e (ap (λ l. entry ∷ l) same) is later
      step next none_later _ (unchanged untouched) = none_later untouched

      go :
          (IsChange entry × ((is_combo_of run_id entry && id == entry.entity_id) ≡ true))
            ⊎ ((¬ IsChange entry) × ((is_combo_of run_id entry && id == entry.entity_id) ≡ false))
          → ((next : Option Json) → Restored log next (last_before next log))
          → Restored (entry ∷ log) old (last_before old (entry ∷ log))
      go (inl (is, e)) rest = rw e (
          step (some entry.before_json) (λ later. last_change [] log entry refl is later) _
            (rest (some entry.before_json)))
      go (inr (is, e)) rest = rw e (step old (λ later. unchanged (is, later)) _ (rest old))

  lookup-rollback_run :
      (log : List Change) (catalog_snapshots : Json)
      → lookup id (rollback_run log run_id catalog_snapshots)
        ≡ last_before (if id == "catalog_snapshots" then some catalog_snapshots else none) log
  unfolding rollback_run lookup
  lookup-rollback_run log catalog_snapshots =
      lookup-rollback_from log (("catalog_snapshots", catalog_snapshots) ∷ [])

  -- A rollback gives each combo the state before its last change in the run: there is an entry of
  -- the run for the combo with none after it, and its before_json is restored. Where the run has no
  -- entry for the combo, nothing stands under it, but for the key "catalog_snapshots", which holds
  -- the snapshots.
  pub rollback_run-Restored :
      (log : List Change) (catalog_snapshots : Json)
      → Restored log
          (if id == "catalog_snapshots" then some catalog_snapshots else none)
          (lookup id (rollback_run log run_id catalog_snapshots))
  rollback_run-Restored log catalog_snapshots =
      rw (lookup-rollback_run log catalog_snapshots) (last_before-Restored log _)

last_before-append :
    (run_id id : String) (xs ys : List Change) (found : Option Json)
    → last_before run_id id found (xs ++ ys)
      ≡ last_before run_id id (last_before run_id id found xs) ys
last_before-append run_id id [] ys found = refl
last_before-append run_id id (entry ∷ xs) ys found = last_before-append run_id id xs ys _

-- Where a run changes one combo twice, the rollback restores what the first change wrote, and not
-- what stood before the run.
pub rollback_run-audit_change_twice :
    (run_id id : String) (log : List Change) (first second third : Json)
    (reasons sources : List String) (catalog_snapshots : Json)
    → lookup id (
        rollback_run
          (audit_change run_id "combo" id second third reasons sources
            (audit_change run_id "combo" id first second reasons sources log))
          run_id
          catalog_snapshots)
      ≡ some second
unfolding audit_change
rollback_run-audit_change_twice run_id id log first second third reasons sources catalog_snapshots =
    lookup-rollback_run run_id id _ catalog_snapshots ∙ rw last_before-append (ground arith)
