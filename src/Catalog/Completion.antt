-- ===== src/Catalog/Completion.antt =====
-- A run of the inventory from its start to its completion.
use free_model_orchestrator.Base.{
  ℕ, ◌<◌, ◌≡◌, refl, String, true, some, List, [], ◌∷◌, ◌++◌, ◌&&◌, ◌==◌, contains, string_eq,
  nat_eq, arith, inl, inr, Bool-cases, map, All, ◌∙◌,
}
use free_model_orchestrator.Effects.{return}
use free_model_orchestrator.Catalog.{
  InventoryRun, InventoryRuns, inventory_modes, inventory_triggers, start_inventory_run,
  complete_row, complete_inventory_run,
}

-- The next id was not given yet.
abbrev pub IsFresh : InventoryRuns → Type 0
IsFresh t = All (λ row. row.id < t.next) t.rows

complete_row-others :
    (run_id roles_found consumers_found now : ℕ) (rows : List InventoryRun) (last : InventoryRun)
    → last.id ≡ run_id
    → All (λ row. row.id < run_id) rows
    → map (complete_row run_id roles_found consumers_found now) (rows ++ last ∷ [])
      ≡ rows ++ complete_row run_id roles_found consumers_found now last ∷ []
complete_row-others run_id roles_found consumers_found now [] last e others = refl
complete_row-others run_id roles_found consumers_found now (row ∷ rows) last e (old, others) =
    let kept : complete_row run_id roles_found consumers_found now row ≡ row =
      ground (arith, old) in
    rw (kept, complete_row-others run_id roles_found consumers_found now rows last e others) refl

own_id : (n : ℕ) → (n == n) ≡ true
own_id n = ground arith

module _ (source_mode trigger_type source_hash : String) (t : InventoryRuns)
    (fresh : IsFresh t) where
  -- A run that was started and completed stands behind the others, which are as they were, with its
  -- counts and its time.
  pub complete_inventory_run-start_inventory_run :
      (run : InventoryRun) (started : InventoryRuns) (roles_found consumers_found now : ℕ)
      → start_inventory_run source_mode trigger_type source_hash t ≡ return (run, started)
      → (complete_inventory_run run.id roles_found consumers_found now started).rows
        ≡ t.rows
          ++ (record run {
            status = "completed";
            roles_found = roles_found;
            routines_found = consumers_found;
            completed_at = some now;
          })
            ∷ []
  unfolding start_inventory_run complete_inventory_run
  complete_inventory_run-start_inventory_run run started roles_found consumers_found now h =
      elim (Bool-cases
        (contains inventory_modes source_mode && contains inventory_triggers trigger_type)) [
          | inl e ↦
              let rows : started.rows ≡ t.rows ++ run ∷ [] = ground (arith, e, h) in
              let id : run.id ≡ t.next = ground (arith, e, h) in
              rw rows (
                complete_row-others run.id roles_found consumers_found now t.rows run refl
                  (rw id fresh)
                ∙ rw (own_id run.id) refl)
          | inr e ↦ absurd (ground (arith, e, h))
        ]
