-- ===== src/Persistence/Runs.antt =====
-- The history of stages that persistence/run.py keeps: what `last_successful_stage` finds after the
-- other statements.
use free_model_orchestrator.Base.{
  ℕ, ◌≡◌, inl, inr, String, Bool, true, false, Option, some, none, List, [], ◌∷◌, ◌++◌, Bool-cases,
  if◌then◌else◌, arith, string_eq, nat_eq, option_eq, All,
}
use free_model_orchestrator.Effects.{return}
use free_model_orchestrator.Persistence.{
  StageRecord, RunRow, SyncRuns, create, created_row, finish, finish_row, update_rows, has_row,
  find_stage, find_in_row, find_in_rows, last_successful_stage,
}

-- `is not None`
abbrev pub is_some {ℓ} : {A : Type ℓ} → Option A → Bool
is_some none = false
is_some (some _) = true

-- `_has_prior_success` of pipeline.py
abbrev pub has_prior_success : String → String → SyncRuns → Bool
has_prior_success stage_name key t = is_some (last_successful_stage stage_name key t)

abbrev in_rows : String → String → List RunRow → Bool
in_rows n k rows = is_some (find_in_rows n k rows)

abbrev in_row : String → String → RunRow → Bool
in_row n k row = is_some (find_in_row n k row)

in_rows-append :
    (n k : String) (xs ys : List RunRow)
    → in_rows n k (xs ++ ys) ≡ (if in_rows n k xs then true else in_rows n k ys)
unfolding find_in_rows
in_rows-append n k [] ys = ground arith
in_rows-append n k (row ∷ xs) ys = ground (arith, in_rows-append n k xs ys)

-- `create` adds a row with no stages.
pub has_prior_success-create :
    (n k run_type trigger status code_version config_hash : String) (t : SyncRuns)
    → has_prior_success n k (create run_type trigger status code_version config_hash t).1
      ≡ has_prior_success n k t
unfolding create last_successful_stage
has_prior_success-create n k run_type trigger status code_version config_hash t = ground (
  arith,
  in_rows-append n k t.rows
      (created_row run_type trigger status code_version config_hash t.next ∷ []),
)

-- An update of one row keeps what the other rows hold.
in_rows-update_rows :
    (n k : String) (f : RunRow → RunRow) (rows : List RunRow)
    → ((row : RunRow) → in_row n k row ≡ true → in_row n k (f row) ≡ true)
    → in_rows n k rows ≡ true
    → in_rows n k (update_rows f rows) ≡ true
unfolding find_in_rows update_rows
in_rows-update_rows n k f [] keep h = cc
in_rows-update_rows n k f (row ∷ rows) keep h = elim (Bool-cases (in_row n k row)) [
  | inl e ↦ ground (arith, keep row e)
  | inr e ↦ ground (arith, in_rows-update_rows n k f rows keep)
]

-- The rows that carry `id` hold no stages yet.
abbrev pub HasNoStages : ℕ → List RunRow → Type 0
HasNoStages id rows = All (λ row. row.id ≡ id → row.stages ≡ none) rows

finish_row-keeps :
    (n k : String) (id : ℕ) (status : String) (stages : List StageRecord) (rows : List RunRow)
    → HasNoStages id rows
    → in_rows n k rows ≡ true
    → in_rows n k (update_rows (finish_row id status stages) rows) ≡ true
unfolding find_in_rows update_rows
finish_row-keeps n k id status stages [] none_yet h = cc
finish_row-keeps n k id status stages (row ∷ rows) (row_none, none_yet) h =
    ground (arith, row_none, finish_row-keeps n k id status stages rows none_yet)

finish_row-finds :
    (n k : String) (id : ℕ) (status : String) (stages : List StageRecord) (rows : List RunRow)
    → has_row id rows ≡ true
    → is_some (find_stage n k stages) ≡ true
    → in_rows n k (update_rows (finish_row id status stages) rows) ≡ true
unfolding find_in_rows update_rows has_row
finish_row-finds n k id status stages [] h found = cc
finish_row-finds n k id status stages (row ∷ rows) h found =
    ground (arith, finish_row-finds n k id status stages rows)

module _ (n k : String) (id : ℕ) (status : String) (stages : List StageRecord) (t t' : SyncRuns)
    (done : finish id status stages t ≡ return t') where
  -- The stages that a finished run recorded are found by a later look-up.
  pub has_prior_success-finish :
      is_some (find_stage n k stages) ≡ true → has_prior_success n k t' ≡ true
  unfolding finish last_successful_stage
  has_prior_success-finish found =
      ground (arith, found, finish_row-finds n k id status stages t.rows)

  -- What was found before is found after, if the run had recorded nothing yet.
  pub has_prior_success-finish_old :
      HasNoStages id t.rows → has_prior_success n k t ≡ true → has_prior_success n k t' ≡ true
  unfolding finish last_successful_stage
  has_prior_success-finish_old none_yet h = elim (Bool-cases (has_row id t.rows)) [
    | inl e ↦ ground (arith, h, finish_row-keeps n k id status stages t.rows none_yet h)
    | inr e ↦ ground arith
  ]
