-- ===== src/Persistence/Mutex.antt =====
-- The locks of persistence/lock.py as a mutex: each name has at most one holder, and the statements on
-- sync_runs take and free it as a mutex does.
use free_model_orchestrator.Base.{
  ℕ, ◌≡◌, String, Option, none, some, List, [], ◌∷◌, ◌==◌, if◌then◌else◌, string_eq, nat_eq,
  option_eq,
}
use free_model_orchestrator.Persistence.{RunRow, SyncRuns, holds}

-- Who holds each lock
abbrev pub Holders : Type 0
Holders = String → Option ℕ

-- The token no longer holds anything.
abbrev pub drop : ℕ → Option ℕ → Option ℕ
drop token none = none
drop token (some holder) = if holder == token then none else some holder

-- One step of a mutex for each name
pub data LockStep (before after : Holders) : Type 0 where
  takes :
      (name : String) (token : ℕ)
      → before name ≡ none
      → ((other : String) → after other ≡ (if other == name then some token else before other))
      → LockStep before after
  frees :
      (token : ℕ)
      → ((other : String) → after other ≡ drop token (before other))
      → LockStep before after
  passes : ((other : String) → after other ≡ before other) → LockStep before after

pub data LockSteps : Holders → Type 0 where
  unheld : LockSteps (λ _. none)
  step : {before after : Holders} → LockSteps before → LockStep before after → LockSteps after

-- The row that holds the name
unfoldable pub holder : String → List RunRow → Option ℕ
holder name [] = none
holder name (row ∷ rows) = if holds name row then some row.id else holder name rows

abbrev pub holders_of : SyncRuns → Holders
holders_of t name = holder name t.rows

abbrev first_some : Option ℕ → Option ℕ → Option ℕ
first_some none b = b
first_some (some a) b = some a
