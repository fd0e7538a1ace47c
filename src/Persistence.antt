-- ===== src/Persistence.antt =====
-- persistence/run.py and persistence/lock.py over the table sync_runs of reference/db/schema.sql.
-- The rows stand in the order of `ORDER BY started_at, id`: a new row goes to the end. An id is the
-- number of rows inserted before it, and `next` counts them.
pub mod Locks
pub mod Mutex
pub mod Runs
mod Samples
use free_model_orchestrator.Base.{
  ℕ, suc, ◌+◌, ◌≡◌, String, Bool, true, false, Option, none, some, List, [], ◌∷◌, ◌++◌, ◌&&◌, not,
  ◌==◌, string_eq, nat_eq, option_eq, if◌then◌else◌,
}
use free_model_orchestrator.Effects.{Outcome, return, raise, lookup_error}
use free_model_orchestrator.Json.{Fields}

-- `_stage_record`: what the pipeline stores of a stage.
pub record StageRecord : Type 0 where
  pub name : String
  pub status : String
  pub idempotency_key : Option String
  pub skipped : Bool
  pub changed : Bool
  pub reason : Option String
  pub details : Fields

-- A row of sync_runs. `finished` says that finished_at is not NULL; `stages` is the list under
-- "stages" of error_json, or `none` for NULL.
pub record RunRow : Type 0 where
  pub id : ℕ
  pub run_type : String
  pub trigger : String
  pub status : String
  pub code_version : String
  pub config_hash : String
  pub finished : Bool
  pub stages : Option (List StageRecord)

pub record SyncRuns : Type 0 where
  pub rows : List RunRow
  pub next : ℕ

abbrev pub no_runs : SyncRuns
no_runs = record { rows = []; next = 0 }

abbrev pub insert_row : RunRow → SyncRuns → SyncRuns
insert_row row t = record { rows = t.rows ++ row ∷ []; next = suc t.next }

abbrev pub created_row : (run_type trigger status code_version config_hash : String) → ℕ → RunRow
created_row run_type trigger status code_version config_hash id = record {
  id = id;
  run_type = run_type;
  trigger = trigger;
  status = status;
  code_version = code_version;
  config_hash = config_hash;
  finished = false;
  stages = none;
}

-- `RunRepository.create`, with no version and no error.
unfoldable pub create :
    (run_type trigger status code_version config_hash : String) → SyncRuns → ℕ × SyncRuns
create run_type trigger status code_version config_hash t =
    (t.next, insert_row (created_row run_type trigger status code_version config_hash t.next) t)

abbrev pub finish_row : ℕ → String → List StageRecord → RunRow → RunRow
finish_row id status stages row =
    if row.id == id
    then record row { status = status; finished = true; stages = some stages }
    else row

unfoldable pub update_rows : (RunRow → RunRow) → List RunRow → List RunRow
update_rows f [] = []
update_rows f (row ∷ rows) = f row ∷ update_rows f rows

unfoldable pub has_row : ℕ → List RunRow → Bool
has_row id [] = false
has_row id (row ∷ rows) = if row.id == id then true else has_row id rows

-- `RunRepository.finish`; `_one` raises where the UPDATE meets no row.
unfoldable pub finish : ℕ → String → List StageRecord → SyncRuns → Outcome SyncRuns
unfolding update_rows has_row
finish id status stages t =
    if has_row id t.rows
    then return (record t { rows = update_rows (finish_row id status stages) t.rows })
    else raise (record { kind = lookup_error; message = "expected one row" })

abbrev pub is_success_of : String → String → StageRecord → Bool
is_success_of stage_name key stage =
    stage.name == stage_name
    && stage.idempotency_key == some key
    && stage.status == "success"
    && not stage.skipped

-- The inner loop of `last_successful_stage`.
unfoldable pub find_stage : String → String → List StageRecord → Option StageRecord
find_stage stage_name key [] = none
find_stage stage_name key (stage ∷ stages) =
    if is_success_of stage_name key stage then some stage else find_stage stage_name key stages

abbrev pub find_in_row : String → String → RunRow → Option StageRecord
find_in_row stage_name key row = elim row.stages [
  | none ↦ none
  | some stages ↦ find_stage stage_name key stages
]

-- The outer loop, over `reversed(self.list(connection))`: a later row comes first.
unfoldable pub find_in_rows : String → String → List RunRow → Option StageRecord
unfolding find_stage
find_in_rows stage_name key [] = none
find_in_rows stage_name key (row ∷ rows) = elim (find_in_rows stage_name key rows) [
  | some stage ↦ some stage
  | none ↦ find_in_row stage_name key row
]

-- `RunRepository.last_successful_stage`
unfoldable pub last_successful_stage : String → String → SyncRuns → Option StageRecord
unfolding find_in_rows
last_successful_stage stage_name key t = find_in_rows stage_name key t.rows

-- The condition of the unique index sync_runs_active_lock_name_idx, and of both lock statements.
abbrev pub is_held : RunRow → Bool
is_held row = row.run_type == "lock" && row.status == "held" && not row.finished

abbrev pub holds : String → RunRow → Bool
holds name row = is_held row && row.trigger == name

unfoldable pub any_holds : String → List RunRow → Bool
any_holds name [] = false
any_holds name (row ∷ rows) = if holds name row then true else any_holds name rows

abbrev pub lock_row : String → ℕ → RunRow
lock_row name id = record {
  id = id;
  run_type = "lock";
  trigger = name;
  status = "held";
  code_version = "lock";
  config_hash = name;
  finished = false;
  stages = none;
}

-- `LockRepository.acquire`: ON CONFLICT DO NOTHING returns no row.
unfoldable pub acquire : String → SyncRuns → Option ℕ × SyncRuns
unfolding any_holds
acquire name t =
    if any_holds name t.rows then (none, t) else (some t.next, insert_row (lock_row name t.next) t)

abbrev pub release_row : ℕ → RunRow → RunRow
release_row token row =
    if row.id == token && is_held row
    then record row { status = "released"; finished = true }
    else row

-- `LockRepository.release`
unfoldable pub release : ℕ → SyncRuns → SyncRuns
unfolding update_rows
release token t = record t { rows = update_rows (release_row token) t.rows }
