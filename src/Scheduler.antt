-- ===== src/Scheduler.antt =====
-- scheduler.py: the run lock, the cron test and `Scheduler`.
pub mod Locking
pub mod Cron
mod Samples
use free_model_orchestrator.Base.{
  ℕ, ◌≡◌, String, Bool, true, false, Option, some, none, List, [], ◌∷◌, if◌then◌else◌, string_eq,
  ◌==◌, ◌<>◌, nat_beq,
}
use free_model_orchestrator.Effects.{
  Outcome, return, raise, raise_value_error, index_error, ◌>>=?◌, Action, pure, lift, branch, ◌>>=◌,
}
use free_model_orchestrator.Json.{ℤ, pos, negsuc}
use free_model_orchestrator.Persistence.{SyncRuns, acquire, release}
use free_model_orchestrator.Pipeline.{State, PipelineRunResult}
use free_model_orchestrator.Text.{split, after_first, parse_int}

-- `_lock_name`
unfoldable pub lock_name : String → Option String → String
lock_name name none = name
lock_name name (some scope) = if scope == "" then name else name <> ":" <> scope

-- An f-string writes `None` for a missing value.
abbrev pub show_option : Option String → String
show_option none = "None"
show_option (some s) = s

-- `_trigger_plan`: run type, lock scope, and the trigger that the pipeline is given.
unfoldable pub trigger_plan :
    String → (provider role : Option String) → String × Option String × String
trigger_plan trigger provider role =
    if trigger == "manual-provider"
    then ("provider", provider, "manual-provider:" <> show_option provider)
    else if trigger == "manual-role"
    then ("role", role, "manual-role:" <> show_option role)
    else if trigger == "event-provider-added"
    then ("provider", provider, "event-provider-added:" <> show_option provider)
    else if trigger == "urgent-paid-charge"
    then ("provider", provider, "urgent-paid-charge:" <> show_option provider)
    else ("full", none, trigger)

-- The name of the lock that `trigger` holds.
unfoldable pub trigger_lock : String → (provider role : Option String) → String
unfolding trigger_plan lock_name
trigger_lock trigger provider role =
    let (run_type, scope, _) = trigger_plan trigger provider role in
    lock_name (if run_type == "full" then "daily" else "provider-scan") scope

module _ {E : Type 0} where
  abbrev acquire_lock : String → Action (State E) (Option ℕ)
  acquire_lock name s =
      let (token, runs) = acquire name s.runs in (return token, record s { runs = runs })

  -- `RunLock.release`
  unfoldable pub release_lock : Option ℕ → State E → State E
  release_lock none s = s
  release_lock (some token) s = record s { runs = release token s.runs }

module _ {E A : Type 0} where
  -- `with self.locks.hold(name) as lock: body(lock)`: the lock is released on every way out.
  unfoldable pub hold : String → (Option ℕ → Action (State E) A) → Action (State E) A
  unfolding release_lock
  hold name body = do
    token ← acquire_lock name
    λ s. let (o, s') = body token s in (o, release_lock token s')

-- The result where another run holds the lock.
abbrev pub stale_result : PipelineRunResult
stale_result = record {
  run_id = none;
  status = "partial_stale";
  exit_code = 2;
  changed = false;
  stage_results = [];
  skipped_stages = [];
}

abbrev parse_number : String → Outcome ℤ
parse_number text = elim (parse_int text) [
  | some n ↦ return n
  | none ↦ raise_value_error "invalid literal for int()"
]

abbrev pub same_int : ℤ → ℤ → Bool
same_int (pos a) (pos b) = nat_beq a b
same_int (negsuc a) (negsuc b) = nat_beq a b
same_int _ _ = false

abbrev time_of : String → Outcome String
time_of timestamp = elim (after_first b'T' timestamp) [
  | some time ↦ return time
  | none ↦ raise (record { kind = index_error; message = "list index out of range" })
]

-- `first, second, *rest = parts`
abbrev first_two : List String → Outcome (String × String)
first_two (first ∷ second ∷ rest) = return (first, second)
first_two _ = raise_value_error "not enough values to unpack"

-- `_cron_matches`. The hour is looked at only if the minutes agree.
unfoldable pub cron_matches : (cron timestamp : String) → Outcome Bool
cron_matches cron timestamp = first_two (split b' ' cron) >>=? λ (minute, hour).
    time_of timestamp >>=? λ time.
    first_two (split b':' time) >>=? λ (current_hour, current_minute). parse_number minute >>=? λ m.
    parse_number current_minute >>=? λ now_m.
    if same_int m now_m
    then (parse_number hour >>=? λ h.
        parse_number current_hour >>=? λ now_h. return (same_int h now_h))
    else return false

module _ {E : Type 0}
    (pipeline_runner : (trigger run_type : String) → Action (State E) PipelineRunResult) where
  abbrev pub run_if_acquired :
      (trigger run_type : String) → Option ℕ → Action (State E) PipelineRunResult
  run_if_acquired trigger run_type none = pure stale_result
  run_if_acquired trigger run_type (some _) = pipeline_runner trigger run_type

  -- `Scheduler.trigger`
  unfoldable pub trigger :
      String → (provider role : Option String) → Action (State E) PipelineRunResult
  unfolding hold trigger_lock
  trigger name provider role =
      let (run_type, _, pipeline_trigger) = trigger_plan name provider role in
      hold (trigger_lock name provider role) (run_if_acquired pipeline_trigger run_type)

  abbrev some_result :
      Action (State E) PipelineRunResult → Action (State E) (Option PipelineRunResult)
  some_result m = do r ← m; pure (some r)

  -- `Scheduler.tick`; `none` where the cron does not match.
  unfoldable pub tick : (cron timestamp : String) → Action (State E) (Option PipelineRunResult)
  unfolding trigger cron_matches
  tick cron timestamp = do
    matches ← lift (cron_matches cron timestamp)
    branch matches (some_result (trigger "scheduled" none none)) (pure none)

module _ {E A : Type 0} where
  abbrev recalibrate : Action (State E) A → Option ℕ → Action (State E) (Option A)
  recalibrate job none = pure none
  recalibrate job (some _) = do a ← job; pure (some a)

  -- `Scheduler.tick_recalibration`
  unfoldable pub tick_recalibration :
      (cron : Option String) (job : Option (Action (State E) A)) (timestamp : String)
      → Action (State E) (Option A)
  unfolding hold cron_matches
  tick_recalibration none job timestamp = pure none
  tick_recalibration (some cron) none timestamp = pure none
  tick_recalibration (some cron) (some job) timestamp = do
    matches ← lift (cron_matches cron timestamp)
    branch matches (hold "daily" (recalibrate job)) (pure none)
