-- ===== src/Persistence/Locks.antt =====
-- The advisory locks of persistence/lock.py: mutual exclusion over every interleaving of the
-- statements on sync_runs, and what a release does.
use free_model_orchestrator.Base.{
  ℕ, ◌+◌, ◌≤◌, ◌<◌, ◌≡◌, refl, ◌≢◌, inl, inr, String, true, false, some, List, [], ◌∷◌, ◌++◌,
  Bool-cases, if◌then◌else◌, arith, string_eq, nat_eq, All,
}
use free_model_orchestrator.Effects.{return}
use free_model_orchestrator.Persistence.{
  StageRecord, RunRow, SyncRuns, no_runs, create, created_row, finish_row, update_rows, finish,
  holds, any_holds, lock_row, acquire, release_row, release,
}

unfoldable pub held_count : String → List RunRow → ℕ
held_count name [] = 0
held_count name (row ∷ rows) = (if holds name row then 1 else 0) + held_count name rows

held_count-append :
    (name : String) (xs ys : List RunRow)
    → held_count name (xs ++ ys) ≡ held_count name xs + held_count name ys
unfolding held_count
held_count-append name [] ys = omega arith
held_count-append name (row ∷ xs) ys = omega (arith, held_count-append name xs ys)

pub held_count_of_free :
    (name : String) (rows : List RunRow) → any_holds name rows ≡ false → held_count name rows ≡ 0
unfolding held_count any_holds
held_count_of_free name [] h = refl
held_count_of_free name (row ∷ rows) h = ground (arith, held_count_of_free name rows)

-- An update that takes no lock adds none.
pub held_count-update_rows :
    (name : String) (f : RunRow → RunRow) (rows : List RunRow)
    → ((row : RunRow) → holds name (f row) ≡ true → holds name row ≡ true)
    → held_count name (update_rows f rows) ≤ held_count name rows
unfolding held_count update_rows
held_count-update_rows name f [] h = omega arith
held_count-update_rows name f (row ∷ rows) h = elim (Bool-cases (holds name (f row))) [
  | inl e ↦ rw (e, h row e) (omega (arith, held_count-update_rows name f rows h))
  | inr e ↦ rw e (omega (arith, held_count-update_rows name f rows h))
]

-- One statement on the table, by any process. A run is created as "running", never as "held".
pub data Statement : SyncRuns → SyncRuns → Type 0 where
  acquires : (name : String) (t : SyncRuns) → Statement t (acquire name t).1
  releases : (token : ℕ) (t : SyncRuns) → Statement t (release token t)
  creates :
      (run_type trigger status code_version config_hash : String) (t : SyncRuns)
      → status ≢ "held"
      → Statement t (create run_type trigger status code_version config_hash t).1
  finishes :
      (id : ℕ) (status : String) (stages : List StageRecord) {t t' : SyncRuns}
      → finish id status stages t ≡ return t'
      → Statement t t'

pub data Statements (t : SyncRuns) : SyncRuns → Type 0 where
  start : Statements t t
  next : {u v : SyncRuns} → Statements t u → Statement u v → Statements t v

finish_row-holds :
    (name : String) (id : ℕ) (status : String) (stages : List StageRecord) (row : RunRow)
    → holds name (finish_row id status stages row) ≡ true
    → holds name row ≡ true
finish_row-holds name id status stages row h = ground arith

release_row-holds :
    (name : String) (token : ℕ) (row : RunRow)
    → holds name (release_row token row) ≡ true
    → holds name row ≡ true
release_row-holds name token row h = ground arith

acquire-held_count :
    (name other : String) (t : SyncRuns)
    → held_count name t.rows ≤ 1
    → held_count name (acquire other t).1.rows ≤ 1
unfolding acquire held_count
acquire-held_count name other t h = elim (Bool-cases (any_holds other t.rows)) [
  | inl e ↦ rw e h
  | inr e ↦ rw e (
      ground (
        arith,
        held_count-append name t.rows (lock_row other t.next ∷ []),
        held_count_of_free other t.rows,
      ))
]

create-held_count :
    (name run_type trigger status code_version config_hash : String) (t : SyncRuns)
    → status ≢ "held"
    → held_count name (create run_type trigger status code_version config_hash t).1.rows
      ≡ held_count name t.rows
unfolding create held_count
create-held_count name run_type trigger status code_version config_hash t ne = ground (
  arith,
  held_count-append name t.rows
      (created_row run_type trigger status code_version config_hash t.next ∷ []),
)

finish-held_count :
    (name : String) (id : ℕ) (status : String) (stages : List StageRecord) (t t' : SyncRuns)
    → finish id status stages t ≡ return t'
    → held_count name t'.rows ≤ held_count name t.rows
unfolding finish
finish-held_count name id status stages t t' e = ground (
  arith,
  held_count-update_rows name (finish_row id status stages) t.rows
      (finish_row-holds name id status stages),
)

Statement-held_count :
    (name : String) {t u : SyncRuns}
    → Statement t u
    → held_count name t.rows ≤ 1
    → held_count name u.rows ≤ 1
unfolding release
Statement-held_count name (acquires other t) h = acquire-held_count name other t h
Statement-held_count name (releases token t) h =
    omega
      (arith, held_count-update_rows name (release_row token) t.rows (release_row-holds name token))
Statement-held_count name (creates r g s c f t ne) h =
    omega (arith, create-held_count name r g s c f t ne)
Statement-held_count name (finishes id status stages {t} {t'} e) h =
    omega (arith, finish-held_count name id status stages t t' e)

-- Mutual exclusion: whatever statements the processes make, and in whatever order, from an empty
-- table, at most one row holds a lock of a given name.
pub Statements-held_count-le-one :
    (name : String) {t : SyncRuns} → Statements no_runs t → held_count name t.rows ≤ 1
unfolding held_count
Statements-held_count-le-one name start = omega arith
Statements-held_count-le-one name (next r s) =
    Statement-held_count name s (Statements-held_count-le-one name r)

-- Ids below `next`, each on one row.
abbrev pub AreBelow : ℕ → List RunRow → Type 0
AreBelow n rows = All (λ row. row.id < n) rows

pub any_holds-append :
    (name : String) (xs ys : List RunRow)
    → any_holds name (xs ++ ys) ≡ (if any_holds name xs then true else any_holds name ys)
unfolding any_holds
any_holds-append name [] ys = refl
any_holds-append name (row ∷ xs) ys = ground (arith, any_holds-append name xs ys)

pub update_rows-append :
    (f : RunRow → RunRow) (xs ys : List RunRow)
    → update_rows f (xs ++ ys) ≡ update_rows f xs ++ update_rows f ys
unfolding update_rows
update_rows-append f [] ys = refl
update_rows-append f (row ∷ xs) ys = cc (update_rows-append f xs ys)

pub any_holds-release_other :
    (name : String) (token : ℕ) (rows : List RunRow)
    → AreBelow token rows
    → any_holds name (update_rows (release_row token) rows) ≡ any_holds name rows
unfolding any_holds update_rows
any_holds-release_other name token [] h = refl
any_holds-release_other name token (row ∷ rows) (h, hs) =
    ground (arith, any_holds-release_other name token rows hs)

-- `RunLockManager.hold` with nothing between: after an acquire that succeeds the lock is held, it
-- was free before, and its release frees it and leaves every other lock as it was.
pub release-acquire :
    (name : String) (t : SyncRuns) (token : ℕ) (t' : SyncRuns)
    → AreBelow t.next t.rows
    → acquire name t ≡ (some token, t')
    → (other : String)
    → (any_holds name t.rows ≡ false)
      × (any_holds name t'.rows ≡ true)
      × (any_holds other (release token t').rows ≡ any_holds other t.rows)
unfolding acquire release any_holds update_rows
release-acquire name t token t' below e other = elim (Bool-cases (any_holds name t.rows)) [
  | inl h ↦ absurd (taken h)
  | inr h ↦ (h, is_taken h, freed h)
]
  where
    taken : any_holds name t.rows ≡ true → ⊥
    taken h = ground (arith, h)

    is_taken : any_holds name t.rows ≡ false → any_holds name t'.rows ≡ true
    is_taken h = ground (arith, h, any_holds-append name t.rows (lock_row name t.next ∷ []))

    freed :
        any_holds name t.rows ≡ false
        → any_holds other (update_rows (release_row token) t'.rows) ≡ any_holds other t.rows
    freed h = ground (
      arith,
      h,
      update_rows-append (release_row token) t.rows (lock_row name t.next ∷ []),
      any_holds-append other (update_rows (release_row token) t.rows)
          (update_rows (release_row token) (lock_row name t.next ∷ [])),
      any_holds-release_other other token t.rows,
    )
