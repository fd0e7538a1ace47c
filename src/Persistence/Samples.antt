-- ===== src/Persistence/Samples.antt =====
-- Locks at small tables.
use free_model_orchestrator.Base.{
  ◌≡◌, refl, ◌≤◌, none, some, [], ◌∷◌, false, true, string_eq, nat_eq, arith,
}
use free_model_orchestrator.Persistence.{SyncRuns, no_runs, acquire, any_holds, lock_row, release}
use free_model_orchestrator.Persistence.Locks.{
  held_count, Statements-held_count-le-one, acquires, releases, start, next, release-acquire,
}

abbrev locked : SyncRuns
locked = record { rows = lock_row "daily" 0 ∷ []; next = 1 }

acquire_twice : acquire "daily" (acquire "daily" no_runs).1 ≡ (none, locked)
unfolding acquire string_eq
acquire_twice = refl

acquire_again : (acquire "daily" (release 0 locked)).0 ≡ some 1
unfolding acquire release string_eq nat_eq
acquire_again = refl

Statements-held_count-le-one_example :
    held_count "daily" (acquire "daily" (release 0 (acquire "daily" no_runs).1)).1.rows ≤ 1
Statements-held_count-le-one_example =
    Statements-held_count-le-one "daily"
      (next (next (next start (acquires "daily" _)) (releases 0 _)) (acquires "daily" _))

acquire_other :
    acquire "provider-scan:p" locked
    ≡ (some 1, record { rows = lock_row "daily" 0 ∷ lock_row "provider-scan:p" 1 ∷ []; next = 2 })
unfolding acquire string_eq
acquire_other = refl

release-acquire_example :
    (any_holds "provider-scan:p" locked.rows ≡ false)
    × (any_holds "provider-scan:p" (lock_row "daily" 0 ∷ lock_row "provider-scan:p" 1 ∷ []) ≡ true)
    × (any_holds "daily"
          (release 1 (record {
            rows = lock_row "daily" 0 ∷ lock_row "provider-scan:p" 1 ∷ [];
            next = 2;
          })).rows
        ≡ any_holds "daily" locked.rows)
release-acquire_example =
    release-acquire "provider-scan:p" locked 1 _ (omega arith) acquire_other "daily"
