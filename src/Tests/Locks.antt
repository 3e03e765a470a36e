-- ===== src/Tests/Locks.antt =====
-- The theorems on path locks, at a store with a live task and a dead one.
use codex_runner.Prelude.{
  none, ◌≡◌, ◌≢◌, refl, true, false, [], ◌∷◌, Text, text, text_eq, ok, arith, inl, inr, text_eq_iff,
  text_eq_refl,
}
use codex_runner.Prelude.Dict
use codex_runner.Domain.NormalizedPath.{new_normalized_path}
use codex_runner.Execution.Ownership.{Lease, no_leases, current}
use codex_runner.Execution.Ownership.Leases.{LeaseOp, granted, granted-Ascends, Ascends}
use codex_runner.Execution.PathLocks.{
  World, Locks, free, held, task_not_found, PathLock, contains, is_dead, execute, scan,
  normalize_all, active_locks,
}
use codex_runner.Execution.PathLocks.Disjoint.{IsDisjoint}
use codex_runner.Execution.PathLocks.Exclusion.{LockOp, run_locks, run_locks-IsDisjoint}
use codex_runner.Execution.PathLocks.Safety.{execute-live_kept}
use codex_runner.Execution.PathLocks.Conflict.{Holds}
use codex_runner.Execution.PathLocks.Outcome.{Outcome, execute-Outcome}

abbrev alive : Text
alive = text "alive"

abbrev dead : Text
dead = text "dead"

abbrev fresh : Text
fresh = text "fresh"

abbrev a_world : World
a_world = record {
  mutex_fails = false;
  list_fails = false;
  try_acquire = λ id. elim (text_eq id dead) [ true ↦ free | false ↦ held ];
  load = λ id. task_not_found;
  delete_fails = λ id. false;
  save_fails = false;
  normalize = λ raw. ok raw;
  now = 100;
  released = [];
}

abbrev a_store : Locks
a_store = (alive, text "/a" ∷ []) ∷ (dead, text "/b" ∷ []) ∷ []

not_both :
    (a b p : Text)
    → text_eq a b ≡ false
    → contains p (a ∷ []) ≡ true
    → contains p (b ∷ []) ≡ true
    → ⊥
unfolding contains
not_both a b p n k l = ground (arith, text_eq_iff a p, text_eq_iff b p, text_eq_refl b)

other_paths : text_eq (text "/a") (text "/b") ≡ false
unfolding text_eq
other_paths = refl

other_tasks : fresh ≢ alive
unfolding text_eq
other_tasks e = false_true ((text_eq_iff fresh alive).1 e)
  where
    false_true : false ≡ true → ⊥
    false_true h = cc

a_store-IsDisjoint : IsDisjoint a_store
a_store-IsDisjoint = ((λ p. not_both (text "/a") (text "/b") p other_paths, tt), (tt, tt))

-- One acquisition conflicts, the other takes over what the dead task owned.
run_locks-IsDisjoint_example : IsDisjoint (
    run_locks a_store (
      LockOp.acquires a_world fresh (text "/a" ∷ [])
      ∷ LockOp.acquires a_world fresh (text "/b" ∷ [])
      ∷ LockOp.releases a_world alive
      ∷ []))
run_locks-IsDisjoint_example =
    run_locks-IsDisjoint a_store
      (LockOp.acquires a_world fresh (text "/a" ∷ [])
        ∷ LockOp.acquires a_world fresh (text "/b" ∷ [])
        ∷ LockOp.releases a_world alive
        ∷ [])
      a_store-IsDisjoint

alive_held : is_dead a_world alive ≡ ok false
unfolding text_eq
alive_held = refl

execute-live_kept_example :
    Dict.get alive (execute a_world fresh (text "/b" ∷ []) a_store).1 ≡ Dict.get alive a_store
execute-live_kept_example =
    execute-live_kept a_world alive fresh (text "/b" ∷ []) a_store alive_held tt other_tasks

execute-Outcome_example :
    Outcome a_world fresh (text "/a" ∷ []) a_store (execute a_world fresh (text "/a" ∷ []) a_store)
execute-Outcome_example = execute-Outcome a_world fresh (text "/a" ∷ []) a_store

abbrev survivors : Locks
survivors = (alive, text "/a" ∷ []) ∷ []

abbrev alive_lock : PathLock
alive_lock = record { task_id = alive; owned_paths = text "/a" ∷ []; acquired_at = 0 }

store_scanned : scan a_world a_store ≡ ok (dead ∷ [], survivors)
unfolding scan text_eq
store_scanned = refl

path_normalized : normalize_all a_world (text "/b" ∷ []) ≡ ok (text "/b" ∷ [])
unfolding normalize_all
path_normalized = refl

survivors_valid : active_locks survivors ≡ ok (alive_lock ∷ [])
unfolding active_locks new_normalized_path text_eq
survivors_valid = refl

nobody-Holds :
    (p owner : Text) → contains p (text "/b" ∷ []) ≡ true → ¬ Holds (alive_lock ∷ []) owner p
nobody-Holds p owner wanted (inl (same, owns)) =
    not_both (text "/a") (text "/b") p other_paths owns wanted
nobody-Holds p owner wanted (inr later) = later

abbrev old_lease : Lease
old_lease = record { task = alive; generation = 7 }

granted-Ascends_example : Ascends 0 (
    granted no_leases (
      LeaseOp.acquires alive
      ∷ LeaseOp.acquires alive
      ∷ LeaseOp.releases (record { task = alive; generation = 1 })
      ∷ LeaseOp.acquires alive
      ∷ []))
granted-Ascends_example =
    granted-Ascends no_leases
      (LeaseOp.acquires alive
        ∷ LeaseOp.acquires alive
        ∷ LeaseOp.releases (record { task = alive; generation = 1 })
        ∷ LeaseOp.acquires alive
        ∷ [])
      (omega arith)

none_owned : current alive no_leases ≡ none
unfolding Dict.get
none_owned = refl
