-- ===== src/Execution/PathLocks.antt =====
-- internal/domain/pathlock.go and internal/execution/pathlock.go: which task owns which paths. The
-- store is a map from tasks to the paths that they own, as internal/store/pathlockstore.go keeps one
-- file for each task. What the mutex, the liveness lock, the task store, the file system and the
-- failures of the store answer is the record `World`; a store call that fails changes nothing.
pub mod Disjoint
pub mod Scan
pub mod Exclusion
pub mod Safety
pub mod Conflict
pub mod Outcome
use codex_runner.Prelude.{
  Bool, true, false, not, ◌||◌, List, [], ◌∷◌, Option, none, some, Text, text_eq, if◌then◌else◌,
  Result, ok, err, Exec, pure, raise, lift, modify, ◌>>=◌, ◌>>◌,
}
use codex_runner.Prelude.Dict
use codex_runner.Prelude.Dict.{Dict}
use codex_runner.Domain.Enums.{TaskState, is_queued, is_starting}
use codex_runner.Domain.Values.{Time, TaskId, Err}
use codex_runner.Domain.NormalizedPath.{NormalizedPath, new_normalized_path}

pub record PathLock : Type 0 where
  pub task_id : TaskId
  pub owned_paths : List NormalizedPath
  pub acquired_at : Time

-- The store: `List` gives its entries, `OwnedPaths` being plain strings.
abbrev pub Locks : Type 0
Locks = Dict (List Text)

pub data LockErr : Type 0 where
  path_lock_conflict infra_failure task_id_mismatch nil_pointer : LockErr
  liveness_check : TaskId → LockErr
  conflict_with : TaskId → NormalizedPath → LockErr

-- What `TryAcquire` answers: the lock was free, it is held, there is no lock file, or an error.
pub data Liveness : Type 0 where
  free held no_file check_failed : Liveness

-- What `Load` answers.
pub data Loaded : Type 0 where
  task_not_found load_failed : Loaded
  loaded : TaskState → Loaded

pub record World : Type 0 where
  pub mutex_fails : Bool
  pub list_fails : Bool
  pub try_acquire : TaskId → Liveness
  pub load : TaskId → Loaded
  pub delete_fails : TaskId → Bool
  pub save_fails : Bool
  pub normalize : Text → Result LockErr NormalizedPath
  pub now : Time
  -- the tasks that release their locks while an acquisition runs: `Release` takes no mutex
  pub released : List TaskId

unfoldable pub contains : Text → List Text → Bool
contains p [] = false
contains p (q ∷ qs) = text_eq q p || contains p qs

-- The loop over the other lock's paths.
unfoldable pub overlap_paths : List NormalizedPath → List NormalizedPath → Bool
unfolding contains
overlap_paths owned [] = false
overlap_paths owned (p ∷ ps) = contains p owned || overlap_paths owned ps

-- `Overlaps`, on pointers
unfoldable pub overlaps : Option PathLock → Option PathLock → Bool
unfolding overlap_paths
overlaps (some p) (some other) = overlap_paths p.owned_paths other.owned_paths
overlaps _ _ = false

unfoldable pub conflicts : PathLock → List PathLock → Bool
unfolding overlaps
conflicts candidate [] = false
conflicts candidate (active ∷ rest) =
    overlaps (some candidate) (some active) || conflicts candidate rest

-- `Acquire` of the domain
unfoldable pub acquire :
    TaskId → List NormalizedPath → List PathLock → Time → Result LockErr PathLock
unfolding conflicts
acquire id requested active now =
    let candidate : PathLock = record {
      task_id = id;
      owned_paths = requested;
      acquired_at = now;
    } in
    if conflicts candidate active then err path_lock_conflict else ok candidate

-- `Release` of the domain
unfoldable pub release : Option PathLock → TaskId → Result LockErr Unit
release none id = err task_id_mismatch
release (some p) id = if not (text_eq p.task_id id) then err task_id_mismatch else ok tt

pub record AcquirePathLockOutput : Type 0 where
  pub acquired : Bool
  pub conflicting_task_id : Option TaskId
  pub conflicting_path : Option NormalizedPath
  pub normalized_paths : List NormalizedPath

-- A lock without a liveness file: its task decides.
abbrev pub is_dead_unlocked : Loaded → Result LockErr Bool
is_dead_unlocked task_not_found = ok true
is_dead_unlocked load_failed = err infra_failure
is_dead_unlocked (loaded state) = if is_queued state || is_starting state then ok false else ok true

-- The body of the loop over the snapshots: whether the lock of a task is stale.
abbrev pub is_dead : World → TaskId → Result LockErr Bool
is_dead w id = elim (w.try_acquire id) [
  | free ↦ ok true
  | held ↦ ok false
  | no_file ↦ is_dead_unlocked (w.load id)
  | check_failed ↦ err (liveness_check id)
]

abbrev pub sort_out :
    TaskId × List Text
    → Result LockErr Bool
    → Result LockErr (List TaskId × Locks)
    → Result LockErr (List TaskId × Locks)
sort_out entry (err e) rest = err e
sort_out entry (ok dead) (err e) = err e
sort_out entry (ok true) (ok (stale, survivors)) = ok (entry.0 ∷ stale, survivors)
sort_out entry (ok false) (ok (stale, survivors)) = ok (stale, entry ∷ survivors)

-- The loop: the stale tasks and the surviving snapshots, or its first error.
unfoldable pub scan : World → Locks → Result LockErr (List TaskId × Locks)
scan w [] = ok ([], [])
scan w ((id, paths) ∷ rest) = sort_out (id, paths) (is_dead w id) (scan w rest)

unfoldable pub delete_all : World → List TaskId → Exec LockErr Locks Unit
delete_all w [] s = (ok tt, s)
delete_all w (id ∷ ids) s =
    let rest = delete_all w ids (Dict.delete id s) in
    if w.delete_fails id then (err infra_failure, s) else rest

-- The store after deletions that succeed.
unfoldable pub without : List TaskId → Locks → Locks
without [] s = s
without (id ∷ ids) s = without ids (Dict.delete id s)

abbrev pub cons_path :
    Result LockErr NormalizedPath
    → Result LockErr (List NormalizedPath)
    → Result LockErr (List NormalizedPath)
cons_path (err e) rest = err infra_failure
cons_path (ok p) (err e) = err e
cons_path (ok p) (ok ps) = ok (p ∷ ps)

-- `normalizeAll`; its caller turns every error into the same failure.
unfoldable pub normalize_all : World → List Text → Result LockErr (List NormalizedPath)
normalize_all w [] = ok []
normalize_all w (raw ∷ rest) = cons_path (w.normalize raw) (normalize_all w rest)

abbrev pub as_lock_err : Result Err NormalizedPath → Result LockErr NormalizedPath
as_lock_err (ok p) = ok p
as_lock_err (err e) = err infra_failure

unfoldable pub validate_stored_paths : List Text → Result LockErr (List NormalizedPath)
validate_stored_paths [] = ok []
validate_stored_paths (raw ∷ rest) =
    cons_path (as_lock_err (new_normalized_path raw)) (validate_stored_paths rest)

abbrev pub cons_lock :
    TaskId
    → Result LockErr (List NormalizedPath)
    → Result LockErr (List PathLock)
    → Result LockErr (List PathLock)
cons_lock id (err e) rest = err e
cons_lock id (ok paths) (err e) = err e
cons_lock id (ok paths) (ok locks) =
    ok (record { task_id = id; owned_paths = paths; acquired_at = 0 } ∷ locks)

-- The loop that builds `active` from the survivors.
unfoldable pub active_locks : Locks → Result LockErr (List PathLock)
unfolding validate_stored_paths
active_locks [] = ok []
active_locks ((id, paths) ∷ rest) = cons_lock id (validate_stored_paths paths) (active_locks rest)

-- The loops of `findConflict`, innermost first; its zero value is `none`.
unfoldable pub find_requested : NormalizedPath → List NormalizedPath → Option NormalizedPath
find_requested owned [] = none
find_requested owned (p ∷ ps) =
    let rest = find_requested owned ps in if text_eq p owned then some p else rest

unfoldable pub find_owned : List NormalizedPath → List NormalizedPath → Option NormalizedPath
unfolding find_requested
find_owned requested [] = none
find_owned requested (owned ∷ more) =
    let rest = find_owned requested more in
    elim (find_requested owned requested) [ none ↦ rest | some p ↦ some p ]

unfoldable pub find_conflict :
    List NormalizedPath → List PathLock → Option (TaskId × NormalizedPath)
unfolding find_owned
find_conflict requested [] = none
find_conflict requested (lock ∷ locks) =
    let rest = find_conflict requested locks in
    elim (find_owned requested lock.owned_paths) [ none ↦ rest | some p ↦ some (lock.task_id, p) ]

abbrev pub value_of : Option (TaskId × NormalizedPath) → TaskId × NormalizedPath
value_of none = ([], [])
value_of (some found) = found

abbrev pub conflict_output : TaskId × NormalizedPath → AcquirePathLockOutput
conflict_output (id, path) = record {
  acquired = false;
  conflicting_task_id = some id;
  conflicting_path = some path;
  normalized_paths = [];
}

abbrev pub acquired_output : List NormalizedPath → AcquirePathLockOutput
acquired_output paths = record {
  acquired = true;
  conflicting_task_id = none;
  conflicting_path = none;
  normalized_paths = paths;
}

-- What follows `Acquire` of the domain.
abbrev pub decide :
    World
    → List NormalizedPath
    → List PathLock
    → Result LockErr PathLock
    → Exec LockErr Locks AcquirePathLockOutput
decide w requested active (err path_lock_conflict) s =
    (ok (conflict_output (value_of (find_conflict requested active))), s)
decide w requested active (err e) s = (err e, s)
decide w requested active (ok lock) s =
    if w.save_fails
    then (err infra_failure, s)
    else (ok (acquired_output lock.owned_paths), Dict.put lock.task_id lock.owned_paths s)

-- What follows the removal of the stale locks.
unfoldable pub acquire_among :
    World → TaskId → List Text → Locks → Exec LockErr Locks AcquirePathLockOutput
unfolding normalize_all active_locks acquire
acquire_among w id [] survivors = pure (acquired_output [])
acquire_among w id (raw ∷ raws) survivors = do
  requested ← lift (normalize_all w (raw ∷ raws))
  active ← lift (active_locks survivors)
  decide w requested active (acquire id requested active w.now)

abbrev pub fail_if : Bool → Exec LockErr Locks Unit
fail_if b s = if b then (err infra_failure, s) else (ok tt, s)

-- `AcquirePathLockUseCase.Execute`. An error of `Unlock` is only joined to another error. A release
-- by another task is a deletion, so it commutes with those here, and stands before the `Save`.
unfoldable pub execute : World → TaskId → List Text → Exec LockErr Locks AcquirePathLockOutput
unfolding scan delete_all acquire_among without
execute w id raws s =
    (do
      fail_if w.mutex_fails
      fail_if w.list_fails
      found ← lift (scan w s)
      delete_all w found.0
      modify (without w.released)
      acquire_among w id raws found.1)
      s

abbrev pub output_paths : AcquirePathLockOutput → Result LockErr (List NormalizedPath)
output_paths o =
    if not o.acquired
    then elim o.conflicting_task_id [
      | none ↦ err nil_pointer
      | some id ↦ elim o.conflicting_path [
        | none ↦ err nil_pointer
        | some path ↦ err (conflict_with id path)
      ]
    ]
    else ok o.normalized_paths

-- `AcquirePathLockUseCase.Acquire`
unfoldable pub acquire_paths : World → TaskId → List Text → Exec LockErr Locks (List NormalizedPath)
unfolding execute
acquire_paths w id raws = do out ← execute w id raws; lift (output_paths out)

-- `ReleasePathLockUseCase.Execute`, which takes no mutex.
unfoldable pub release_path_lock : World → TaskId → Exec LockErr Locks Unit
release_path_lock w id s =
    if w.delete_fails id then (err infra_failure, s) else (ok tt, Dict.delete id s)
