-- ===== src/Execution/PathLocks/Outcome.antt =====
-- What an acquisition answers, on every branch.
use codex_runner.Prelude.{
  ◌≡◌, refl, true, false, List, [], ◌∷◌, Text, Result, ok, err, Result-cases, Bool-cases, inl, inr,
  arith, modify, ◌>>◌,
}
use codex_runner.Prelude.Dict
use codex_runner.Domain.Values.{TaskId, Time}
use codex_runner.Domain.NormalizedPath.{NormalizedPath}
use codex_runner.Execution.PathLocks.{
  PathLock, Locks, LockErr, World, AcquirePathLockOutput, contains, conflicts, is_dead, scan,
  delete_all, without, normalize_all, active_locks, acquire, conflict_output, acquired_output,
  decide, acquire_among, execute, path_lock_conflict,
}
use codex_runner.Execution.PathLocks.Exclusion.{acquire-lock}
use codex_runner.Execution.PathLocks.Scan.{scan-without}
use codex_runner.Execution.PathLocks.Conflict.{
  Holds, Owns, find_conflict-some, active_locks-Owns, scan-Owns,
}

-- The answers of an acquisition and the stores that they leave.
pub data Outcome (w : World) (id : TaskId) (raws : List Text) (s : Locks)
    : Result LockErr AcquirePathLockOutput × Locks → Type 0 where
  failed : (e : LockErr) (u : Locks) → Outcome w id raws s (err e, u)
  nothing_wanted : (u : Locks) → raws ≡ [] → Outcome w id raws s (ok (acquired_output []), u)
  conflict :
      (owner : TaskId) (p : NormalizedPath) (requested : List NormalizedPath) (u : Locks)
      → normalize_all w raws ≡ ok requested
      → contains p requested ≡ true
      → is_dead w owner ≡ ok false
      → Owns s owner p
      → Outcome w id raws s (ok (conflict_output (owner, p)), u)
  taken :
      (requested : List NormalizedPath) (u : Locks)
      → normalize_all w raws ≡ ok requested
      → Outcome w id raws s (ok (acquired_output requested), Dict.put id requested u)

acquire-conflicts :
    (id : TaskId) (requested : List NormalizedPath) (active : List PathLock) (now : Time)
    (e : LockErr)
    → acquire id requested active now ≡ err e
    → conflicts (record { task_id = id; owned_paths = requested; acquired_at = now }) active ≡ true
unfolding acquire
acquire-conflicts id requested active now e h = ground arith

module _ (w : World) (id : TaskId) (raws : List Text) (s : Locks) where
  decide-Outcome :
      (requested : List NormalizedPath) (active : List PathLock) (r : Result LockErr PathLock)
      (u : Locks)
      → normalize_all w raws ≡ ok requested
      → acquire id requested active w.now ≡ r
      → ((owner : TaskId) (p : NormalizedPath)
          → Holds active owner p
          → (is_dead w owner ≡ ok false) × Owns s owner p)
      → Outcome w id raws s (decide w requested active r u)
  decide-Outcome requested active (err path_lock_conflict) u n e k =
      let (owner, p, found, wanted, holds) =
        find_conflict-some (record { task_id = id; owned_paths = requested; acquired_at = w.now })
          active (acquire-conflicts id requested active w.now path_lock_conflict e) in
      let (alive, owns) = k owner p holds in
      rw found (conflict owner p requested u n wanted alive owns)
  decide-Outcome requested active (err e) u n h k = failed _ u
  decide-Outcome requested active (ok lock) u n e k = elim (Bool-cases w.save_fails) [
    | inl fails ↦ simp fails (failed _ u)
    | inr saves ↦
        let (same_id, same_paths, _) = acquire-lock id requested active w.now lock e in
        simp (saves, same_id, same_paths) (taken requested u n)
  ]

acquire_among-Outcome :
    (w : World) (id : TaskId) (raws : List Text) (s survivors u : Locks)
    → ((owner : TaskId) (p : NormalizedPath)
        → Owns survivors owner p
        → (is_dead w owner ≡ ok false) × Owns s owner p)
    → Outcome w id raws s (acquire_among w id raws survivors u)
unfolding acquire_among
acquire_among-Outcome w id [] s survivors u k = nothing_wanted u refl
acquire_among-Outcome w id (raw ∷ raws) s survivors u k =
    elim (Result-cases (normalize_all w (raw ∷ raws))) [
      | inr (e, bad) ↦ rw bad (failed e u)
      | inl (requested, good) ↦ rw good (elim (Result-cases (active_locks survivors)) [
        | inr (e, bad) ↦ rw bad (failed e u)
        | inl (active, found) ↦ rw found (
            decide-Outcome w id (raw ∷ raws) s requested active (acquire id requested active w.now)
              u good refl
              (λ owner p h. k owner p (active_locks-Owns survivors active owner p found h)))
      ])
    ]

continue-Outcome :
    (w : World) (id : TaskId) (raws : List Text) (s : Locks) (stale : List TaskId)
    (survivors : Locks)
    → scan w s ≡ ok (stale, survivors)
    → Outcome w id raws s (
        (delete_all w stale >> (modify (without w.released) >> acquire_among w id raws survivors))
          s)
continue-Outcome w id raws s stale survivors found = elim (Result-cases (delete_all w stale s).0) [
  | inr (e, bad) ↦ rw bad (failed e (delete_all w stale s).1)
  | inl (u, done) ↦ rw done (
      acquire_among-Outcome w id raws s survivors (without w.released (delete_all w stale s).1)
        (λ owner p o. scan-Owns w s stale survivors owner p found o))
]

-- Every acquisition ends in one of four ways: an error; nothing, for no paths; a conflict, which
-- names one of the requested paths and a live task that does own it; or success, after which the
-- task's entry is exactly the normalized form of the paths that it requested.
pub execute-Outcome :
    (w : World) (id : TaskId) (raws : List Text) (s : Locks)
    → Outcome w id raws s (execute w id raws s)
unfolding execute
execute-Outcome w id raws s = elim (Bool-cases w.mutex_fails) [
  | inl fails ↦ simp fails (failed _ s)
  | inr locks ↦ simp locks (elim (Bool-cases w.list_fails) [
    | inl fails ↦ simp fails (failed _ s)
    | inr lists ↦ simp lists (elim (Result-cases (scan w s)) [
      | inr (e, bad) ↦ rw bad (failed e s)
      | inl ((stale, survivors), found) ↦
          rw found (continue-Outcome w id raws s stale survivors found)
    ])
  ])
]

delete_all_works :
    (w : World) (ids : List TaskId) (s : Locks)
    → ((i : TaskId) → w.delete_fails i ≡ false)
    → delete_all w ids s ≡ (ok tt, without ids s)
unfolding delete_all without
delete_all_works w [] s h = refl
delete_all_works w (i ∷ ids) s h = simp (h i) (delete_all_works w ids (Dict.delete i s) h)

acquire-free :
    (id : TaskId) (requested : List NormalizedPath) (active : List PathLock) (now : Time)
    → ((p : NormalizedPath) (owner : TaskId) → contains p requested ≡ true → ¬ Holds active owner p)
    → acquire id requested active now
      ≡ ok (record { task_id = id; owned_paths = requested; acquired_at = now })
unfolding acquire
acquire-free id requested active now h =
    let c : PathLock = record { task_id = id; owned_paths = requested; acquired_at = now } in
    elim (Bool-cases (conflicts c active)) [
      | inr free ↦ rw free
      | inl clash ↦
          let (owner, p, _, wanted, holds) = find_conflict-some c active clash in
          absurd (h p owner wanted holds)
    ]

-- Where nothing fails, a task gets the paths that it requests if no live task owns one of them: the
-- scan of the store ends in survivors whose paths are valid, none of which is requested.
pub execute-acquires :
    (w : World) (id : TaskId) (raw : Text) (raws : List Text) (s : Locks) (stale : List TaskId)
    (survivors : Locks) (requested : List NormalizedPath) (active : List PathLock)
    → w.mutex_fails ≡ false
    → w.list_fails ≡ false
    → w.save_fails ≡ false
    → ((i : TaskId) → w.delete_fails i ≡ false)
    → scan w s ≡ ok (stale, survivors)
    → normalize_all w (raw ∷ raws) ≡ ok requested
    → active_locks survivors ≡ ok active
    → ((p : NormalizedPath) (owner : TaskId) → contains p requested ≡ true → ¬ Holds active owner p)
    → execute w id (raw ∷ raws) s
      ≡ (ok (acquired_output requested), Dict.put id requested (without w.released survivors))
unfolding execute acquire_among
execute-acquires w id raw raws s stale survivors requested active m l v d found good valid free =
    simp
      (
        m,
        l,
        found,
        delete_all_works w stale s d,
        good,
        valid,
        acquire-free id requested active w.now free,
        v,
        scan-without w s stale survivors found,
      )
      refl
