-- ===== src/Execution/PathLocks/Safety.antt =====
-- The lock of a live task survives every acquisition by another.
use codex_runner.Prelude.{
  ◌≡◌, ◌≢◌, refl, ◌∙◌, false, List, [], ◌∷◌, Text, All, Result, ok, err, Result-cases, Bool-cases,
  inl, inr, modify, ◌>>◌,
}
use codex_runner.Prelude.Dict
use codex_runner.Domain.Values.{TaskId}
use codex_runner.Domain.NormalizedPath.{NormalizedPath}
use codex_runner.Execution.PathLocks.{
  PathLock, Locks, LockErr, World, is_dead, scan, delete_all, without, normalize_all, active_locks,
  acquire, decide, acquire_among, execute, path_lock_conflict,
}
use codex_runner.Execution.PathLocks.Scan.{scan-stale, others_of}
use codex_runner.Execution.PathLocks.Exclusion.{acquire-lock}

get-without :
    (j : TaskId) (ids : List TaskId) (s : Locks)
    → All (λ i. i ≢ j) ids
    → Dict.get j (without ids s) ≡ Dict.get j s
unfolding without
get-without j [] s h = refl
get-without j (i ∷ ids) s h =
    get-without j ids (Dict.delete i s) h.1 ∙ Dict.get-delete_other j i s h.0

get-delete_all :
    (w : World) (j : TaskId) (ids : List TaskId) (s : Locks)
    → All (λ i. i ≢ j) ids
    → Dict.get j (delete_all w ids s).1 ≡ Dict.get j s
unfolding delete_all
get-delete_all w j [] s h = refl
get-delete_all w j (i ∷ ids) s h = elim (Bool-cases (w.delete_fails i)) [
  | inl fails ↦ rw fails
  | inr works ↦
      rw works (get-delete_all w j ids (Dict.delete i s) h.1 ∙ Dict.get-delete_other j i s h.0)
]

get-decide :
    (w : World) (j id : TaskId) (requested : List NormalizedPath) (active : List PathLock)
    (r : Result LockErr PathLock) (u : Locks)
    → id ≢ j
    → acquire id requested active w.now ≡ r
    → Dict.get j (decide w requested active r u).1 ≡ Dict.get j u
get-decide w j id requested active (err path_lock_conflict) u n e = refl
get-decide w j id requested active (err _) u n e = refl
get-decide w j id requested active (ok lock) u n e = elim (Bool-cases w.save_fails) [
  | inl fails ↦ rw fails
  | inr saves ↦
      let (same, _, _) = acquire-lock id requested active w.now lock e in
      rw (saves, same) (Dict.get-put_other j id lock.owned_paths u n)
]

get-acquire_among :
    (w : World) (j id : TaskId) (raws : List Text) (survivors u : Locks)
    → id ≢ j
    → Dict.get j (acquire_among w id raws survivors u).1 ≡ Dict.get j u
unfolding acquire_among
get-acquire_among w j id [] survivors u n = refl
get-acquire_among w j id (raw ∷ raws) survivors u n =
    elim (Result-cases (normalize_all w (raw ∷ raws))) [
      | inr (e, bad) ↦ rw bad
      | inl (requested, good) ↦ rw good (elim (Result-cases (active_locks survivors)) [
        | inr (e, bad) ↦ rw bad
        | inl (active, found) ↦
            rw found
              (get-decide w j id requested active (acquire id requested active w.now) u n refl)
      ])
    ]

get-continue :
    (w : World) (j id : TaskId) (raws : List Text) (s : Locks) (stale : List TaskId)
    (survivors : Locks)
    → All (λ i. i ≢ j) stale
    → All (λ i. i ≢ j) w.released
    → id ≢ j
    → Dict.get j
        ((delete_all w stale >> (modify (without w.released) >> acquire_among w id raws survivors))
          s).1
      ≡ Dict.get j s
get-continue w j id raws s stale survivors others away n =
    elim (Result-cases (delete_all w stale s).0) [
      | inr (e, failed) ↦ rw failed (get-delete_all w j stale s others)
      | inl (u, done) ↦ rw done (
          get-acquire_among w j id raws survivors (without w.released (delete_all w stale s).1) n
          ∙ get-without j w.released (delete_all w stale s).1 away
          ∙ get-delete_all w j stale s others)
    ]

-- An acquisition by one task, whether it succeeds, conflicts or fails, leaves what another task owns
-- exactly as it was, if the other is alive (its liveness lock is held, or it waits for its launch)
-- and does not release its lock itself.
pub execute-live_kept :
    (w : World) (j id : TaskId) (raws : List Text) (s : Locks)
    → is_dead w j ≡ ok false
    → All (λ i. i ≢ j) w.released
    → id ≢ j
    → Dict.get j (execute w id raws s).1 ≡ Dict.get j s
unfolding execute
execute-live_kept w j id raws s alive away n = elim (Bool-cases w.mutex_fails) [
  | inl fails ↦ rw fails
  | inr locks ↦ simp locks (elim (Bool-cases w.list_fails) [
    | inl fails ↦ rw fails
    | inr lists ↦ simp lists (elim (Result-cases (scan w s)) [
      | inr (e, failed) ↦ rw failed
      | inl ((stale, survivors), found) ↦ rw found (
          get-continue w j id raws s stale survivors
            (others_of w j stale alive (scan-stale w s stale survivors found)) away n)
    ])
  ])
]
