-- ===== src/Execution/PathLocks/Exclusion.antt =====
-- No path has two owners, whatever is acquired and released.
use codex_runner.Prelude.{
  ◌≡◌, refl, ◌∙◌, sym, subst, Bool, false, ◌||◌, List, [], ◌∷◌, Text, text_eq, text_eq_iff, All,
  Result, ok, err, Result-cases, Bool-cases, inl, inr, arith, modify, ◌>>◌,
}
use codex_runner.Prelude.Dict.{AllValues}
use codex_runner.Domain.Values.{TaskId, Time}
use codex_runner.Domain.NormalizedPath.{NormalizedPath, new_normalized_path}
use codex_runner.Execution.PathLocks.{
  PathLock, Locks, LockErr, World, contains, overlap_paths, overlaps, conflicts, acquire, scan,
  delete_all, without, normalize_all, validate_stored_paths, active_locks, cons_path, cons_lock,
  as_lock_err, decide, acquire_among, execute, release_path_lock, path_lock_conflict,
}
use codex_runner.Execution.PathLocks.Disjoint.{
  Apart, IsDisjoint, delete-IsDisjoint, put-IsDisjoint, without-IsDisjoint, without-AllValues,
  delete_all-IsDisjoint, delete_all-ok,
}
use codex_runner.Execution.PathLocks.Scan.{scan-without}

neither : (a b : Bool) → (a || b) ≡ false → (a ≡ false) × (b ≡ false)
neither a b h = ground arith

overlap_paths-Apart :
    (owned ps : List NormalizedPath) → overlap_paths owned ps ≡ false → Apart owned ps
unfolding overlap_paths contains
overlap_paths-Apart owned [] h p k l = cc
overlap_paths-Apart owned (q ∷ qs) h p k l =
    let (front, rest) = neither (contains q owned) (overlap_paths owned qs) h in
    elim (Bool-cases (text_eq q p)) [
      | inl same ↦ ground (arith, text_eq_iff q p)
      | inr other ↦ overlap_paths-Apart owned qs rest p k (ground arith)
    ]

conflicts-Apart :
    (c : PathLock) (active : List PathLock)
    → conflicts c active ≡ false
    → All (λ a. Apart c.owned_paths a.owned_paths) active
unfolding conflicts overlaps
conflicts-Apart c [] h = tt
conflicts-Apart c (a ∷ as') h =
    let (here, rest) = neither (overlap_paths c.owned_paths a.owned_paths) (conflicts c as') h in
    (overlap_paths-Apart c.owned_paths a.owned_paths here, conflicts-Apart c as' rest)

new_normalized_path-same :
    (raw : Text) {p : NormalizedPath} → as_lock_err (new_normalized_path raw) ≡ ok p → p ≡ raw
unfolding new_normalized_path
new_normalized_path-same raw h = ground arith

cons_path-same :
    (raw : Text) (rest : List Text) (r : Result LockErr NormalizedPath)
    (q : Result LockErr (List NormalizedPath)) {ps : List NormalizedPath}
    → as_lock_err (new_normalized_path raw) ≡ r
    → ((qs : List NormalizedPath) → q ≡ ok qs → qs ≡ rest)
    → cons_path r q ≡ ok ps
    → ps ≡ raw ∷ rest
cons_path-same raw rest (ok p) (ok ps) e f k =
    ground (arith, new_normalized_path-same raw e, f ps refl)
cons_path-same raw rest (ok p) (err x) e f k = cc
cons_path-same raw rest (err x) q e f k = cc

pub validate_stored_paths-same :
    (raws : List Text) (ps : List NormalizedPath) → validate_stored_paths raws ≡ ok ps → ps ≡ raws
unfolding validate_stored_paths
validate_stored_paths-same [] ps h = ground arith
validate_stored_paths-same (raw ∷ rest) ps h =
    cons_path-same raw rest (as_lock_err (new_normalized_path raw)) (validate_stored_paths rest)
      refl (validate_stored_paths-same rest) h

cons_lock-Apart :
    (owned : List Text) (id : TaskId) (ps : List Text) (s : Locks)
    (r : Result LockErr (List NormalizedPath)) (q : Result LockErr (List PathLock))
    {active : List PathLock}
    → ((qs : List NormalizedPath) → r ≡ ok qs → qs ≡ ps)
    → ((locks : List PathLock)
        → q ≡ ok locks
        → All (λ a. Apart owned a.owned_paths) locks
        → AllValues (λ qs. Apart owned qs) s)
    → cons_lock id r q ≡ ok active
    → All (λ a. Apart owned a.owned_paths) active
    → AllValues (λ qs. Apart owned qs) ((id, ps) ∷ s)
cons_lock-Apart owned id ps s (err e) q f g k a = cc
cons_lock-Apart owned id ps s (ok qs) (err e) f g k a = cc
cons_lock-Apart owned id ps s (ok qs) (ok locks) f g k a =
    let apart = subst (λ as'. All (λ a. Apart owned a.owned_paths) as') (sym (ok_inj refl k)) a in
    (subst (Apart owned) (f qs refl) apart.0, g locks refl apart.1)
  where
    ok_inj :
        {r : Result LockErr (List PathLock)} {a b : List PathLock} → r ≡ ok a → r ≡ ok b → a ≡ b
    ok_inj e f = cc

-- What is apart from the active locks is apart from the surviving entries of the store.
active_locks-Apart :
    (owned : List Text) (s : Locks) (active : List PathLock)
    → active_locks s ≡ ok active
    → All (λ a. Apart owned a.owned_paths) active
    → AllValues (λ qs. Apart owned qs) s
unfolding active_locks
active_locks-Apart owned [] active h a = tt
active_locks-Apart owned ((id, ps) ∷ s) active h a =
    cons_lock-Apart owned id ps s (validate_stored_paths ps) (active_locks s)
      (validate_stored_paths-same ps) (active_locks-Apart owned s) h a

pub acquire-lock :
    (id : TaskId) (requested : List NormalizedPath) (active : List PathLock) (now : Time)
    (lock : PathLock)
    → acquire id requested active now ≡ ok lock
    → (lock.task_id ≡ id)
      × (lock.owned_paths ≡ requested)
      × All (λ a. Apart requested a.owned_paths) active
unfolding acquire
acquire-lock id requested active now lock h =
    let candidate : PathLock = record {
      task_id = id;
      owned_paths = requested;
      acquired_at = now;
    } in
    elim (Bool-cases (conflicts candidate active)) [
      | inl clash ↦ ground arith
      | inr free ↦ (ground arith, ground arith, conflicts-Apart candidate active free)
    ]

decide-IsDisjoint :
    (w : World) (id : TaskId) (requested : List NormalizedPath) (active : List PathLock)
    (r : Result LockErr PathLock) (u : Locks)
    → acquire id requested active w.now ≡ r
    → (All (λ a. Apart requested a.owned_paths) active → AllValues (λ qs. Apart requested qs) u)
    → IsDisjoint u
    → IsDisjoint (decide w requested active r u).1
decide-IsDisjoint w id requested active (err path_lock_conflict) u e a h = h
decide-IsDisjoint w id requested active (err _) u e a h = h
decide-IsDisjoint w id requested active (ok lock) u e a h = elim (Bool-cases w.save_fails) [
  | inl fails ↦ rw fails h
  | inr saves ↦
      let (same_id, same_paths, apart) = acquire-lock id requested active w.now lock e in
      rw (saves, same_paths) (put-IsDisjoint lock.task_id requested u (a apart) h)
]

acquire_among-IsDisjoint :
    (w : World) (id : TaskId) (raws : List Text) (survivors u : Locks)
    → ((P : List Text → Type 0) → AllValues P survivors → AllValues P u)
    → IsDisjoint u
    → IsDisjoint (acquire_among w id raws survivors u).1
unfolding acquire_among
acquire_among-IsDisjoint w id [] survivors u k h = h
acquire_among-IsDisjoint w id (raw ∷ raws) survivors u k h =
    elim (Result-cases (normalize_all w (raw ∷ raws))) [
      | inr (e, bad) ↦ rw bad h
      | inl (requested, good) ↦ rw good (elim (Result-cases (active_locks survivors)) [
        | inr (e, bad) ↦ rw bad h
        | inl (active, found) ↦ rw found (
            decide-IsDisjoint w id requested active (acquire id requested active w.now) u refl
              (λ a. k (Apart requested) (active_locks-Apart requested survivors active found a)) h)
      ])
    ]

continue-IsDisjoint :
    (w : World) (id : TaskId) (raws : List Text) (s : Locks) (stale : List TaskId)
    (survivors : Locks)
    → scan w s ≡ ok (stale, survivors)
    → IsDisjoint s
    → IsDisjoint
        ((delete_all w stale >> (modify (without w.released) >> acquire_among w id raws survivors))
          s).1
continue-IsDisjoint w id raws s stale survivors found h =
    elim (Result-cases (delete_all w stale s).0) [
      | inr (e, failed) ↦ rw failed (delete_all-IsDisjoint w stale s h)
      | inl (u, done) ↦
          let left = delete_all-ok w stale s done ∙ scan-without w s stale survivors found in
          rw (done, left)
            (acquire_among-IsDisjoint w id raws survivors (without w.released survivors)
              (λ P. without-AllValues P w.released survivors)
              (without-IsDisjoint w.released survivors
                (subst IsDisjoint left (delete_all-IsDisjoint w stale s h))))
    ]

pub execute-IsDisjoint :
    (w : World) (id : TaskId) (raws : List Text) (s : Locks)
    → IsDisjoint s
    → IsDisjoint (execute w id raws s).1
unfolding execute
execute-IsDisjoint w id raws s h = elim (Bool-cases w.mutex_fails) [
  | inl fails ↦ rw fails h
  | inr locks ↦ simp locks (elim (Bool-cases w.list_fails) [
    | inl fails ↦ rw fails h
    | inr lists ↦ simp lists (elim (Result-cases (scan w s)) [
      | inr (e, failed) ↦ rw failed h
      | inl ((stale, survivors), found) ↦
          rw found (continue-IsDisjoint w id raws s stale survivors found h)
    ])
  ])
]

release_path_lock-IsDisjoint :
    (w : World) (id : TaskId) (s : Locks) → IsDisjoint s → IsDisjoint (release_path_lock w id s).1
unfolding release_path_lock
release_path_lock-IsDisjoint w id s h = elim (Bool-cases (w.delete_fails id)) [
  | inl fails ↦ rw fails h
  | inr works ↦ rw works (delete-IsDisjoint id s h)
]

-- Acquisitions and releases, each with the world that it meets.
pub data LockOp : Type 0 where
  acquires : World → TaskId → List Text → LockOp
  releases : World → TaskId → LockOp

unfoldable pub run_locks : Locks → List LockOp → Locks
run_locks s [] = s
run_locks s (acquires w id raws ∷ ops) = run_locks (execute w id raws s).1 ops
run_locks s (releases w id ∷ ops) = run_locks (release_path_lock w id s).1 ops

-- Mutual exclusion, from a store in which it holds: whatever is acquired and released, in any
-- order, with any stale locks, failures and releases in between, no path is owned by two entries
-- of the store.
pub run_locks-IsDisjoint :
    (s : Locks) (ops : List LockOp) → IsDisjoint s → IsDisjoint (run_locks s ops)
unfolding run_locks
run_locks-IsDisjoint s [] h = h
run_locks-IsDisjoint s (acquires w id raws ∷ ops) h =
    run_locks-IsDisjoint (execute w id raws s).1 ops (execute-IsDisjoint w id raws s h)
run_locks-IsDisjoint s (releases w id ∷ ops) h =
    run_locks-IsDisjoint (release_path_lock w id s).1 ops (release_path_lock-IsDisjoint w id s h)
