-- ===== src/Execution/PathLocks/Conflict.antt =====
-- A reported conflict is a real one: `findConflict` finds what `Acquire` refused.
use codex_runner.Prelude.{
  ◌≡◌, ◌⊎◌, refl, ◌∙◌, sym, ap, subst, Bool, true, false, List, [], ◌∷◌, none, some, Text,
  text_eq_iff, Result, ok, err, Bool-cases, inl, inr, arith,
}
use codex_runner.Domain.Values.{TaskId}
use codex_runner.Domain.NormalizedPath.{NormalizedPath}
use codex_runner.Execution.PathLocks.{
  PathLock, Locks, LockErr, World, contains, overlap_paths, overlaps, conflicts, is_dead, sort_out,
  scan, validate_stored_paths, active_locks, cons_lock, find_requested, find_owned, find_conflict,
}
use codex_runner.Execution.PathLocks.Exclusion.{validate_stored_paths-same}

-- A path of two lists.
find_requested-some :
    (owned : NormalizedPath) (requested : List NormalizedPath)
    → contains owned requested ≡ true
    → find_requested owned requested ≡ some owned
unfolding contains find_requested
find_requested-some owned [] h = cc
find_requested-some owned (p ∷ ps) h =
    ground (arith, find_requested-some owned ps, text_eq_iff p owned)

find_requested-none :
    (owned : NormalizedPath) (requested : List NormalizedPath)
    → contains owned requested ≡ false
    → find_requested owned requested ≡ none
unfolding contains find_requested
find_requested-none owned [] h = refl
find_requested-none owned (p ∷ ps) h = ground (arith, find_requested-none owned ps)

find_owned-none :
    (requested owned : List NormalizedPath)
    → overlap_paths requested owned ≡ false
    → find_owned requested owned ≡ none
unfolding overlap_paths find_owned
find_owned-none requested [] h = refl
find_owned-none requested (q ∷ qs) h =
    ground (arith, find_owned-none requested qs, find_requested-none q requested)

find_owned-some :
    (requested owned : List NormalizedPath)
    → overlap_paths requested owned ≡ true
    → (p : NormalizedPath) × (find_owned requested owned ≡ some p)
      × (contains p requested ≡ true)
      × (contains p owned ≡ true)
unfolding overlap_paths find_owned contains
find_owned-some requested [] h = cc
find_owned-some requested (q ∷ qs) h = elim (Bool-cases (contains q requested)) [
  | inl here ↦ (
    q,
    rw (find_owned, find_requested-some q requested here) refl,
    here,
    ground (arith, text_eq_iff q q),
  )
  | inr elsewhere ↦
      let (p, found, wanted, owns) = find_owned-some requested qs (ground arith) in
      (p, rw (find_owned, find_requested-none q requested elsewhere) found, wanted, ground arith)
]

-- A task has a path among the active locks, or among the entries of a store.
abbrev pub Holds : List PathLock → TaskId → NormalizedPath → Type 0
Holds [] id p = ⊥
Holds (l ∷ ls) id p = ((l.task_id ≡ id) × (contains p l.owned_paths ≡ true)) ⊎ Holds ls id p

abbrev pub Owns : Locks → TaskId → NormalizedPath → Type 0
Owns [] id p = ⊥
Owns ((j, ps) ∷ s) id p = ((j ≡ id) × (contains p ps ≡ true)) ⊎ Owns s id p

pub find_conflict-some :
    (c : PathLock) (active : List PathLock)
    → conflicts c active ≡ true
    → (id : TaskId) × (p : NormalizedPath) × (find_conflict c.owned_paths active ≡ some (id, p))
      × (contains p c.owned_paths ≡ true)
      × Holds active id p
unfolding conflicts overlaps find_conflict
find_conflict-some c [] h = cc
find_conflict-some c (l ∷ ls) h = elim (Bool-cases (overlap_paths c.owned_paths l.owned_paths)) [
  | inl here ↦
      let (p, found, wanted, owns) = find_owned-some c.owned_paths l.owned_paths here in
      (l.task_id, p, rw (find_conflict, found) refl, wanted, inl (refl, owns))
  | inr elsewhere ↦
      let (id, p, found, wanted, holds) = find_conflict-some c ls (ground arith) in
      (
        id,
        p,
        rw (find_conflict, find_owned-none c.owned_paths l.owned_paths elsewhere) found,
        wanted,
        inr holds,
      )
]

ok_same : {E A : Type 0} {r : Result E A} {a b : A} → r ≡ ok a → r ≡ ok b → a ≡ b
ok_same e f = cc

cons_lock-Holds :
    (j : TaskId) (ps : List Text) (s : Locks) (r : Result LockErr (List NormalizedPath))
    (q : Result LockErr (List PathLock)) (id : TaskId) (p : NormalizedPath) {active : List PathLock}
    → ((qs : List NormalizedPath) → r ≡ ok qs → qs ≡ ps)
    → ((locks : List PathLock) → q ≡ ok locks → Holds locks id p → Owns s id p)
    → cons_lock j r q ≡ ok active
    → Holds active id p
    → Owns ((j, ps) ∷ s) id p
cons_lock-Holds j ps s (err e) q id p f g k h = cc
cons_lock-Holds j ps s (ok qs) (err e) id p f g k h = cc
cons_lock-Holds j ps s (ok qs) (ok locks) id p f g k h =
    elim (subst (λ ls. Holds ls id p) (sym (ok_same refl k)) h) [
      | inl (here, owns) ↦ inl (here, subst (λ x. contains p x ≡ true) (f qs refl) owns)
      | inr later ↦ inr (g locks refl later)
    ]

pub active_locks-Owns :
    (s : Locks) (active : List PathLock) (id : TaskId) (p : NormalizedPath)
    → active_locks s ≡ ok active
    → Holds active id p
    → Owns s id p
unfolding active_locks
active_locks-Owns [] active id p e h = ground arith
active_locks-Owns ((j, ps) ∷ s) active id p e h =
    cons_lock-Holds j ps s (validate_stored_paths ps) (active_locks s) id p
      (validate_stored_paths-same ps) (λ locks f. active_locks-Owns s locks id p f) e h

-- The surviving entries are those of live tasks.
sort_out-Owns :
    (w : World) (j : TaskId) (ps : List Text) (s : Locks) (r : Result LockErr Bool)
    (q : Result LockErr (List TaskId × Locks)) (id : TaskId) (p : NormalizedPath)
    {stale : List TaskId} {survivors : Locks}
    → is_dead w j ≡ r
    → ((st : List TaskId) (sv : Locks)
        → q ≡ ok (st, sv)
        → Owns sv id p
        → (is_dead w id ≡ ok false) × Owns s id p)
    → sort_out (j, ps) r q ≡ ok (stale, survivors)
    → Owns survivors id p
    → (is_dead w id ≡ ok false) × Owns ((j, ps) ∷ s) id p
sort_out-Owns w j ps s (err e) q id p d k h o = cc
sort_out-Owns w j ps s (ok b) (err e) id p d k h o = cc
sort_out-Owns w j ps s (ok true) (ok (st, sv)) id p d k h o =
    let (alive, owns) =
      k st sv refl (subst (λ x. Owns x id p) (sym (ap (λ x. x.1) (ok_same refl h))) o) in
    (alive, inr owns)
sort_out-Owns w j ps s (ok false) (ok (st, sv)) id p d k h o =
    elim (subst (λ x. Owns x id p) (sym (ap (λ x. x.1) (ok_same refl h))) o) [
      | inl (here, owns) ↦ (ap (is_dead w) (sym here) ∙ d, inl (here, owns))
      | inr later ↦ let (alive, owns) = k st sv refl later in (alive, inr owns)
    ]

pub scan-Owns :
    (w : World) (s : Locks) (stale : List TaskId) (survivors : Locks) (id : TaskId)
    (p : NormalizedPath)
    → scan w s ≡ ok (stale, survivors)
    → Owns survivors id p
    → (is_dead w id ≡ ok false) × Owns s id p
unfolding scan
scan-Owns w [] stale survivors id p h o = ground arith
scan-Owns w ((j, ps) ∷ s) stale survivors id p h o =
    sort_out-Owns w j ps s (is_dead w j) (scan w s) id p refl
      (λ st sv e. scan-Owns w s st sv id p e) h o
