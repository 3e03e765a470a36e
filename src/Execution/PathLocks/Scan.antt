-- ===== src/Execution/PathLocks/Scan.antt =====
-- The search for stale locks: what is deleted, and what is left.
use codex_runner.Prelude.{
  ◌≡◌, refl, ◌∙◌, sym, ap, Bool, true, false, List, [], ◌∷◌, Text, text_eq_refl, text_eq-false, All,
  ◌≢◌, Result, ok, err, arith,
}
use codex_runner.Prelude.Dict
use codex_runner.Prelude.Dict.{AllValues}
use codex_runner.Domain.Values.{TaskId}
use codex_runner.Execution.PathLocks.{Locks, LockErr, World, is_dead, sort_out, scan, without}

-- Deletions of other tasks leave an entry.
without_kept :
    (id : TaskId) (ps : List Text) (ids : List TaskId) (s : Locks)
    → All (λ j. j ≢ id) ids
    → without ids ((id, ps) ∷ s) ≡ (id, ps) ∷ without ids s
unfolding without Dict.delete
without_kept id ps [] s h = refl
without_kept id ps (j ∷ ids) s h =
    rw (text_eq-false id j (λ e. h.0 (sym e))) (without_kept id ps ids (Dict.delete j s) h.1)

sort_out-stale :
    (w : World) (id : TaskId) (ps : List Text) (r : Result LockErr Bool)
    (q : Result LockErr (List TaskId × Locks)) {stale : List TaskId} {survivors : Locks}
    → is_dead w id ≡ r
    → ((st : List TaskId) (sv : Locks) → q ≡ ok (st, sv) → All (λ j. is_dead w j ≡ ok true) st)
    → sort_out (id, ps) r q ≡ ok (stale, survivors)
    → All (λ j. is_dead w j ≡ ok true) stale
sort_out-stale w id ps (err e) q d k h = cc
sort_out-stale w id ps (ok b) (err e) d k h = cc
sort_out-stale w id ps (ok true) (ok (st, sv)) d k h = ground (arith, k st sv refl)
sort_out-stale w id ps (ok false) (ok (st, sv)) d k h = ground (arith, k st sv refl)

pub scan-stale :
    (w : World) (s : Locks) (stale : List TaskId) (survivors : Locks)
    → scan w s ≡ ok (stale, survivors)
    → All (λ j. is_dead w j ≡ ok true) stale
unfolding scan
scan-stale w [] stale survivors h = ground arith
scan-stale w ((id, ps) ∷ s) stale survivors h =
    sort_out-stale w id ps (is_dead w id) (scan w s) refl (scan-stale w s) h

pub others_of :
    (w : World) (id : TaskId) (stale : List TaskId)
    → is_dead w id ≡ ok false
    → All (λ j. is_dead w j ≡ ok true) stale
    → All (λ j. j ≢ id) stale
others_of w id [] d h = tt
others_of w id (j ∷ js) d h =
    (λ e. absurd_of (is_dead w id) d (ap (is_dead w) (sym e) ∙ h.0), others_of w id js d h.1)
  where
    absurd_of : (r : Result LockErr Bool) → r ≡ ok false → r ≡ ok true → ⊥
    absurd_of r e f = cc

sort_out-without :
    (w : World) (id : TaskId) (ps : List Text) (s : Locks) (r : Result LockErr Bool)
    (q : Result LockErr (List TaskId × Locks)) {stale : List TaskId} {survivors : Locks}
    → is_dead w id ≡ r
    → scan w s ≡ q
    → ((st : List TaskId) (sv : Locks) → scan w s ≡ ok (st, sv) → without st s ≡ sv)
    → sort_out (id, ps) r q ≡ ok (stale, survivors)
    → without stale ((id, ps) ∷ s) ≡ survivors
unfolding without Dict.delete
sort_out-without w id ps s (err e) q d m k h = cc
sort_out-without w id ps s (ok b) (err e) d m k h = cc
sort_out-without w id ps s (ok true) (ok (st, sv)) d m k h =
    ground (arith, k st sv m, text_eq_refl id)
sort_out-without w id ps s (ok false) (ok (st, sv)) d m k h =
    ground
      (arith, k st sv m, without_kept id ps st s (others_of w id st d (scan-stale w s st sv m)))

-- The store without the stale tasks is the list of survivors.
pub scan-without :
    (w : World) (s : Locks) (stale : List TaskId) (survivors : Locks)
    → scan w s ≡ ok (stale, survivors)
    → without stale s ≡ survivors
unfolding scan
scan-without w [] stale survivors h = unfold without in ground arith
scan-without w ((id, ps) ∷ s) stale survivors h =
    sort_out-without w id ps s (is_dead w id) (scan w s) refl refl (scan-without w s) h
