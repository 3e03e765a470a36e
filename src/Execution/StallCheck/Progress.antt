-- ===== src/Execution/StallCheck/Progress.antt =====
-- A dead task does not stay running: the check orphans it.
use codex_runner.Prelude.{
  ◌≡◌, ◌⊎◌, refl, ap, subst, true, false, not, ◌&&◌, [], ◌∷◌, text, ok, arith, inl, inr, text_eq,
}
use codex_runner.Domain.Enums.{running, stalled, orphaned}
use codex_runner.Domain.Values.{Time, is_zero_time}
use codex_runner.Domain.Task.{Task, detect_orphan, transition}
use codex_runner.Domain.Task.Events.{Event}
use codex_runner.Domain.Task.Operations.{Op, perform, run}
use codex_runner.Domain.Snapshot.{TaskSnapshot, restore, with_task, updated}
use codex_runner.Domain.Snapshot.Persistence.{IsLaunched, with_task-restored}
use codex_runner.Execution.StallCheck.{StallWorld, check_one, is_unowned, is_running, is_stalled}

detect_orphan-ok :
    (at : Time) (t : Task)
    → (t.state ≡ running) ⊎ (t.state ≡ stalled)
    → detect_orphan (text "running") at t
      ≡ (ok (Event.orphan_detected t.id (text "running") at ∷ []), record t { state = orphaned })
unfolding detect_orphan transition text_eq
detect_orphan-ok at t (inl h) = ground arith
detect_orphan-ok at t (inr h) = ground arith

orphan_saved :
    (s : TaskSnapshot) (t : Task) (at : Time)
    → IsLaunched s
    → restore s ≡ ok t
    → (t.state ≡ running) ⊎ (t.state ≡ stalled)
    → is_zero_time at ≡ false
    → with_task s (record t { state = orphaned }) at
      ≡ ok (updated s (record t { state = orphaned }) at)
unfolding run perform
orphan_saved s t at l r h now =
    subst (λ u. with_task s u at ≡ ok (updated s u at)) (ap (λ x. x.1) (detect_orphan-ok at t h))
      (with_task-restored s t (Op.detect_orphan (text "running") at ∷ []) at l r now)

is_checked :
    (t : Task)
    → (t.state ≡ running) ⊎ (t.state ≡ stalled)
    → (not (is_running t.state) && not (is_stalled t.state)) ≡ false
is_checked t (inl h) = ground arith
is_checked t (inr h) = ground arith

-- A launched task that runs or is stalled, whose snapshot can be restored, which has no owner and is
-- dead, is orphaned by the check: unless the store fails or the context is done, its stored snapshot
-- becomes the one of the task with the state orphaned.
pub check_one-orphans :
    (w : StallWorld) (s : TaskSnapshot) (t : Task)
    → IsLaunched s
    → restore s ≡ ok t
    → (t.state ≡ running) ⊎ (t.state ≡ stalled)
    → is_zero_time w.now ≡ false
    → w.load_fails ≡ false
    → is_unowned w ≡ true
    → w.liveness ≡ ok true
    → w.context_done ≡ false
    → w.save_fails ≡ false
    → (check_one w s).1 ≡ updated s (record t { state = orphaned }) w.now
unfolding check_one
check_one-orphans w s t l r h now loads free dead goes_on saves =
    simp
      (
        loads,
        r,
        is_checked t h,
        free,
        dead,
        goes_on,
        detect_orphan-ok w.now t h,
        orphan_saved s t w.now l r h now,
        saves,
      )
      refl
