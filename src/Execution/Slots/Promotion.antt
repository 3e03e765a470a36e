-- ===== src/Execution/Slots/Promotion.antt =====
-- internal/execution/usecase/advance.go: the head of the queue gets the slot of a task that ended.
use codex_runner.Prelude.{
  ℕ, Bool, not, Option, none, some, text, if◌then◌else◌, ok, err, Exec, pure, raise, modify, ◌>>=◌,
  ◌>>◌,
}
use codex_runner.Domain.Enums.{is_queued}
use codex_runner.Domain.Values.{Time, TaskId, Err, invalid_state_transition, context_done, panicked}
use codex_runner.Domain.Task.{Task}
use codex_runner.Domain.Snapshot.{TaskSnapshot}
use codex_runner.Execution.Queue.{TaskLaunchPayload, dequeue, prepend, reindex}
use codex_runner.Execution.Slots.{
  Limits, Slots, add, remove, register, unregister, reserve, is_promoted, resolve, on_queue,
  has_slot, fail_if, admission_snapshot,
}

-- `ctx.Err()` is read six times; whether the context is done at each reading is up to its owner.
abbrev pub Context : Type 0
Context = ℕ → Bool

abbrev check_context : Context → ℕ → Option Err
check_context done i = if done i then some context_done else none

-- `Prepend`, then the call's error or, with none, the result `found == false`.
abbrev pub put_back : TaskLaunchPayload → Option Err → Exec Err Slots (Option TaskLaunchPayload)
put_back p e = do on_queue (prepend p); fail_if e; pure none

-- The head of the queue gets its slot, unless the context ends on the way.
unfoldable pub promote :
    Context
    → Time
    → TaskLaunchPayload
    → Task
    → TaskSnapshot
    → Exec Err Slots (Option TaskLaunchPayload)
promote done now p t snapshot = do
  modify (add t.id t.subcommand)
  if done 4
      then (do
        modify (remove t.id)
        on_queue (prepend p)
        on_queue (reindex now)
        raise context_done)
      else (do
        modify (register t.id snapshot)
        if done 5
            then (do
              modify (λ s. remove t.id (unregister t.id s))
              on_queue (prepend p)
              on_queue (reindex now)
              raise context_done)
            else (do modify (reserve t.id); on_queue (reindex now); pure (some p)))

-- The decision on the dequeued head.
unfoldable pub admit_head :
    Limits
    → Context
    → Time
    → TaskLaunchPayload
    → Option Task
    → Exec Err Slots (Option TaskLaunchPayload)
unfolding promote
admit_head limits done now p none s = (err (panicked (text "nil task")), s)
admit_head limits done now p (some t) s =
    if not (is_queued t.state)
    then (err invalid_state_transition, s)
    else if not (has_slot limits s t.subcommand)
    then put_back p none s
    else if done 3
    then put_back p (some context_done) s
    else elim (admission_snapshot p t) [
      | err e ↦ put_back p (some e) s
      | ok snapshot ↦ promote done now p t snapshot s
    ]

abbrev pub admit_found :
    Limits → Context → Time → Option TaskLaunchPayload → Exec Err Slots (Option TaskLaunchPayload)
admit_found limits done now none s = (ok none, s)
admit_found limits done now (some p) s = admit_head limits done now p p.task s

-- `AdvanceQueueUseCase.Execute`: the reservation of the task that ended goes, and the head of the
-- queue is chosen if it may run. `none` is the result `false`.
unfoldable pub advance :
    Limits → Context → TaskId → Time → Exec Err Slots (Option TaskLaunchPayload)
unfolding admit_head
advance limits done id now = do
  fail_if (check_context done 0)
  fail_if (check_context done 1)
  modify (remove id)
  fail_if (check_context done 2)
  found ← on_queue dequeue
  admit_found limits done now found

abbrev pub give_back : TaskLaunchPayload → Task → Time → Exec Err Slots Unit
give_back p t now = do
  modify (λ s. remove t.id (unregister t.id (resolve t.id s)))
  on_queue (prepend p)
  on_queue (reindex now)
  pure tt

abbrev pub compensate_task : TaskLaunchPayload → Time → Option Task → Exec Err Slots Unit
compensate_task p now none s = (ok tt, s)
compensate_task p now (some t) s =
    if not (is_promoted t.id s) then (ok tt, s) else give_back p t now s

-- `CompensateRejectedStart` of the advance: only an unresolved promotion goes back to the queue.
unfoldable pub compensate_promotion : TaskLaunchPayload → Time → Exec Err Slots Unit
compensate_promotion p now = compensate_task p now p.task

abbrev pub commit_task : Option Task → Slots → Slots
commit_task none s = s
commit_task (some t) s = resolve t.id s

unfoldable pub commit_start : TaskLaunchPayload → Slots → Slots
commit_start p s = commit_task p.task s
