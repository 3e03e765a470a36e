-- ===== src/Domain/Task/Lifecycle.antt =====
-- The life cycle of a task: the edges between states, what is terminal, and what a failed
-- operation leaves.
use codex_runner.Prelude.{
  ◌≡◌, refl, ◌≢◌, Bool, true, false, List, [], ◌∷◌, Option, ok, err, arith, inl, inr, Result-cases,
}
use codex_runner.Domain.Enums.{
  TaskState, queued, starting, running, stalled, completed, failed, recovering, recovered,
  timeout_lost, cancelling, killed, adopted, orphaned, lost, terminal, is_known_task_state,
}
use codex_runner.Domain.Values.{Time, Err, ExitCode, SessionRef, task_already_terminal}
use codex_runner.Domain.Task
use codex_runner.Domain.Task.{Task}
use codex_runner.Domain.Task.Events.{Event}
use codex_runner.Domain.Task.Operations.{Op, perform, run}

-- A state in which the child process may be running.
pub data IsLive : TaskState → Type 0 where
  live_starting : IsLive starting
  live_running : IsLive running
  live_stalled : IsLive stalled

-- The diagram of the life cycle.
infix 40 ◌⟶◌
pub data ◌⟶◌ : TaskState → TaskState → Type 0 where
  requeues : queued ⟶ queued
  starts : queued ⟶ starting
  process_known : starting ⟶ starting
  confirms : starting ⟶ running
  confirms_adopted : adopted ⟶ running
  observes : running ⟶ running
  observes_again : stalled ⟶ running
  stalls : running ⟶ stalled
  still_stalled : stalled ⟶ stalled
  completes : {s : TaskState} → IsLive s → s ⟶ completed
  fails : {s : TaskState} → IsLive s → s ⟶ failed
  completes_adopted : adopted ⟶ completed
  fails_adopted : adopted ⟶ failed
  completes_orphaned : orphaned ⟶ completed
  fails_orphaned : orphaned ⟶ failed
  times_out : running ⟶ TaskState.timeout
  times_out_stalled : stalled ⟶ TaskState.timeout
  recovers : TaskState.timeout ⟶ recovering
  recovers_orphaned : orphaned ⟶ recovering
  recovery_succeeds : recovering ⟶ recovered
  recovery_times_out : recovering ⟶ timeout_lost
  recovery_loses : recovering ⟶ lost
  adopts : {s : TaskState} → IsLive s → s ⟶ running
  orphans : {s : TaskState} → IsLive s → s ⟶ orphaned
  orphans_adopted : adopted ⟶ orphaned
  cancels_queued : queued ⟶ cancelling
  cancels : {s : TaskState} → IsLive s → s ⟶ cancelling
  cancels_adopted : adopted ⟶ cancelling
  cancels_orphaned : orphaned ⟶ cancelling
  cancels_again : cancelling ⟶ cancelling
  kills : cancelling ⟶ killed

ruleset edges = (
  requeues, starts, process_known, confirms, confirms_adopted, observes, observes_again, stalls,
  still_stalled, completes, fails, completes_adopted, fails_adopted, completes_orphaned,
  fails_orphaned, times_out, times_out_stalled, recovers, recovers_orphaned, recovery_succeeds,
  recovery_times_out, recovery_loses, adopts, orphans, orphans_adopted, cancels_queued, cancels,
  cancels_adopted, cancels_orphaned, cancels_again, kills,
)

ruleset live = (live_starting, live_running, live_stalled)

-- Every operation that returns no error moves the task along an edge of the diagram.
pub perform-⟶ :
    (op : Op) (t : Task) {events : List Event}
    → (perform op t).0 ≡ ok events
    → t.state ⟶ (perform op t).1.state
unfolding perform
perform-⟶ (Op.adopt true at) t h = grind (arith, edges, live)
perform-⟶ (Op.adopt false at) t h = grind (arith, edges, live)
perform-⟶ _ t h = grind (arith, edges, live)

-- An operation that returns an error leaves the task exactly as it was.
pub perform_error_unchanged :
    (op : Op) (t : Task) {e : Err} → (perform op t).0 ≡ err e → (perform op t).1 ≡ t
unfolding perform
perform_error_unchanged (Op.adopt true at) t h = ground arith
perform_error_unchanged (Op.adopt false at) t h = ground arith
perform_error_unchanged _ t h = ground arith

-- In a terminal state every operation returns an error.
perform-terminal_fails :
    (op : Op) (t : Task) {events : List Event}
    → terminal t.state ≡ true
    → (perform op t).0 ≢ ok events
unfolding perform
perform-terminal_fails (Op.adopt true at) t h = ground arith
perform-terminal_fails (Op.adopt false at) t h = ground arith
perform-terminal_fails _ t h = ground arith

terminal_unchanged : (op : Op) (t : Task) → terminal t.state ≡ true → (perform op t).1 ≡ t
terminal_unchanged op t h = elim (Result-cases (perform op t).0) [
  | inl (events, e) ↦ absurd (perform-terminal_fails op t h e)
  | inr (x, e) ↦ perform_error_unchanged op t e
]

-- A cancellation of a terminal task has its own error.
cancel_terminal :
    (force : Bool) (at : Time) (t : Task)
    → terminal t.state ≡ true
    → Task.request_cancel force at t ≡ (err task_already_terminal, t)
unfolding perform
cancel_terminal force at t h = ground arith

-- Once terminal, always the same: no history of operations changes anything of a task in a
-- terminal state.
pub terminal_absorbs : (t : Task) (ops : List Op) → terminal t.state ≡ true → run t ops ≡ t
unfolding run
terminal_absorbs t [] h = refl
terminal_absorbs t (op ∷ ops) h =
    let same = terminal_unchanged op t h in rw same (terminal_absorbs t ops h)

-- A task is never stuck: cancelling it, confirming the kill, and then a recovery that succeeds end
-- it in a terminal state, from every state of the constants and with any arguments.
pub finish_schedule :
    (t : Task) (force estimated : Bool) (code code' : ExitCode) (session : Option SessionRef)
    (a b c d : Time)
    → is_known_task_state t.state ≡ true
    → terminal
        (run t (
          Op.request_cancel force a
          ∷ Op.confirm_killed code estimated b
          ∷ Op.begin_recovery session c
          ∷ Op.complete_recovery code' d
          ∷ [])).state
      ≡ true
unfolding run perform
finish_schedule t force estimated code code' session a b c d h = ground arith
