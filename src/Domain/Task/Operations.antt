-- ===== src/Domain/Task/Operations.antt =====
-- The methods of `*Task` as one family of operations, so that a history is a list of them.
use codex_runner.Prelude.{ℕ, ℤ, Bool, List, [], ◌∷◌, Option, Text, Exec}
use codex_runner.Domain.Values.{Time, SessionRef, Err, Timeout, ExitCode}
use codex_runner.Domain.Task.Events.{Event}
use codex_runner.Domain.Task
use codex_runner.Domain.Task.{Task}

pub data Op : Type 0 where
  requeue : ℕ → Time → Op
  start : Timeout → Text → Time → Op
  record_process_info : ℤ → Time → Time → Op
  confirm_running : Time → Op
  observe_event : Text → Time → Op
  mark_stalled : ℕ → Time → Op
  record_exit : ExitCode → Bool → Bool → Bool → Time → Op
  mark_timed_out : Option SessionRef → Time → Op
  begin_recovery : Option SessionRef → Time → Op
  complete_recovery : ExitCode → Time → Op
  fail_recovery : Bool → Time → Op
  adopt : Bool → Time → Op
  detect_orphan : Text → Time → Op
  request_cancel : Bool → Time → Op
  confirm_killed : ExitCode → Bool → Time → Op

-- The line opens every method for the proofs that step an operation.
unfoldable pub perform : Op → Exec Err Task (List Event)
unfolding Task.requeue Task.start Task.record_process_info Task.confirm_running Task.observe_event
    Task.mark_stalled Task.record_exit Task.mark_timed_out Task.begin_recovery
    Task.complete_recovery Task.fail_recovery Task.adopt Task.detect_orphan Task.request_cancel
    Task.confirm_killed
perform (requeue position at) = Task.requeue position at
perform (start limit model at) = Task.start limit model at
perform (record_process_info pid started at) = Task.record_process_info pid started at
perform (confirm_running at) = Task.confirm_running at
perform (observe_event type at) = Task.observe_event type at
perform (mark_stalled gap at) = Task.mark_stalled gap at
perform (record_exit code present estimated flag at) =
    Task.record_exit code present estimated flag at
perform (mark_timed_out session at) = Task.mark_timed_out session at
perform (begin_recovery session at) = Task.begin_recovery session at
perform (complete_recovery code at) = Task.complete_recovery code at
perform (fail_recovery partial at) = Task.fail_recovery partial at
perform (adopt acquired at) = Task.adopt acquired at
perform (detect_orphan during at) = Task.detect_orphan during at
perform (request_cancel force at) = Task.request_cancel force at
perform (confirm_killed code estimated at) = Task.confirm_killed code estimated at

-- A history: an operation that fails is reported to its caller, and the task goes on.
unfoldable pub run : Task → List Op → Task
run t [] = t
run t (op ∷ ops) = run (perform op t).1 ops
