-- ===== src/Domain/Task/Events.antt =====
-- internal/domain/event.go: the domain events, with their fields in the order of the structs.
use codex_runner.Prelude.{ℕ, ℤ, Bool, Option, Text}
use codex_runner.Domain.Enums.{Subcommand, ExecutionRoute, RecoveryOrigin, ProtocolVerb, FailReason}
use codex_runner.Domain.Values.{Time, TaskId, Slug, SessionRef, ExitCode, ProcessStartTime}

pub data Event : Type 0 where
  queued : TaskId → Subcommand → Slug → Option ℤ → ℕ → Time → Event
  started : TaskId → ProcessStartTime → ℤ → Text → ExecutionRoute → Time → Event
  event_observed : TaskId → Text → Time → Event
  stalled : TaskId → Option Time → ℕ → Time → Event
  exited : TaskId → ExitCode → Bool → Bool → Bool → Time → Event
  completed : TaskId → ExitCode → Time → Event
  failed : TaskId → ExitCode → FailReason → Time → Event
  timed_out : TaskId → ℤ → Option SessionRef → Time → Event
  recovery_attempted : TaskId → RecoveryOrigin → Option SessionRef → Time → Event
  recovery_succeeded : TaskId → ExitCode → Time → Event
  recovery_failed : TaskId → RecoveryOrigin → Bool → Time → Event
  adopted : TaskId → Bool → Time → Event
  orphan_detected : TaskId → Text → Time → Event
  cancel_requested : TaskId → ProtocolVerb → Bool → Time → Event
  killed : TaskId → ExitCode → Bool → Time → Event
