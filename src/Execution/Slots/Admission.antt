-- ===== src/Execution/Slots/Admission.antt =====
-- internal/execution/usecase/admit.go: what one admission does, on every branch.
use codex_runner.Prelude.{
  ℕ, ◌+◌, ◌<◌, ◌≤◌, ◌≡◌, Bool, true, false, not, ◌&&◌, List, [], ◌∷◌, ◌++◌, Option, none, some,
  Text, length, leb, Result, ok, err,
}
use codex_runner.Prelude.Dict
use codex_runner.Domain.Enums.{is_impl, is_submittable, queued, ExecutionRoute}
use codex_runner.Domain.Values.{Err, queue_full, not_submittable, snapshot_invalid, Violation}
use codex_runner.Domain.Task.{Task, new_task}
use codex_runner.Domain.Task.Events.{Event}
use codex_runner.Domain.Snapshot.{TaskSnapshot, validate, task_snapshot_schema_version}
use codex_runner.Execution.Queue.{TaskLaunchPayload}
use codex_runner.Execution.Slots.{
  Limits, Slots, is_immediate, is_current, TaskAdmissionInput, TaskAdmissionResult,
  validate_admission_input,
}

-- The task that an admission makes, in the state queued and at its place in the queue.
pub record IsAdmitted (i : TaskAdmissionInput) (position : ℕ) (t : Task) : Type 0 where
  pub id : t.id ≡ i.task_id
  pub subcommand : t.subcommand ≡ i.subcommand
  pub requested_timeout : t.requested_timeout ≡ i.requested_timeout
  pub requested_at : t.requested_at ≡ i.requested_at
  pub state : t.state ≡ queued
  pub queue_position : t.queue_position ≡ position

-- What the launch of the task needs, as it was requested. The directory is the source's, except for an
-- impl task that gets a worktree of its own.
pub record IsPayload (i : TaskAdmissionInput) (t : Task) (p : TaskLaunchPayload) : Type 0 where
  pub task : p.task ≡ some t
  pub model : p.model ≡ i.model
  pub reasoning_effort : p.reasoning_effort ≡ i.reasoning_effort
  pub prompt_text : p.prompt_text ≡ i.prompt_text
  pub normalized_paths : p.normalized_paths ≡ i.normalized_paths
  pub resolved_timeout : p.resolved_timeout ≡ i.resolved_timeout
  pub sandbox_mode : p.sandbox_mode ≡ i.sandbox_mode
  pub source_working_dir : p.source_working_dir ≡ i.source_working_dir
  pub worktree_mode : p.worktree_mode ≡ i.worktree_mode
  pub output_schema_path : p.output_schema_path ≡ i.output_schema_path
  pub own_worktree :
      is_impl i.subcommand ≡ true → is_current i.worktree_mode ≡ false → p.working_dir ≡ none
  pub read_only : is_impl i.subcommand ≡ false → p.working_dir ≡ some i.source_working_dir
  pub in_place : is_current i.worktree_mode ≡ true → p.working_dir ≡ some i.source_working_dir

-- The snapshot of a task that was admitted and has no process yet.
abbrev pub queued_snapshot : TaskAdmissionInput → Option Text → TaskSnapshot
queued_snapshot i dir = record {
  task_id = i.task_id;
  subcommand = i.subcommand;
  pid = none;
  process_started_at = none;
  resolved_timeout_seconds = i.resolved_timeout.resolved_seconds;
  requested_timeout_seconds = i.requested_timeout;
  model = i.model;
  reasoning_effort = i.reasoning_effort;
  sandbox_mode = i.sandbox_mode;
  working_dir = dir;
  requested_at = i.requested_at;
  route = ExecutionRoute.daemon;
  state = queued;
  state_updated_at = i.requested_at;
  session_ref = none;
  last_event_at = none;
  exit_code = none;
  recovered = false;
  adopted_after_restart = false;
  recovery_origin = none;
  failure_code = none;
  schema_version = task_snapshot_schema_version;
}

-- The event of a submission.
abbrev pub submitted : TaskAdmissionInput → ℕ → List Event
submitted i position =
    Event.queued i.task_id i.subcommand i.slug i.requested_timeout position i.requested_at ∷ []

-- Why an admission is refused.
pub data Refusal (limits : Limits) (i : TaskAdmissionInput) (s : Slots) : Err → Type 0 where
  bad_input : (e : Err) → validate_admission_input i ≡ some e → Refusal limits i s e
  full :
      is_immediate limits s i.subcommand ≡ false
      → limits.queue_max_depth ≤ length s.queue + length s.promotions
      → Refusal limits i s queue_full
  no_task : is_submittable i.subcommand ≡ false → Refusal limits i s not_submittable
  bad_snapshot :
      (t : Task) (p : TaskLaunchPayload) (v : Violation)
      → is_immediate limits s i.subcommand ≡ true
      → IsPayload i t p
      → validate (queued_snapshot i p.working_dir) ≡ some v
      → Refusal limits i s (snapshot_invalid v)

-- What an admission returns and leaves: an error has a reason and leaves the slots, a task that starts
-- at once is in both registries, and a task that waits is the last of the queue.
pub data Outcome (limits : Limits) (i : TaskAdmissionInput) (s : Slots)
    : Result Err TaskAdmissionResult × Slots → Type 0 where
  refused : (e : Err) → Refusal limits i s e → Outcome limits i s (err e, s)
  started :
      (t : Task) (p : TaskLaunchPayload)
      → is_immediate limits s i.subcommand ≡ true
      → IsAdmitted i 1 t
      → IsPayload i t p
      → validate (queued_snapshot i p.working_dir) ≡ none
      → Outcome limits i s (
        ok (record {
          state = queued;
          queue_position = none;
          events = submitted i 1;
          launch_payload = some p;
        }),
        record s {
          reservations = Dict.put i.task_id i.subcommand s.reservations;
          launching = Dict.put i.task_id (queued_snapshot i p.working_dir) s.launching;
        },
      )
  waits :
      (t : Task) (p : TaskLaunchPayload)
      → is_immediate limits s i.subcommand ≡ false
      → length s.queue + length s.promotions < limits.queue_max_depth
      → IsAdmitted i (length s.queue + 1) t
      → IsPayload i t p
      → Outcome limits i s (
        ok (record {
          state = queued;
          queue_position = some (length s.queue + 1);
          events = submitted i (length s.queue + 1);
          launch_payload = none;
        }),
        record s { queue = s.queue ++ (p ∷ []) },
      )

abbrev Made : TaskAdmissionInput → ℕ → Result Err (Task × List Event)
Made i position = new_task i.task_id i.subcommand i.slug i.requested_timeout i.requested_at position

abbrev is_full : Limits → TaskAdmissionInput → Slots → Bool
is_full limits i s =
    not (is_immediate limits s i.subcommand)
    && leb limits.queue_max_depth (length s.queue + length s.promotions)
