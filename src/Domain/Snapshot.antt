-- ===== src/Domain/Snapshot.antt =====
-- internal/domain/tasksnapshot.go: the persisted form of a task. A pointer field is an `Option`.
pub mod Validity
pub mod RoundTrip
pub mod Persistence
use codex_runner.Prelude.{
  ℕ, ℤ, pos, below, Bool, true, false, not, ◌&&◌, ◌||◌, List, [], ◌∷◌, Option, none, some, Text,
  text, text_eq, ◌==◌, leb, if◌then◌else◌, is_some, is_none, bool_eq, Result, ok, err,
}
use codex_runner.Domain.Enums.{
  TaskState, queued, running, stalled, completed, failed, recovering, recovered, timeout_lost,
  cancelling, killed, lost, Subcommand, is_submittable, SandboxMode, is_valid_sandbox_mode,
  is_known_task_state, ExecutionRoute, is_daemon, RecoveryOrigin, unset, is_known_origin,
  origin_pointer, terminal, in_lineage, is_recovered, is_failed,
}
use codex_runner.Domain.Values.{
  Time, is_zero_time, TaskId, Slug, SessionRef, Err, Violation, task_id_empty, unknown_subcommand,
  model_empty, unknown_sandbox_mode, unknown_state, route_not_daemon, process_fields_apart,
  pid_not_positive, process_started_at_zero, requested_timeout_below_minimum,
  resolved_timeout_below_minimum, unknown_recovery_origin, process_info_required,
  exit_code_not_terminal, recovered_inconsistent, recovery_origin_inconsistent, timestamp_zero,
  unsupported_schema_version, failure_code_misplaced, unknown_failure_code,
  working_dir_in_version_2, working_dir_required, working_dir_invalid, snapshot_invalid,
  timeout_min_seconds, requested_below_min, Timeout, new_timeout, ExitCode, ProcessStartTime,
  new_process_start_time,
}
use codex_runner.Domain.Identifiers.{slug_from_task_id}
use codex_runner.Domain.NormalizedPath.{new_normalized_path}
use codex_runner.Domain.Task
use codex_runner.Domain.Task.{Task, time_pointer}

abbrev pub task_snapshot_schema_version : ℕ
task_snapshot_schema_version = 4

abbrev pub working_dir_task_snapshot_schema_version : ℕ
working_dir_task_snapshot_schema_version = 3

abbrev pub previous_task_snapshot_schema_version : ℕ
previous_task_snapshot_schema_version = 2

pub data FailureCode : Type 0 where
  liveness_lock_io_error contract_write_failed worktree_create_failed : FailureCode
  pty_allocation_failed child_process_launch_failed : FailureCode
  other : Text → FailureCode

abbrev pub is_known_failure_code : FailureCode → Bool
is_known_failure_code (FailureCode.other s) = false
is_known_failure_code _ = true

pub record TaskSnapshot : Type 0 where
  pub task_id : TaskId
  pub subcommand : Subcommand
  pub pid : Option ℤ
  pub process_started_at : Option Time
  pub resolved_timeout_seconds : ℤ
  pub requested_timeout_seconds : Option ℤ
  pub model : Text
  pub reasoning_effort : Option Text
  pub sandbox_mode : SandboxMode
  pub working_dir : Option Text
  pub requested_at : Time
  pub route : ExecutionRoute
  pub state : TaskState
  pub state_updated_at : Time
  pub session_ref : Option SessionRef
  pub last_event_at : Option Time
  pub exit_code : Option ExitCode
  pub recovered : Bool
  pub adopted_after_restart : Bool
  pub recovery_origin : Option RecoveryOrigin
  pub failure_code : Option FailureCode
  pub schema_version : ℕ

abbrev pub supports_working_dir : TaskSnapshot → Bool
supports_working_dir s = leb working_dir_task_snapshot_schema_version s.schema_version

abbrev pub supports_failure_code : TaskSnapshot → Bool
supports_failure_code s = s.schema_version == task_snapshot_schema_version

-- the map `requires` of `Validate`
abbrev pub requires_process : TaskState → Bool
requires_process running = true
requires_process stalled = true
requires_process TaskState.timeout = true
requires_process recovering = true
requires_process TaskState.recovered = true
requires_process timeout_lost = true
requires_process lost = true
requires_process completed = true
requires_process _ = false

-- the switch of `allowsUnresolvedWorkingDir`
abbrev pub may_lack_working_dir : TaskState → Bool
may_lack_working_dir queued = true
may_lack_working_dir cancelling = true
may_lack_working_dir killed = true
may_lack_working_dir failed = true
may_lack_working_dir _ = false

abbrev pub allows_unresolved_working_dir : TaskSnapshot → Bool
allows_unresolved_working_dir s =
    not (is_some s.pid || is_some s.process_started_at) && may_lack_working_dir s.state

-- Tests of a pointer's target, false at nil.
abbrev pub holds {ℓ} : {A : Type ℓ} → (A → Bool) → Option A → Bool
holds p none = false
holds p (some a) = p a

-- `err != nil` of `NewNormalizedPath`
abbrev pub is_bad_path : Text → Bool
is_bad_path value = elim (new_normalized_path value) [ ok path ↦ false | err e ↦ true ]

-- The tests of `Validate` in their order, each with the violation that its `return` reports.
unfoldable pub checks : TaskSnapshot → List (Bool × Violation)
checks s =
    (text_eq s.task_id [], task_id_empty)
    ∷ (not (is_submittable s.subcommand), unknown_subcommand)
    ∷ (text_eq s.model [], model_empty)
    ∷ (not (is_valid_sandbox_mode s.sandbox_mode), unknown_sandbox_mode)
    ∷ (not (is_known_task_state s.state), unknown_state)
    ∷ (not (is_daemon s.route), route_not_daemon)
    ∷ (not (bool_eq (is_none s.pid) (is_none s.process_started_at)), process_fields_apart)
    ∷ (holds (λ n. below n 1) s.pid, pid_not_positive)
    ∷ (holds is_zero_time s.process_started_at, process_started_at_zero)
    ∷ (requested_below_min s.requested_timeout_seconds, requested_timeout_below_minimum)
    ∷ (below s.resolved_timeout_seconds timeout_min_seconds, resolved_timeout_below_minimum)
    ∷ (holds (λ o. not (is_known_origin o)) s.recovery_origin, unknown_recovery_origin)
    ∷ (
      requires_process s.state
          && is_none s.pid
          && not s.adopted_after_restart
          && not (terminal s.state && is_some s.exit_code),
      process_info_required,
    )
    ∷ (is_some s.exit_code && not (terminal s.state), exit_code_not_terminal)
    ∷ (not (bool_eq s.recovered (is_recovered s.state)), recovered_inconsistent)
    ∷ (not (bool_eq (is_some s.recovery_origin) (in_lineage s.state)), recovery_origin_inconsistent)
    ∷ (is_zero_time s.requested_at || is_zero_time s.state_updated_at, timestamp_zero)
    ∷ (
      not (
          s.schema_version == previous_task_snapshot_schema_version
          || s.schema_version == working_dir_task_snapshot_schema_version
          || s.schema_version == task_snapshot_schema_version),
      unsupported_schema_version,
    )
    ∷ (
      is_some s.failure_code
          && (not (s.schema_version == task_snapshot_schema_version)
              || not (is_failed s.state)
              || is_some s.pid),
      failure_code_misplaced,
    )
    ∷ (holds (λ c. not (is_known_failure_code c)) s.failure_code, unknown_failure_code)
    ∷ (
      s.schema_version == previous_task_snapshot_schema_version && is_some s.working_dir,
      working_dir_in_version_2,
    )
    ∷ (
      not (s.schema_version == previous_task_snapshot_schema_version)
          && is_none s.working_dir
          && not (allows_unresolved_working_dir s),
      working_dir_required,
    )
    ∷ (
      not (s.schema_version == previous_task_snapshot_schema_version)
          && holds is_bad_path s.working_dir,
      working_dir_invalid,
    )
    ∷ []

abbrev pub first_violation : List (Bool × Violation) → Option Violation
first_violation [] = none
first_violation ((broken, v) ∷ rest) = if broken then some v else first_violation rest

-- `none` is the nil error.
unfoldable pub validate : TaskSnapshot → Option Violation
unfolding checks
validate s = first_violation (checks s)

abbrev pub validated : TaskSnapshot → Option Violation → Result Err TaskSnapshot
validated s none = ok s
validated s (some v) = err (snapshot_invalid v)

unfoldable pub new_task_snapshot_from_admission :
    Task
    → Timeout
    → Text
    → Option Text
    → SandboxMode
    → Option Text
    → ExecutionRoute
    → Time
    → Result Err TaskSnapshot
unfolding validate
new_task_snapshot_from_admission t limit model effort sandbox dir route at =
    let s : TaskSnapshot = record {
      task_id = t.id;
      subcommand = t.subcommand;
      pid = none;
      process_started_at = none;
      resolved_timeout_seconds = limit.resolved_seconds;
      requested_timeout_seconds = t.requested_timeout;
      model = model;
      reasoning_effort = effort;
      sandbox_mode = sandbox;
      working_dir = dir;
      requested_at = t.requested_at;
      route = route;
      state = t.state;
      state_updated_at = at;
      session_ref = none;
      last_event_at = none;
      exit_code = none;
      recovered = false;
      adopted_after_restart = false;
      recovery_origin = none;
      failure_code = none;
      schema_version = task_snapshot_schema_version;
    } in
    validated s (validate s)

-- `s.PID != nil`: the process of the snapshot, or nil.
unfoldable pub restore_process : Option ℤ → Option Time → Result Err (Option ProcessStartTime)
restore_process none at = ok none
restore_process (some pid) none = err (Err.panicked (text "nil pointer"))
restore_process (some pid) (some at) = elim (new_process_start_time pid at) [
  | ok p ↦ ok (some p)
  | err e ↦ err e
]

abbrev pub value_or {ℓ} : {A : Type ℓ} → A → Option A → A
value_or d none = d
value_or d (some a) = a

infixl 5 ◌>>=◌
abbrev pub ◌>>=◌ : {A B : Type 0} → Result Err A → (A → Result Err B) → Result Err B
ok a >>= f = f a
err e >>= f = err e

abbrev pub fail_on : Option Violation → Result Err Unit
fail_on none = ok tt
fail_on (some v) = err (snapshot_invalid v)

-- The task that `Restore` builds. The queue position is not saved.
abbrev pub restored : TaskSnapshot → Slug → Timeout → Option ProcessStartTime → Task
restored s slug limit process = record {
  id = s.task_id;
  subcommand = s.subcommand;
  slug = slug;
  requested_timeout = s.requested_timeout_seconds;
  requested_at = s.requested_at;
  state = s.state;
  queue_position = 0;
  timeout = limit;
  model = s.model;
  process_start_time = process;
  last_event_at = value_or 0 s.last_event_at;
  session_ref = s.session_ref;
  recovery_origin = value_or unset s.recovery_origin;
  adopted_after_restart = s.adopted_after_restart;
  exit_code = s.exit_code;
}

unfoldable pub restore : TaskSnapshot → Result Err Task
unfolding validate restore_process
restore s = do
  _ ← fail_on (validate s)
  slug ← slug_from_task_id s.task_id
  limit ← new_timeout s.requested_timeout_seconds s.resolved_timeout_seconds
  process ← restore_process s.pid s.process_started_at
  ok (restored s slug limit process)

abbrev pub process_pid : Option ProcessStartTime → Option ℤ
process_pid none = none
process_pid (some p) = some p.pid

abbrev pub process_start : Option ProcessStartTime → Option Time
process_start none = none
process_start (some p) = some p.started_at

-- The snapshot of `WithTask` before it is validated.
abbrev pub updated : TaskSnapshot → Task → Time → TaskSnapshot
updated s t at = record s {
  task_id = t.id;
  subcommand = t.subcommand;
  state = t.state;
  state_updated_at = at;
  model = t.model;
  requested_timeout_seconds = t.timeout.requested_seconds;
  resolved_timeout_seconds = t.timeout.resolved_seconds;
  requested_at = t.requested_at;
  pid = process_pid t.process_start_time;
  process_started_at = process_start t.process_start_time;
  session_ref = t.session_ref;
  last_event_at = time_pointer t.last_event_at;
  exit_code = t.exit_code;
  adopted_after_restart = t.adopted_after_restart;
  recovery_origin = origin_pointer t.recovery_origin;
  recovered = s.recovered || is_recovered t.state;
}

unfoldable pub with_task : TaskSnapshot → Task → Time → Result Err TaskSnapshot
unfolding validate
with_task s t at = validated (updated s t at) (validate (updated s t at))
