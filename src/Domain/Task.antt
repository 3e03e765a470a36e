-- ===== src/Domain/Task.antt =====
-- internal/domain/task.go: the aggregate of one submitted command. A method on `*Task` is an
-- action of `Exec Err Task`; the events it emits are its result (`nil` is the empty list).
pub mod Events
pub mod Operations
pub mod Lifecycle
pub mod Invariant
pub mod History
use codex_runner.Prelude.{
  ℕ, Bool, true, false, not, ◌&&◌, ◌||◌, List, [], ◌∷◌, ◌++◌, Option, none, some, Text, text,
  text_eq, if◌then◌else◌, is_some, ℤ, Result, ok, err, Exec, pure, raise, lift, modify, ◌>>=◌, ◌>>◌,
  ◌==◌,
}
use codex_runner.Domain.Enums.{
  TaskState, queued, starting, running, stalled, completed, failed, recovering, recovered,
  timeout_lost, cancelling, killed, adopted, orphaned, lost, Subcommand, is_submittable, terminal,
  ExecutionRoute, RecoveryOrigin, unset, from_timeout, from_orphan, is_success, is_starting,
  is_adopted, is_orphaned, is_from_timeout, ProtocolVerb, no_output, abnormal_exit,
}
use codex_runner.Domain.Values.{
  Time, TaskId, Slug, SessionRef, Err, Timeout, zero_timeout, ExitCode, ProcessStartTime,
  new_process_start_time, not_submittable, task_already_terminal, invalid_state_transition,
  orphan_exit_not_estimated, invalid_detected_during, is_zero_time,
}
use Events
use Events.{Event}

pub record Task : Type 0 where
  pub id : TaskId
  pub subcommand : Subcommand
  pub slug : Slug
  pub requested_timeout : Option ℤ
  pub requested_at : Time
  pub state : TaskState
  pub queue_position : ℕ
  pub timeout : Timeout
  pub model : Text
  pub process_start_time : Option ProcessStartTime
  pub last_event_at : Time
  pub session_ref : Option SessionRef
  pub recovery_origin : RecoveryOrigin
  pub adopted_after_restart : Bool
  pub exit_code : Option ExitCode

-- The names of the table's events.
pub data EventName : Type 0 where
  task_queued task_started task_event_observed task_stalled task_exited task_timed_out : EventName
  recovery_attempted recovery_succeeded recovery_failed task_adopted : EventName
  task_orphan_detected task_cancel_requested task_killed : EventName

abbrev pub is_cancel_requested : EventName → Bool
is_cancel_requested task_cancel_requested = true
is_cancel_requested _ = false

abbrev Action : Type 0
Action = Exec Err Task (List Event)

unfoldable pub new_task :
    TaskId → Subcommand → Slug → Option ℤ → Time → ℕ → Result Err (Task × List Event)
new_task id subcommand slug requested requested_at position =
    if not (is_submittable subcommand)
    then err not_submittable
    else ok (
      record {
        id = id;
        subcommand = subcommand;
        slug = slug;
        requested_timeout = requested;
        requested_at = requested_at;
        state = queued;
        queue_position = position;
        timeout = zero_timeout;
        model = [];
        process_start_time = none;
        last_event_at = 0;
        session_ref = none;
        recovery_origin = unset;
        adopted_after_restart = false;
        exit_code = none;
      },
      Event.queued id subcommand slug requested position requested_at ∷ [],
    )

-- The map literal of `transition`: the events that each state accepts.
abbrev pub allowed : TaskState → EventName → Bool
allowed queued task_queued = true
allowed queued task_started = true
allowed queued task_cancel_requested = true
allowed starting task_exited = true
allowed starting task_adopted = true
allowed starting task_orphan_detected = true
allowed starting task_cancel_requested = true
allowed running task_event_observed = true
allowed running task_stalled = true
allowed running task_exited = true
allowed running task_timed_out = true
allowed running task_adopted = true
allowed running task_orphan_detected = true
allowed running task_cancel_requested = true
allowed stalled task_event_observed = true
allowed stalled task_stalled = true
allowed stalled task_exited = true
allowed stalled task_timed_out = true
allowed stalled task_adopted = true
allowed stalled task_orphan_detected = true
allowed stalled task_cancel_requested = true
allowed TaskState.timeout recovery_attempted = true
allowed recovering recovery_succeeded = true
allowed recovering recovery_failed = true
allowed cancelling task_cancel_requested = true
allowed cancelling task_killed = true
allowed adopted task_exited = true
allowed adopted task_orphan_detected = true
allowed adopted task_cancel_requested = true
allowed orphaned task_exited = true
allowed orphaned recovery_attempted = true
allowed orphaned task_cancel_requested = true
allowed _ _ = false

unfoldable pub transition : EventName → TaskState → Exec Err Task Unit
transition event destination t =
    if terminal t.state && is_cancel_requested event
    then (err task_already_terminal, t)
    else if not (allowed t.state event)
    then (err invalid_state_transition, t)
    else (ok tt, record t { state = destination })

unfoldable pub requeue : ℕ → Time → Action
unfolding transition
requeue position at t =
    (do
      transition task_queued queued
      modify (λ s. record s { queue_position = position })
      pure (Event.queued t.id t.subcommand t.slug t.requested_timeout position at ∷ []))
      t

unfoldable pub start : Timeout → Text → Time → Action
unfolding transition
start timeout model at = do
  transition task_started starting
  modify (λ s. record s { timeout = timeout; model = model })
  pure []

unfoldable pub record_process_info : ℤ → Time → Time → Action
unfolding new_process_start_time
record_process_info pid started_at at t =
    if not (is_starting t.state) || is_some t.process_start_time
    then (err invalid_state_transition, t)
    else (do
      process ← lift (new_process_start_time pid started_at)
      modify (λ s. record s { process_start_time = some process })
      pure (
          Event.started t.id process t.timeout.resolved_seconds t.model ExecutionRoute.daemon at
          ∷ []))
        t

unfoldable pub confirm_running : Time → Action
confirm_running at t =
    if is_starting t.state || is_adopted t.state
    then (ok [], record t { state = running })
    else (err invalid_state_transition, t)

unfoldable pub observe_event : Text → Time → Action
unfolding transition
observe_event event_type at t =
    (do
      transition task_event_observed running
      modify (λ s. record s { last_event_at = at })
      pure (Event.event_observed t.id event_type at ∷ []))
      t

-- the `lastEventAt` pointer: nil while no event was observed
abbrev pub time_pointer : Time → Option Time
time_pointer at = if is_zero_time at then none else some at

unfoldable pub mark_stalled : ℕ → Time → Action
unfolding transition
mark_stalled gap at t =
    (do
      transition task_stalled stalled
      pure (Event.stalled t.id (time_pointer t.last_event_at) gap at ∷ []))
      t

abbrev pub exit_destination : ExitCode → Bool → TaskState
exit_destination code present = if is_success code.class && present then completed else failed

-- the second event of `RecordExit`
abbrev pub exit_outcome : TaskId → ExitCode → Bool → Time → Event
exit_outcome id code present at =
    if is_success code.class && present
    then Event.completed id code at
    else Event.failed id code (if is_success code.class then no_output else abnormal_exit) at

unfoldable pub record_exit : ExitCode → Bool → Bool → Bool → Time → Action
unfolding transition
record_exit code present estimated adopted_flag at t =
    if is_orphaned t.state && not estimated
    then (err orphan_exit_not_estimated, t)
    else (do
      transition task_exited (exit_destination code present)
      modify (λ s. record s { exit_code = some code })
      pure (
          Event.exited t.id code present (if t.adopted_after_restart then true else estimated)
            (if t.adopted_after_restart then true else adopted_flag) at
          ∷ exit_outcome t.id code present at
          ∷ []))
        t

unfoldable pub mark_timed_out : Option SessionRef → Time → Action
unfolding transition
mark_timed_out session at t =
    (do
      transition task_timed_out TaskState.timeout
      modify (λ s. record s { session_ref = session })
      pure (Event.timed_out t.id t.timeout.resolved_seconds session at ∷ []))
      t

abbrev pub origin_of : TaskState → RecoveryOrigin
origin_of s = if is_orphaned s then from_orphan else from_timeout

unfoldable pub begin_recovery : Option SessionRef → Time → Action
unfolding transition
begin_recovery session at t =
    (do
      transition recovery_attempted recovering
      modify (λ s. record s { recovery_origin = origin_of t.state; session_ref = session })
      pure (Event.recovery_attempted t.id (origin_of t.state) session at ∷ []))
      t

unfoldable pub complete_recovery : ExitCode → Time → Action
unfolding transition
complete_recovery code at t =
    (do
      transition recovery_succeeded recovered
      modify (λ s. record s { exit_code = some code })
      pure (Event.recovery_succeeded t.id code at ∷ []))
      t

unfoldable pub fail_recovery : Bool → Time → Action
unfolding transition
fail_recovery partial at t =
    (do
      transition recovery_failed (if is_from_timeout t.recovery_origin then timeout_lost else lost)
      pure (Event.recovery_failed t.id t.recovery_origin partial at ∷ []))
      t

-- After the first transition the flag is set, and a second transition or a plain write follows.
unfoldable pub adopt : Bool → Time → Action
unfolding transition
adopt lock_acquired at t =
    (do
      transition task_adopted adopted
      modify (λ s. record s { adopted_after_restart = true })
      if lock_acquired
          then (do
            transition task_orphan_detected orphaned
            pure (
                Event.adopted t.id lock_acquired at
                ∷ Event.orphan_detected t.id (text "adopted") at
                ∷ []))
          else (do
            modify (λ s. record s { state = running })
            pure (Event.adopted t.id lock_acquired at ∷ [])))
      t

abbrev pub is_valid_detection : Text → Bool
is_valid_detection during =
    text_eq during (text "running")
    || text_eq during (text "starting")
    || text_eq during (text "adopted")

unfoldable pub detect_orphan : Text → Time → Action
unfolding transition
detect_orphan during at t =
    if not (is_valid_detection during)
    then (err invalid_detected_during, t)
    else (do
      transition task_orphan_detected orphaned
      pure (Event.orphan_detected t.id during at ∷ []))
        t

unfoldable pub request_cancel : Bool → Time → Action
unfolding transition
request_cancel force at t =
    (do
      transition task_cancel_requested cancelling
      pure (Event.cancel_requested t.id ProtocolVerb.cancel force at ∷ []))
      t

unfoldable pub confirm_killed : ExitCode → Bool → Time → Action
unfolding transition
confirm_killed code estimated at t =
    (do
      transition task_killed killed
      modify (λ s. record s { exit_code = some code })
      pure (Event.killed t.id code estimated at ∷ []))
      t
