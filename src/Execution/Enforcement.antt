-- ===== src/Execution/Enforcement.antt =====
-- internal/execution/timeout.go and internal/recovery/process_signal_authority.go: what is done when a
-- task has run too long, as the list of steps that Execution/Signalling.antt gives, in their order.
pub mod Persisting
pub mod Authority
pub mod Steps
pub mod Signals
pub mod Settling
use codex_runner.Prelude.{
  ℕ, ℤ, pos, negsuc, Bool, true, false, not, ◌&&◌, ◌||◌, List, [], ◌∷◌, ◌++◌, Option, none, some,
  Text, text_eq, ◌==◌, if◌then◌else◌, Result, ok, err, is_some, below,
}
use codex_runner.Domain.Enums.{TaskState, timeout, cancelling, Subcommand, is_impl}
use codex_runner.Domain.Values.{Time, is_zero_time, TaskId, SessionRef, Err}
use codex_runner.Domain.Task.{Task, mark_timed_out}
use codex_runner.Domain.Task.Events.{Event}
use codex_runner.Domain.Snapshot.{TaskSnapshot, restore, with_task}
use codex_runner.Execution.StallCheck.{is_running, is_stalled}
use codex_runner.Execution.Signalling.{
  EnforcementStep, send_and_confirm, SignalAuthority, PendingSend, pending_confirm_only,
  StoreFailure, saves, appends, TimeoutWorld, signal_failed, registers, recovers,
  releases_path_lock, leaves_stalled, is_timeout_retryable, SignalError, authority_invalid,
  pending_sent, Termination, confirm, pending_unsent,
}

pub data EnforcementStage : Type 0 where
  stage_load stage_restore stage_save : EnforcementStage

pub record TimeoutInput : Type 0 where
  pub timed_out_task : TaskId
  pub lease_generation : ℕ
  pub occurred_at : Time

-- The errors that `errors.Join` collects, in their order.
pub data OperationError : Type 0 where
  append_failed register_failed release_failed recovery_failed reload_failed confirmation_failed :
      OperationError

pub data TimeoutOutcome : Type 0 where
  not_enforced : EnforcementStage → (retryable : Bool) → TimeoutOutcome
  already_terminal : TimeoutOutcome
  timed_out : List Event → List OperationError → TimeoutOutcome

-- `executeLocked`: the snapshot before the timeout, and what was emitted.
pub data LockedTimeout : Type 0 where
  lock_failed : EnforcementStage → (retryable : Bool) → LockedTimeout
  lock_terminal : LockedTimeout
  lock_saved : TaskSnapshot → TaskSnapshot → List Event → LockedTimeout

abbrev pub save_timed_out : TimeoutWorld → TaskSnapshot → List Event → TaskSnapshot → LockedTimeout
save_timed_out w s events n = elim w.save_failure [
  | some f ↦ lock_failed stage_save (is_timeout_retryable f)
  | none ↦ lock_saved s n events
]

abbrev pub update_timed_out :
    TimeoutWorld → TaskSnapshot → List Event → Result Err TaskSnapshot → LockedTimeout
update_timed_out w s events (err e) = lock_failed stage_restore false
update_timed_out w s events (ok n) = save_timed_out w s events n

abbrev pub mark_and_save :
    TimeoutWorld → TimeoutInput → TaskSnapshot → Result Err (List Event) × Task → LockedTimeout
mark_and_save w i s (err e, t) = lock_failed stage_restore false
mark_and_save w i s (ok events, t) = update_timed_out w s events (with_task s t i.occurred_at)

abbrev pub time_out_task :
    TimeoutWorld → TimeoutInput → TaskSnapshot → Result Err Task → LockedTimeout
time_out_task w i s (err e) = lock_failed stage_restore false
time_out_task w i s (ok t) =
    if not (is_running t.state) && not (is_stalled t.state)
    then lock_terminal
    else mark_and_save w i s (mark_timed_out s.session_ref i.occurred_at t)

abbrev pub time_out_loaded :
    TimeoutWorld → TimeoutInput → Result StoreFailure TaskSnapshot → LockedTimeout
time_out_loaded w i (err f) = lock_failed stage_load (is_timeout_retryable f)
time_out_loaded w i (ok s) = time_out_task w i s (restore s)

unfoldable pub execute_locked : TimeoutWorld → TimeoutInput → LockedTimeout
unfolding restore mark_timed_out with_task is_timeout_retryable
execute_locked w i = time_out_loaded w i w.loaded

unfoldable pub append_events : List Event → List EnforcementStep
append_events [] = []
append_events (e ∷ events) = appends e ∷ append_events events

unfoldable pub append_errors : (Event → Bool) → List Event → List OperationError
append_errors fails [] = []
append_errors fails (e ∷ events) =
    let rest = append_errors fails events in if fails e then append_failed ∷ rest else rest

-- What the locked part wrote.
abbrev pub locked_steps : TaskSnapshot → TaskSnapshot → List Event → List EnforcementStep
locked_steps s n events =
    saves n
    ∷ (if is_stalled s.state then leaves_stalled ∷ append_events events else append_events events)

abbrev pub is_invalid_authority : SignalError → Bool
is_invalid_authority authority_invalid = true
is_invalid_authority signal_failed = false

unfoldable pub any_invalid : List SignalError → Bool
any_invalid [] = false
any_invalid (e ∷ errors) = is_invalid_authority e || any_invalid errors

-- What is registered for a task whose death is not confirmed.
abbrev pub pending_after : SignalAuthority → List SignalError → PendingSend × Option SignalAuthority
pending_after a [] = (pending_sent, none)
pending_after a (e ∷ errors) =
    if any_invalid (e ∷ errors) then (pending_confirm_only, none) else (pending_unsent, some a)

abbrev pub timeout_authority : TimeoutInput → TaskSnapshot → ℤ → Time → SignalAuthority
timeout_authority i s pid at = record {
  authority_task = s.task_id;
  authority_pid = pid;
  authority_started_at = at;
  expected_state = timeout;
  authority_generation = some i.lease_generation;
}

pub record Stopping : Type 0 where
  pub termination : Termination
  pub disposition : PendingSend × Option SignalAuthority

abbrev pub stop_process :
    TimeoutWorld → TimeoutInput → TaskSnapshot → Option ℤ → Option Time → Stopping
stop_process w i s (some pid) (some at) =
    let a = timeout_authority i s pid at in
    let t = send_and_confirm w a in
    record { termination = t; disposition = pending_after a t.terminate_errors }
stop_process w i s none at = record {
  termination = confirm w;
  disposition = (pending_confirm_only, none);
}
stop_process w i s (some pid) none = record {
  termination = confirm w;
  disposition = (pending_confirm_only, none);
}

-- `isTimeoutTerminalState`, and the test after it
abbrev pub is_timeout_terminal : TaskState → Bool
is_timeout_terminal TaskState.completed = true
is_timeout_terminal TaskState.failed = true
is_timeout_terminal TaskState.recovered = true
is_timeout_terminal TaskState.timeout_lost = true
is_timeout_terminal TaskState.killed = true
is_timeout_terminal TaskState.lost = true
is_timeout_terminal _ = false

abbrev pub awaits_reconciliation : TaskState → Bool
awaits_reconciliation TaskState.timeout = true
awaits_reconciliation TaskState.cancelling = true
awaits_reconciliation TaskState.recovering = true
awaits_reconciliation TaskState.orphaned = true
awaits_reconciliation _ = false

abbrev pub register_errors : TimeoutWorld → List OperationError
register_errors w = if w.register_fails then register_failed ∷ [] else []

-- `reconcileAfterConfirmedDeath`
abbrev pub reconcile_loaded :
    TimeoutWorld → Result StoreFailure TaskSnapshot → List OperationError × List EnforcementStep
reconcile_loaded w (err f) = (reload_failed ∷ [], [])
reconcile_loaded w (ok s) =
    if is_timeout_terminal s.state
    then ([], [])
    else if not (awaits_reconciliation s.state)
    then ([], [])
    else (register_errors w, registers pending_confirm_only none ∷ [])

unfoldable pub reconcile_after_confirmed_death :
    TimeoutWorld → List OperationError × List EnforcementStep
reconcile_after_confirmed_death w = reconcile_loaded w w.reloaded

abbrev pub recover : TimeoutWorld → TaskSnapshot → List OperationError × List EnforcementStep
recover w s =
    let after = reconcile_after_confirmed_death w in
    if w.recovery_fails
    then (recovery_failed ∷ after.0, recovers s.session_ref ∷ after.1)
    else ([], recovers s.session_ref ∷ [])

-- What follows a confirmed death.
abbrev pub release_and_recover :
    TimeoutWorld → TaskSnapshot → List OperationError × List EnforcementStep
release_and_recover w s =
    let after = reconcile_after_confirmed_death w in
    let rest = recover w s in
    if is_impl s.subcommand
    then (if w.release_fails
        then (release_failed ∷ after.0, releases_path_lock ∷ after.1)
        else (rest.0, releases_path_lock ∷ rest.1))
    else rest

-- All that is done outside the lock.
unfoldable pub settle_timeout :
    TimeoutWorld → TimeoutInput → TaskSnapshot → List OperationError × List EnforcementStep
unfolding send_and_confirm confirm reconcile_after_confirmed_death any_invalid
settle_timeout w i s =
    let stopping = stop_process w i s s.pid s.process_started_at in
    let t = stopping.termination in
    let rest = release_and_recover w s in
    if t.confirm_failed || not t.is_dead
    then (
      register_errors w ++ (if t.confirm_failed then confirmation_failed ∷ [] else []),
      t.signal_steps ++ registers stopping.disposition.0 stopping.disposition.1 ∷ [],
    )
    else (rest.0, t.signal_steps ++ rest.1)

abbrev pub after_lock :
    TimeoutWorld → TimeoutInput → LockedTimeout → TimeoutOutcome × List EnforcementStep
after_lock w i (lock_failed stage retryable) = (not_enforced stage retryable, [])
after_lock w i lock_terminal = (already_terminal, [])
after_lock w i (lock_saved s n events) =
    let rest = settle_timeout w i s in
    (
      timed_out events (append_errors w.append_fails events ++ rest.0),
      locked_steps s n events ++ rest.1,
    )

-- `EnforceTaskTimeoutUseCase.Execute`
unfoldable pub execute_timeout : TimeoutWorld → TimeoutInput → TimeoutOutcome × List EnforcementStep
unfolding execute_locked settle_timeout append_events append_errors
execute_timeout w i = after_lock w i (execute_locked w i)
