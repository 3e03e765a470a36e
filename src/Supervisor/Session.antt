-- ===== src/Supervisor/Session.antt =====
-- internal/supervisor/session.go: a managed session and `Apply`. Of `ManagedSession` the record
-- holds the fields that `Apply` reads or writes.
pub mod Invariant
pub mod Moves
use codex_runner.Prelude.{
  ℕ, ℤ, below, is_nat, Bool, true, false, not, ◌&&◌, ◌||◌, Text, text_eq, [], if◌then◌else◌, ◌==◌,
  Result, ok, err, Exec,
}
use codex_runner.Domain.Values.{Time}
use codex_runner.Supervisor.Restart.{StopReason, no_reason, restart_limit_counts}
use codex_runner.Supervisor.Transition.{
  Cli, ExitReason, SessionErr, SessionState, StopScope, TransitionContext, TransitionEvent,
  awaiting_permission, awaiting_recommendation, classify_exit, claude, claude_session_id_missing,
  codex, converse, detect, detected, detector_idle, detector_permission, detector_recommendation,
  detector_working, end_session, exit_stop_reason, exited, failed, global, idle, illegal_transition,
  invalid_stop_reason, is_codex, is_exited, is_failed, is_global, is_no_reason, is_observed,
  is_resume, is_rotation_failed, is_startup_timeout, is_stop, is_stop_global, is_stop_session,
  is_stop_session_reason, is_stopped, is_unexpected_exit, is_valid_stop_reason, lacks_session,
  no_scope, other, recovering, refusal, resume_stopped, rotate_step_failed, rotating, session,
  starting, stays_undetermined, step, stop_reason_required, stop_session_requested, stopped,
  transition, transition_with_error, unset, working, detector_undetermined, unexpected_exit,
  handoff_exit, startup_timeout, context_rotate, rotation_done, rotation_failed, stop, resume,
  recovery_wait_done, stop_session, reconcile,
}

pub record ManagedSession : Type 0 where
  pub cli : Cli
  pub state : SessionState
  pub state_since : Time
  pub stop_scope : StopScope
  pub stop_reason : StopReason
  pub exit_reason : ExitReason
  pub previous_state : SessionState
  -- `AutoContinueDisabledReason != ""`
  pub auto_continue_disabled : Bool

abbrev pub same_state : SessionState → SessionState → Bool
same_state starting starting = true
same_state idle idle = true
same_state working working = true
same_state awaiting_permission awaiting_permission = true
same_state awaiting_recommendation awaiting_recommendation = true
same_state rotating rotating = true
same_state recovering recovering = true
same_state stopped stopped = true
same_state exited exited = true
same_state failed failed = true
same_state (SessionState.other a) (SessionState.other b) = text_eq a b
same_state _ _ = false

abbrev pub when : Bool → (ManagedSession → ManagedSession) → ManagedSession → ManagedSession
when b f s = if b then f s else s

-- The scope that a stop reason sets: the last lines of the two branches of `EventStop`.
abbrev pub set_scope : StopReason → ManagedSession → ManagedSession
set_scope reason s =
    if is_stop_global reason
    then record s { stop_scope = StopScope.global }
    else if is_stop_session_reason reason
    then record s { stop_scope = StopScope.session }
    else s

-- The writes of `Apply` before the one for `EventStop`.
abbrev pub enter : SessionState → Time → ManagedSession → ManagedSession
enter to now s =
    let previous = s.state in
    when (is_stopped to && not (is_stopped previous)) (λ u. record u { previous_state = previous })
      (when (is_exited to && not (is_exited previous))
        (λ u. record u { stop_reason = no_reason; stop_scope = StopScope.no_scope })
        (when (is_stopped previous && not (is_stopped to))
          (λ u. record u {
            auto_continue_disabled = false;
            stop_reason = no_reason;
            stop_scope = StopScope.no_scope;
          })
          (when (not (same_state to previous)) (λ u. record u { state = to; state_since = now })
            s)))

abbrev pub is_ended : SessionState → Bool
is_ended s = is_exited s || is_failed s

-- The writes of `Apply` after it, none of which is for `EventStop`.
abbrev pub explain :
    TransitionEvent
    → SessionState
    → SessionState
    → TransitionContext
    → ManagedSession
    → ManagedSession
explain event previous to c s =
    when (is_stop_session event && is_exited to && not (is_ended previous))
      (λ u. record u { exit_reason = stop_session_requested })
      (when (is_rotation_failed event && is_stopped to)
        (λ u. record u { stop_reason = StopReason.rotate_step_failed })
        (when (is_startup_timeout event && is_stopped to)
          (λ u. record u { stop_reason = StopReason.recovery_start_timeout })
          (when (is_unexpected_exit event && is_stopped to && not (is_stopped previous))
            (λ u. record u { stop_reason = exit_stop_reason c }) s)))

-- The block for `EventStop`: an ended session only takes the scope and returns.
abbrev pub stop_at :
    TransitionEvent
    → SessionState
    → SessionState
    → TransitionContext
    → ManagedSession
    → ManagedSession
stop_at event previous to c s =
    if is_stop event && (is_stopped to || is_ended to)
    then (if not (is_stopped to)
        then set_scope c.stop_reason s
        else explain event previous to c (
            set_scope c.stop_reason (
              when (not (is_stopped previous || is_ended previous))
                (λ u. record u { stop_reason = c.stop_reason }) s)))
    else explain event previous to c s

-- A refused resume with nothing to resume leaves its reason.
abbrev pub refused : TransitionEvent → TransitionContext → ManagedSession → ManagedSession
refused event c s =
    when
      (is_stopped s.state
        && is_resume event
        && not c.orphan_child_alive
        && not (c.rotation_exit_timed_out && c.child_alive)
        && lacks_session c)
      (λ u. record u { stop_reason = StopReason.claude_session_id_missing }) s

abbrev pub conclude :
    TransitionEvent
    → TransitionContext
    → Time
    → Result SessionErr SessionState
    → Exec SessionErr ManagedSession Unit
conclude event c now (err e) s = (err e, refused event c s)
conclude event c now (ok to) s = (ok tt, stop_at event s.state to c (enter to now s))

abbrev pub with_cli : Cli → TransitionContext → TransitionContext
with_cli cli c = elim c.cli [ Cli.unset ↦ record c { cli = cli } | _ ↦ c ]

-- A global resume of a session that did not stop for the global reason only lifts the scope.
abbrev pub is_widened : TransitionEvent → TransitionContext → ManagedSession → Bool
is_widened event c s =
    is_resume event
    && is_global c.resume_scope
    && (not (is_global s.stop_scope) || not (is_stop_global s.stop_reason))

abbrev pub lacks_reason : TransitionEvent → SessionState → TransitionContext → Bool
lacks_reason event from c = is_stop event && not (is_stopped from) && is_no_reason c.stop_reason

abbrev pub has_bad_reason : TransitionEvent → TransitionContext → Bool
has_bad_reason event c =
    is_stop event && not (is_no_reason c.stop_reason) && not (is_valid_stop_reason c.stop_reason)

-- `Apply`
unfoldable pub apply :
    TransitionEvent → TransitionContext → Time → Exec SessionErr ManagedSession Unit
unfolding transition_with_error exit_stop_reason
apply event given now s =
    let c = with_cli s.cli given in
    if is_widened event c s
    then (ok tt, record s { stop_scope = StopScope.no_scope })
    else if lacks_reason event s.state c
    then (err stop_reason_required, s)
    else if has_bad_reason event c
    then (err invalid_stop_reason, s)
    else conclude event c now (transition_with_error s.state event c) s
