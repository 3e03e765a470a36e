-- ===== src/Supervisor/Transition.antt =====
-- internal/supervisor/session.go: the transitions of a session. `other` is a string that is none of
-- the constants, the empty one included.
use codex_runner.Prelude.{
  ℤ, below, is_nat, Bool, true, false, not, ◌&&◌, ◌||◌, Text, [], if◌then◌else◌, Result, ok, err,
}
use codex_runner.Supervisor.Restart.{StopReason, no_reason, restart_limit_counts}

pub data SessionState : Type 0 where
  starting idle working awaiting_permission awaiting_recommendation : SessionState
  rotating recovering stopped exited failed : SessionState
  other : Text → SessionState

pub data Cli : Type 0 where
  unset claude codex : Cli
  other : Text → Cli

pub data StopScope : Type 0 where
  no_scope session global : StopScope
  other : Text → StopScope

pub data ExitReason : Type 0 where
  unset stop_session_requested : ExitReason

pub data TransitionEvent : Type 0 where
  detector_idle detector_working detector_permission detector_recommendation : TransitionEvent
  detector_undetermined unexpected_exit handoff_exit startup_timeout context_rotate :
      TransitionEvent
  rotation_done rotation_failed stop resume recovery_wait_done stop_session reconcile :
      TransitionEvent
  other : Text → TransitionEvent

pub record TransitionContext : Type 0 where
  pub cli : Cli
  pub generation : ℤ
  pub child_pid : ℤ
  pub exit_code : ℤ
  pub has_pending_send : Bool
  pub claude_session_id : Bool
  pub has_previous_claude_session_id : Bool
  pub resume_scope : StopScope
  pub restart_count : ℤ
  pub daily_restart_count : ℤ
  pub observed_state : SessionState
  pub stop_reason : StopReason
  pub child_alive : Bool
  -- `RotationStep != ""`: the step itself is not read here
  pub has_rotation_step : Bool
  pub rotation_exit_timed_out : Bool
  pub has_rotation : Bool
  pub orphan_child_alive : Bool

-- A state of the conversation, in which the screen says what the CLI does.
abbrev pub is_observed : SessionState → Bool
is_observed idle = true
is_observed working = true
is_observed awaiting_permission = true
is_observed awaiting_recommendation = true
is_observed _ = false

abbrev pub is_no_reason : StopReason → Bool
is_no_reason no_reason = true
is_no_reason _ = false

abbrev pub is_codex : Cli → Bool
is_codex Cli.codex = true
is_codex _ = false

unfoldable pub classify_exit : TransitionContext → SessionState × Bool
unfolding restart_limit_counts
classify_exit c =
    if c.has_pending_send
    then (stopped, true)
    else if is_nat c.exit_code 0
    then (exited, true)
    else if is_codex c.cli
    then (exited, true)
    else if not c.claude_session_id
    then (stopped, true)
    else if not (is_no_reason (restart_limit_counts c.restart_count c.daily_restart_count))
    then (stopped, true)
    else (recovering, true)

unfoldable pub exit_stop_reason : TransitionContext → StopReason
unfolding restart_limit_counts
exit_stop_reason c =
    if c.has_pending_send
    then StopReason.process_exit_with_pending
    else if is_nat c.exit_code 0
    then no_reason
    else if not c.claude_session_id
    then StopReason.claude_session_id_missing
    else restart_limit_counts c.restart_count c.daily_restart_count

-- The first block of `Transition`: an undetermined screen changes nothing while the session lives.
abbrev pub stays_undetermined : SessionState → Bool
stays_undetermined exited = false
stays_undetermined failed = false
stays_undetermined (SessionState.other s) = false
stays_undetermined _ = true

-- The map `targets` of the second block.
abbrev pub detected : TransitionEvent → SessionState
detected detector_idle = idle
detected detector_working = working
detected detector_permission = awaiting_permission
detected _ = awaiting_recommendation

-- The second block, for a detector event that names a state.
abbrev pub detect : TransitionEvent → SessionState → SessionState × Bool
detect detector_working starting = (starting, true)
detect detector_recommendation starting = (SessionState.other [], false)
detect event starting = (detected event, true)
detect event idle = (detected event, true)
detect event working = (detected event, true)
detect event awaiting_permission = (detected event, true)
detect event awaiting_recommendation = (detected event, true)
detect event rotating = (rotating, true)
detect event recovering = (recovering, true)
detect event stopped = (stopped, true)
detect event from = (from, false)

-- `EventStopSession` while a child may live is refused.
abbrev pub end_session : SessionState → TransitionContext → SessionState × Bool
end_session from c = if c.orphan_child_alive || c.child_alive then (from, false) else (exited, true)

abbrev pub resume_stopped : TransitionContext → SessionState × Bool
resume_stopped c =
    if c.orphan_child_alive
    then (stopped, false)
    else if c.has_rotation || c.has_rotation_step
    then (if c.rotation_exit_timed_out && c.child_alive then (stopped, false) else (rotating, true))
    else if c.child_alive
    then (if is_observed c.observed_state then c.observed_state else working, true)
    else if not c.claude_session_id && not c.has_previous_claude_session_id
    then (stopped, false)
    else (starting, true)

-- The switch of the conversation states.
abbrev pub converse : SessionState → TransitionEvent → TransitionContext → SessionState × Bool
converse from unexpected_exit c = classify_exit c
converse idle context_rotate c = (rotating, true)
converse awaiting_recommendation context_rotate c = (rotating, true)
converse from context_rotate c = (from, true)
converse from stop c = (stopped, true)
converse from stop_session c = end_session from c
converse from event c = (from, false)

-- The last switch of `Transition`, by state and event.
abbrev pub step : SessionState → TransitionEvent → TransitionContext → SessionState × Bool
step starting unexpected_exit c = classify_exit c
step starting startup_timeout c = (if not (below c.generation 2) then stopped else failed, true)
step starting stop c = (stopped, true)
step starting stop_session c = (exited, true)
step starting reconcile c =
    if is_nat c.generation 1 && is_nat c.child_pid 0 then (exited, true) else (starting, false)
step idle event c = converse idle event c
step working event c = converse working event c
step awaiting_permission event c = converse awaiting_permission event c
step awaiting_recommendation event c = converse awaiting_recommendation event c
step rotating unexpected_exit c = (rotating, true)
step rotating handoff_exit c = (rotating, true)
step rotating context_rotate c = (rotating, true)
step rotating rotation_done c =
    (if is_observed c.observed_state then c.observed_state else rotating, true)
step rotating rotation_failed c = (stopped, true)
step rotating stop c = (stopped, true)
step rotating stop_session c = end_session rotating c
step recovering stop c = (stopped, true)
step recovering recovery_wait_done c = (starting, true)
step recovering stop_session c = (exited, true)
step stopped stop c = (stopped, true)
step stopped unexpected_exit c = (stopped, true)
step stopped handoff_exit c = (stopped, true)
step stopped resume c = resume_stopped c
step stopped stop_session c = (exited, true)
step exited stop c = (exited, true)
step exited stop_session c = (exited, true)
step failed stop c = (failed, true)
step failed stop_session c = (failed, true)
step from event c = (from, false)

-- `Transition`: the new state, and whether the event is allowed.
unfoldable pub transition : SessionState → TransitionEvent → TransitionContext → SessionState × Bool
unfolding classify_exit
transition from detector_undetermined c =
    if stays_undetermined from then (from, true) else (from, false)
transition from detector_idle c = detect detector_idle from
transition from detector_working c = detect detector_working from
transition from detector_permission c = detect detector_permission from
transition from detector_recommendation c = detect detector_recommendation from
transition from event c = step from event c

-- The codes of `TransitionError`, and the two `fmt.Errorf` values of `Apply`.
pub data SessionErr : Type 0 where
  illegal_transition orphan_child_alive rotate_step_failed : SessionErr
  claude_session_id_missing stop_reason_required invalid_stop_reason : SessionErr

abbrev pub is_stopped : SessionState → Bool
is_stopped stopped = true
is_stopped _ = false

abbrev pub is_exited : SessionState → Bool
is_exited exited = true
is_exited _ = false

abbrev pub is_failed : SessionState → Bool
is_failed failed = true
is_failed _ = false

abbrev pub is_stop : TransitionEvent → Bool
is_stop stop = true
is_stop _ = false

abbrev pub is_resume : TransitionEvent → Bool
is_resume resume = true
is_resume _ = false

abbrev pub is_unexpected_exit : TransitionEvent → Bool
is_unexpected_exit unexpected_exit = true
is_unexpected_exit _ = false

abbrev pub is_startup_timeout : TransitionEvent → Bool
is_startup_timeout startup_timeout = true
is_startup_timeout _ = false

abbrev pub is_rotation_failed : TransitionEvent → Bool
is_rotation_failed rotation_failed = true
is_rotation_failed _ = false

abbrev pub is_stop_session : TransitionEvent → Bool
is_stop_session stop_session = true
is_stop_session _ = false

-- A resume that has nothing to resume: no child, no rotation and no session of the CLI.
abbrev pub lacks_session : TransitionContext → Bool
lacks_session c =
    not c.claude_session_id
    && not c.has_previous_claude_session_id
    && not c.child_alive
    && not c.has_rotation

-- The code of a refused transition.
abbrev pub refusal : SessionState → TransitionEvent → TransitionContext → SessionErr
refusal from event c =
    if is_stopped from && is_resume event
    then (if c.orphan_child_alive
        then orphan_child_alive
        else if c.rotation_exit_timed_out && c.child_alive
        then rotate_step_failed
        else if lacks_session c
        then claude_session_id_missing
        else illegal_transition)
    else illegal_transition

-- `TransitionWithError`; a refused transition keeps the state.
unfoldable pub transition_with_error :
    SessionState → TransitionEvent → TransitionContext → Result SessionErr SessionState
unfolding transition
transition_with_error from event c =
    if (transition from event c).1
    then ok (transition from event c).0
    else err (refusal from event c)

abbrev pub is_valid_stop_reason : StopReason → Bool
is_valid_stop_reason no_reason = false
is_valid_stop_reason (StopReason.other s) = false
is_valid_stop_reason _ = true

abbrev pub is_stop_global : StopReason → Bool
is_stop_global StopReason.stop_global = true
is_stop_global _ = false

abbrev pub is_stop_session_reason : StopReason → Bool
is_stop_session_reason StopReason.stop_session = true
is_stop_session_reason _ = false

abbrev pub is_global : StopScope → Bool
is_global StopScope.global = true
is_global _ = false
