-- ===== src/Tests/Sessions.antt =====
-- The theorems on managed sessions, at a working session that is stopped, resumed and ended.
use codex_runner.Prelude.{◌↔◌, ◌≡◌, ◌⊎◌, refl, true, false, [], ◌∷◌, pos}
use codex_runner.Supervisor.Restart.{StopReason, no_reason}
use codex_runner.Supervisor.Session.{ManagedSession, apply}
use codex_runner.Supervisor.Transition.{
  stop, resume, stop_session, SessionState, idle, Cli, StopScope, ExitReason, TransitionEvent,
  TransitionContext, working, stopped, exited,
}
use codex_runner.Supervisor.SendGate.{
  SendGateRecord, session_start, unblocked, check_send_gate, IsSendable, check_send_gate_iff,
}
use codex_runner.Supervisor.Session.Invariant.{IsExplained, apply_all, apply_all-IsExplained}
use codex_runner.Supervisor.Session.Moves.{apply_stopped}

abbrev quiet : TransitionContext
quiet = record {
  cli = Cli.claude;
  generation = pos 1;
  child_pid = pos 4711;
  exit_code = pos 1;
  has_pending_send = false;
  claude_session_id = true;
  has_previous_claude_session_id = false;
  resume_scope = StopScope.no_scope;
  restart_count = pos 0;
  daily_restart_count = pos 0;
  observed_state = working;
  stop_reason = no_reason;
  child_alive = true;
  has_rotation_step = false;
  rotation_exit_timed_out = false;
  has_rotation = false;
  orphan_child_alive = false;
}

abbrev stopping : TransitionContext
stopping = record quiet { stop_reason = StopReason.stop_session }

abbrev a_session : ManagedSession
a_session = record {
  cli = Cli.claude;
  state = working;
  state_since = 100;
  stop_scope = StopScope.no_scope;
  stop_reason = no_reason;
  exit_reason = ExitReason.unset;
  previous_state = SessionState.other [];
  auto_continue_disabled = false;
}

abbrev a_stopped_session : ManagedSession
a_stopped_session = record a_session {
  state = stopped;
  stop_scope = StopScope.session;
  stop_reason = StopReason.stop_session;
  previous_state = working;
}

abbrev an_exited_session : ManagedSession
an_exited_session = record a_session { state = exited }

apply_all-IsExplained_example : IsExplained (
    apply_all a_session (
      (stop, stopping, 110)
      ∷ (resume, quiet, 120)
      ∷ (TransitionEvent.unexpected_exit, record quiet { claude_session_id = false }, 130)
      ∷ []))
apply_all-IsExplained_example =
    apply_all-IsExplained a_session
      ((stop, stopping, 110)
        ∷ (resume, quiet, 120)
        ∷ (TransitionEvent.unexpected_exit, record quiet { claude_session_id = false }, 130)
        ∷ [])
      refl

apply_stopped_example :
    ((resume ≡ resume) × (quiet.orphan_child_alive ≡ false)) ⊎ (resume ≡ stop_session)
unfolding apply
apply_stopped_example = apply_stopped resume quiet 110 a_stopped_session refl (λ h. cc)

abbrev lost_context : TransitionContext
lost_context = record quiet { claude_session_id = false; child_alive = false }

abbrev a_gate : SendGateRecord
a_gate = record {
  ever_sent = true;
  last_send_confirmed = true;
  unconfirmed_discarded = false;
  has_pending = false;
}

check_send_gate_iff_example :
    (check_send_gate idle a_gate idle session_start false true false [] ≡ unblocked)
    ↔ IsSendable idle a_gate idle session_start false true false []
check_send_gate_iff_example = check_send_gate_iff idle a_gate idle session_start false true false []
