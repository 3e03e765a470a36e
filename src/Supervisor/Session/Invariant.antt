-- ===== src/Supervisor/Session/Invariant.antt =====
-- Why a session stopped: the stop reason is set exactly while it is stopped.
use codex_runner.Prelude.{
  ◌≡◌, ◌||◌, Bool-cases, inl, inr, Result, err, ok, Bool, true, false, List, [], ◌∷◌, arith, refl,
}
use codex_runner.Domain.Values.{Time}
use codex_runner.Supervisor.Session.{
  ManagedSession, apply, stop_at, enter, refused, conclude, with_cli, is_widened, lacks_reason,
  has_bad_reason,
}
use codex_runner.Supervisor.Transition.{
  stop, TransitionEvent, TransitionContext, is_stopped, transition, transition_with_error,
  classify_exit, exit_stop_reason, SessionState, stopped, is_valid_stop_reason, SessionErr,
}

-- An exit that stops the session has a reason to show.
exit_reason_given :
    (c : TransitionContext)
    → (classify_exit c).0 ≡ stopped
    → is_valid_stop_reason (exit_stop_reason c) ≡ true
unfolding classify_exit exit_stop_reason
exit_reason_given c h = ground arith

-- A reason is given exactly while the session is stopped, and it is one of the constants.
abbrev pub IsExplained : ManagedSession → Type 0
IsExplained s = is_valid_stop_reason s.stop_reason ≡ is_stopped s.state

abbrev reason_ok : TransitionEvent → SessionState → TransitionContext → Bool
reason_ok stop from c = is_stopped from || is_valid_stop_reason c.stop_reason
reason_ok event from c = true

-- The writes of an accepted event.
stop_at-IsExplained :
    (event : TransitionEvent) (c : TransitionContext) (now : Time) (s : ManagedSession)
    (to : SessionState)
    → transition_with_error s.state event c ≡ ok to
    → reason_ok event s.state c ≡ true
    → IsExplained s
    → IsExplained (stop_at event s.state to c (enter to now s))
unfolding transition_with_error transition
stop_at-IsExplained stop c now s to t r h = ground arith
stop_at-IsExplained _ c now s to t r h = ground (arith, exit_reason_given c)

refused-IsExplained :
    (event : TransitionEvent) (c : TransitionContext) (s : ManagedSession)
    → IsExplained s
    → IsExplained (refused event c s)
refused-IsExplained event c s h = ground arith

conclude-IsExplained :
    (event : TransitionEvent) (c : TransitionContext) (now : Time) (s : ManagedSession)
    (r : Result SessionErr SessionState)
    → transition_with_error s.state event c ≡ r
    → reason_ok event s.state c ≡ true
    → IsExplained s
    → IsExplained (conclude event c now r s).1
conclude-IsExplained event c now s (ok to) t r h = stop_at-IsExplained event c now s to t r h
conclude-IsExplained event c now s (err e) t r h = refused-IsExplained event c s h

-- The guards of `Apply` leave a stop with a valid reason, or of a stopped session.
guarded :
    (event : TransitionEvent) (from : SessionState) (c : TransitionContext)
    → lacks_reason event from c ≡ false
    → has_bad_reason event c ≡ false
    → reason_ok event from c ≡ true
guarded stop from c h k = ground arith
guarded _ from c h k = refl

pub apply-IsExplained :
    (event : TransitionEvent) (given : TransitionContext) (now : Time) (s : ManagedSession)
    → IsExplained s
    → IsExplained (apply event given now s).1
unfolding apply
apply-IsExplained event given now s h =
    let c = with_cli s.cli given in
    elim (Bool-cases (is_widened event c s)) [
      | inl wide ↦ rw wide h
      | inr plain ↦ rw plain (elim (Bool-cases (lacks_reason event s.state c)) [
        | inl lacks ↦ rw lacks h
        | inr has ↦ rw has (elim (Bool-cases (has_bad_reason event c)) [
          | inl bad ↦ rw bad h
          | inr good ↦ rw good (
              conclude-IsExplained event c now s (transition_with_error s.state event c) refl
                (guarded event s.state c has good) h)
        ])
      ])
    ]

-- Events that reach a session, each with its context and its time; a refused one is reported, and
-- the session goes on.
unfoldable pub apply_all :
    ManagedSession → List (TransitionEvent × TransitionContext × Time) → ManagedSession
apply_all s [] = s
apply_all s ((event, c, now) ∷ rest) = apply_all (apply event c now s).1 rest

-- If it holds at first, then over any sequence of events and contexts, refused ones included: the
-- session has a stop reason, one of the constants, exactly while it is stopped.
pub apply_all-IsExplained :
    (s : ManagedSession) (events : List (TransitionEvent × TransitionContext × Time))
    → IsExplained s
    → IsExplained (apply_all s events)
unfolding apply_all
apply_all-IsExplained s [] h = h
apply_all-IsExplained s ((event, c, now) ∷ rest) h =
    apply_all-IsExplained (apply event c now s).1 rest (apply-IsExplained event c now s h)
