-- ===== src/Supervisor/Session/Moves.antt =====
-- Which events move a session, and which cannot.
use codex_runner.Prelude.{
  ◌≡◌, ◌≢◌, ◌⊎◌, inl, inr, refl, ok, err, Result, Bool, true, false, arith, Bool-cases,
  if◌then◌else◌,
}
use codex_runner.Domain.Values.{Time}
use codex_runner.Supervisor.Restart.{StopReason}
use codex_runner.Supervisor.Session.{
  ManagedSession, apply, is_ended, refused, conclude, with_cli, is_widened, lacks_reason,
  has_bad_reason,
}
use codex_runner.Supervisor.Transition.{
  stop, resume, stop_session, TransitionEvent, TransitionContext, SessionErr, SessionState, stopped,
  transition, transition_with_error, is_stopped, is_valid_stop_reason, stays_undetermined,
  StopScope, stop_reason_required, invalid_stop_reason,
}

-- Neither ended nor a string that is no state.
abbrev pub is_running : SessionState → Bool
is_running = stays_undetermined

-- `exited` and `failed` are final: no event in any context moves a session out of them.
pub apply_ended :
    (event : TransitionEvent) (c : TransitionContext) (now : Time) (s : ManagedSession)
    → is_ended s.state ≡ true
    → (apply event c now s).1.state ≡ s.state
unfolding apply transition_with_error transition
apply_ended stop c now s h = ground arith
apply_ended _ c now s h = ground arith

-- An orphaned child forbids a resume.
orphan_holds :
    (c : TransitionContext) (now : Time) (s : ManagedSession)
    → s.state ≡ stopped
    → c.orphan_child_alive ≡ true
    → (apply resume c now s).1.state ≡ stopped
unfolding apply transition_with_error transition
orphan_holds c now s h o = ground arith

stays_stopped :
    (event : TransitionEvent) (c : TransitionContext) (now : Time) (s : ManagedSession)
    → s.state ≡ stopped
    → (event ≡ resume) ⊎ (event ≡ stop_session) ⊎ ((apply event c now s).1.state ≡ stopped)
unfolding apply transition_with_error transition
stays_stopped resume c now s h = inl refl
stays_stopped stop_session c now s h = inr (inl refl)
stays_stopped _ c now s h = inr (inr (ground arith))

-- A stopped session leaves its state only by a resume, and then no orphaned child is alive, or by
-- the operator's request to end it.
pub apply_stopped :
    (event : TransitionEvent) (c : TransitionContext) (now : Time) (s : ManagedSession)
    → s.state ≡ stopped
    → (apply event c now s).1.state ≢ stopped
    → ((event ≡ resume) × (c.orphan_child_alive ≡ false)) ⊎ (event ≡ stop_session)
apply_stopped event c now s h n = elim (stays_stopped event c now s h) [
  | inr (inl ended) ↦ inr ended
  | inr (inr stays) ↦ absurd (n stays)
  | inl resumed ↦ elim (Bool-cases c.orphan_child_alive) [
    | inr gone ↦ inl (resumed, gone)
    | inl alive ↦ absurd (n (rw resumed (orphan_holds c now s h alive)))
  ]
]

-- A stop with a valid reason succeeds on every session in a known state that has not ended, and
-- leaves it stopped. The reason is recorded, but a session that was stopped before keeps its own.
pub apply_stop :
    (c : TransitionContext) (now : Time) (s : ManagedSession)
    → is_running s.state ≡ true
    → is_valid_stop_reason c.stop_reason ≡ true
    → ((apply stop c now s).0 ≡ ok tt)
      × ((apply stop c now s).1.state ≡ stopped)
      × ((apply stop c now s).1.stop_reason
          ≡ (if is_stopped s.state then s.stop_reason else c.stop_reason))
unfolding apply transition_with_error transition
apply_stop c now s h r = ground arith

-- What a refusal of the transition leaves.
refused_note :
    (event : TransitionEvent) (c : TransitionContext) (s : ManagedSession)
    → (refused event c s ≡ s)
      ⊎ ((event ≡ resume)
          × (s.state ≡ stopped)
          × (refused event c s ≡ record s { stop_reason = StopReason.claude_session_id_missing }))
refused_note event c s = ground arith

IsRefusal : TransitionEvent → ManagedSession → ManagedSession → Type 0
IsRefusal event s u =
    (u ≡ s)
    ⊎ ((event ≡ resume)
        × (s.state ≡ stopped)
        × (u ≡ record s { stop_reason = StopReason.claude_session_id_missing }))

conclude_refused :
    (event : TransitionEvent) (c : TransitionContext) (now : Time) (s : ManagedSession)
    (r : Result SessionErr SessionState) {e : SessionErr}
    → (conclude event c now r s).0 ≡ err e
    → IsRefusal event s (conclude event c now r s).1
unfolding IsRefusal
conclude_refused event c now s (ok to) h = cc
conclude_refused event c now s (err x) h = refused_note event c s

-- The early returns of `Apply` in front of the transition.
guards_refused :
    (wide lacks bad : Bool) (event : TransitionEvent) (s t : ManagedSession) (a b e : SessionErr)
    (r : Result SessionErr Unit × ManagedSession)
    → (r.0 ≡ err e → IsRefusal event s r.1)
    → (if wide then (ok tt, t) else if lacks then (err a, s) else if bad then (err b, s) else r).0
      ≡ err e
    → IsRefusal event s
        (if wide then (ok tt, t) else if lacks then (err a, s) else if bad then (err b, s) else r).1
guards_refused true lacks bad event s t a b e r k h = cc
guards_refused false true bad event s t a b e r k h = unfold IsRefusal in inl refl
guards_refused false false true event s t a b e r k h = unfold IsRefusal in inl refl
guards_refused false false false event s t a b e r k h = k h

-- An event that is refused leaves the session as it was, but for one note: a resume of a stopped
-- session that has nothing to resume records the missing session as its stop reason.
pub apply_refused :
    (event : TransitionEvent) (given : TransitionContext) (now : Time) (s : ManagedSession)
    (e : SessionErr)
    → (apply event given now s).0 ≡ err e
    → ((apply event given now s).1 ≡ s)
      ⊎ ((event ≡ resume)
          × (s.state ≡ stopped)
          × ((apply event given now s).1
              ≡ record s { stop_reason = StopReason.claude_session_id_missing }))
unfolding apply IsRefusal
apply_refused event given now s e h =
    let c = with_cli s.cli given in
    guards_refused (is_widened event c s) (lacks_reason event s.state c) (has_bad_reason event c)
      event s (record s { stop_scope = StopScope.no_scope }) stop_reason_required
      invalid_stop_reason e (conclude event c now (transition_with_error s.state event c) s)
      (conclude_refused event c now s (transition_with_error s.state event c)) h
