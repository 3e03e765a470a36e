-- ===== src/Execution/Enforcement/Steps.antt =====
-- What holds of all steps of a run, from what holds of each kind of step.
use codex_runner.Prelude.{
  ℤ, ◌≡◌, refl, sym, subst, ◌∙◌, true, false, not, ◌||◌, List, [], ◌∷◌, Option, none, some, arith,
  Bool-cases, inl, inr, Result, ok, err, branches, All, All-append,
}
use codex_runner.Domain.Enums.{is_impl}
use codex_runner.Domain.Values.{Time}
use codex_runner.Domain.Task.Events.{Event}
use codex_runner.Domain.Snapshot.{TaskSnapshot}
use codex_runner.Execution.StallCheck.{is_stalled}
use codex_runner.Execution.Signalling.{
  sends_terminate, sends_kill, StoreFailure, SignalAuthority, PendingSend, pending_confirm_only,
  EnforcementStep, saves, leaves_stalled, appends, registers, releases_path_lock, recovers,
  TimeoutWorld, Termination, send_and_confirm, confirm,
}
use codex_runner.Execution.Enforcement.{
  TimeoutInput, LockedTimeout, lock_failed, lock_terminal, lock_saved, execute_locked,
  append_events, locked_steps, timeout_authority, stop_process, OperationError, is_timeout_terminal,
  awaits_reconciliation, reconcile_loaded, reconcile_after_confirmed_death, recover,
  release_and_recover, settle_timeout, after_lock, execute_timeout,
}
use codex_runner.Execution.Enforcement.Persisting.{execute_locked-saved}
use codex_runner.Execution.Enforcement.Authority.{IsAuthorized, send_signal-All}

-- The task was found dead, by the first answer or by the second, without an error.
pub data IsConfirmedDead (w : TimeoutWorld) : Type 0 where
  at_first :
      w.first_answer.answer_failed ≡ false → w.first_answer.found_dead ≡ true → IsConfirmedDead w
  at_second :
      w.first_answer.answer_failed ≡ false
      → w.first_answer.found_dead ≡ false
      → w.second_answer.answer_failed ≡ false
      → w.second_answer.found_dead ≡ true
      → IsConfirmedDead w

abbrev IsSure : Termination → Type 0
IsSure t = (t.confirm_failed || not t.is_dead) ≡ false

-- From what the first answer and the second say.
answered_dead :
    (w : TimeoutWorld)
    → (w.first_answer.answer_failed || w.first_answer.found_dead) ≡ false
    → (w.second_answer.answer_failed || not w.second_answer.found_dead) ≡ false
    → IsConfirmedDead w
answered_dead w h k = at_second (ground arith) (ground arith) (ground arith) (ground arith)

send_and_confirm-dead :
    (w : TimeoutWorld) (a : SignalAuthority) → IsSure (send_and_confirm w a) → IsConfirmedDead w
unfolding send_and_confirm
send_and_confirm-dead w a h =
    elim (Bool-cases (w.first_answer.answer_failed || w.first_answer.found_dead)) [
      | inl first ↦
          let sure : (w.first_answer.answer_failed || not w.first_answer.found_dead) ≡ false =
            rw first at h in
          at_first (ground arith) (ground arith)
      | inr second ↦ answered_dead w second (rw second at h)
    ]

confirm-dead : (w : TimeoutWorld) → IsSure (confirm w) → IsConfirmedDead w
unfolding confirm
confirm-dead w h = elim (Bool-cases (w.first_answer.answer_failed || w.first_answer.found_dead)) [
  | inl first ↦
      let sure : (w.first_answer.answer_failed || not w.first_answer.found_dead) ≡ false =
        rw first at h in
      at_first (ground arith) (ground arith)
  | inr second ↦ elim (Bool-cases w.context_ended) [
    | inl ended ↦ absurd (cc (rw (second, ended) at h))
    | inr goes_on ↦ answered_dead w second (rw (second, goes_on) at h)
  ]
]

-- What is known of each kind of step.
pub record OfSteps (P : EnforcementStep → Type 0) (w : TimeoutWorld) (s : TaskSnapshot)
    : Type 0 where
  pub of_save : (n : TaskSnapshot) → P (saves n)
  pub of_leave : P leaves_stalled
  pub of_append : (e : Event) → P (appends e)
  pub of_terminate : (pid : ℤ) → IsAuthorized w.terminate s pid → P (sends_terminate pid)
  pub of_kill : (pid : ℤ) → IsAuthorized w.kill s pid → P (sends_kill pid)
  pub of_register : (d : PendingSend) (a : Option SignalAuthority) → P (registers d a)
  pub of_release : P releases_path_lock
  pub of_recovery :
      IsConfirmedDead w
      → (is_impl s.subcommand ≡ true → w.release_fails ≡ false)
      → P (recovers s.session_ref)

module _ (P : EnforcementStep → Type 0) (w : TimeoutWorld) (i : TimeoutInput) (s : TaskSnapshot)
    (o : OfSteps P w s) where
  send_and_confirm-All :
      (pid : ℤ) (at : Time)
      → s.pid ≡ some pid
      → s.process_started_at ≡ some at
      → All P (send_and_confirm w (timeout_authority i s pid at)).signal_steps
  unfolding send_and_confirm
  send_and_confirm-All pid at p q =
      let first =
        send_signal-All i s pid at P w.terminate sends_terminate p q (o.of_terminate pid) in
      let second = send_signal-All i s pid at P w.kill sends_kill p q (o.of_kill pid) in
      branches (λ (t : Termination). All P t.signal_steps)
        (w.first_answer.answer_failed || w.first_answer.found_dead) _ _ (λ h. first)
        (λ h. All-append P _ _ first second)

  confirm-steps : (confirm w).signal_steps ≡ []
  unfolding confirm
  confirm-steps = ground arith

  stop_process-All :
      (pid : Option ℤ) (at : Option Time)
      → s.pid ≡ pid
      → s.process_started_at ≡ at
      → All P (stop_process w i s pid at).termination.signal_steps
  stop_process-All (some pid) (some at) p q = send_and_confirm-All pid at p q
  stop_process-All none at p q = rw confirm-steps tt
  stop_process-All (some pid) none p q = rw confirm-steps tt

  stop_process-dead :
      (pid : Option ℤ) (at : Option Time)
      → IsSure (stop_process w i s pid at).termination
      → IsConfirmedDead w
  stop_process-dead (some pid) (some at) h =
      send_and_confirm-dead w (timeout_authority i s pid at) h
  stop_process-dead none at h = confirm-dead w h
  stop_process-dead (some pid) none h = confirm-dead w h

  abbrev Everywhere : List OperationError × List EnforcementStep → Type 0
  Everywhere x = All P x.1

  reconcile_loaded-All : (r : Result StoreFailure TaskSnapshot) → Everywhere (reconcile_loaded w r)
  reconcile_loaded-All (err f) = tt
  reconcile_loaded-All (ok c) =
      branches Everywhere (is_timeout_terminal c.state) _ _ (λ h. tt)
        (λ h.
          branches Everywhere (not (awaits_reconciliation c.state)) _ _ (λ k. tt)
            (λ k. (o.of_register pending_confirm_only none, tt)))

  reconciled-All : Everywhere (reconcile_after_confirmed_death w)
  unfolding reconcile_after_confirmed_death
  reconciled-All = reconcile_loaded-All w.reloaded

  recover-All : P (recovers s.session_ref) → Everywhere (recover w s)
  recover-All p = branches Everywhere w.recovery_fails _ _ (λ h. (p, reconciled-All)) (λ h. (p, tt))

  release_and_recover-All : IsConfirmedDead w → Everywhere (release_and_recover w s)
  release_and_recover-All dead =
      branches Everywhere (is_impl s.subcommand) _ _
        (λ h.
          branches Everywhere w.release_fails _ _ (λ k. (o.of_release, reconciled-All))
            (λ k. (o.of_release, recover-All (o.of_recovery dead (λ m. k)))))
        (λ h. recover-All (o.of_recovery dead (λ m. cc)))

  settle_timeout-All : Everywhere (settle_timeout w i s)
  unfolding settle_timeout
  settle_timeout-All =
      let signals = stop_process-All s.pid s.process_started_at refl refl in
      let t = (stop_process w i s s.pid s.process_started_at).termination in
      branches Everywhere (t.confirm_failed || not t.is_dead) _ _
        (λ h. All-append P t.signal_steps _ signals (o.of_register _ _, tt))
        (λ h.
          All-append P t.signal_steps _ signals
            (release_and_recover-All (stop_process-dead s.pid s.process_started_at h)))

  append_events-All : (events : List Event) → All P (append_events events)
  unfolding append_events
  append_events-All [] = tt
  append_events-All (e ∷ events) = (o.of_append e, append_events-All events)

  locked_steps-All : (n : TaskSnapshot) (events : List Event) → All P (locked_steps s n events)
  locked_steps-All n events = elim (Bool-cases (is_stalled s.state)) [
    | inl stalled ↦ rw stalled (o.of_save n, (o.of_leave, append_events-All events))
    | inr running ↦ rw running (o.of_save n, append_events-All events)
  ]

after_lock-All :
    (P : EnforcementStep → Type 0) (w : TimeoutWorld) (i : TimeoutInput) (s : TaskSnapshot)
    (l : LockedTimeout)
    → OfSteps P w s
    → w.loaded ≡ ok s
    → execute_locked w i ≡ l
    → All P (after_lock w i l).1
unfolding execute_locked
after_lock-All P w i s (lock_failed stage retryable) o h e = tt
after_lock-All P w i s lock_terminal o h e = tt
after_lock-All P w i s (lock_saved s' n events) o h e =
    let t = execute_locked-saved w i s' n events w.loaded refl e in
    let both : ◌≡◌ {A = Result StoreFailure TaskSnapshot} (ok s) (ok s') = sym h ∙ t.stored in
    let same : s ≡ s' = cc in
    let o' : OfSteps P w s' = subst (OfSteps P w) same o in
    All-append P (locked_steps s' n events) (settle_timeout w i s').1
      (locked_steps-All P w i s' o' n events) (settle_timeout-All P w i s' o')

pub execute_timeout-All :
    (P : EnforcementStep → Type 0) (w : TimeoutWorld) (i : TimeoutInput) (s : TaskSnapshot)
    → OfSteps P w s
    → w.loaded ≡ ok s
    → All P (execute_timeout w i).1
unfolding execute_timeout
execute_timeout-All P w i s o h = after_lock-All P w i s (execute_locked w i) o h refl
