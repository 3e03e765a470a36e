-- ===== src/Execution/Enforcement/Settling.antt =====
-- A task that was timed out is not forgotten.
use codex_runner.Prelude.{
  ◌≡◌, refl, subst, Bool, true, false, not, ◌||◌, List, [], ◌∷◌, ◌++◌, arith, Bool-cases, inl, inr,
  Result, ok, err, branches,
}
use codex_runner.Domain.Enums.{TaskState, is_impl}
use codex_runner.Domain.Task.Events.{Event}
use codex_runner.Domain.Snapshot.{TaskSnapshot}
use codex_runner.Execution.Signalling.{
  StoreFailure, EnforcementStep, registers, releases_path_lock, recovers, TimeoutWorld,
}
use codex_runner.Execution.Enforcement.{
  TimeoutInput, LockedTimeout, lock_failed, lock_terminal, lock_saved, execute_locked,
  append_errors, locked_steps, stop_process, OperationError, reload_failed, register_failed,
  is_timeout_terminal, awaits_reconciliation, reconcile_loaded, reconcile_after_confirmed_death,
  recover, release_and_recover, settle_timeout, after_lock, execute_timeout, timed_out,
}

pub any_step : (EnforcementStep → Bool) → List EnforcementStep → Bool
any_step p [] = false
any_step p (step ∷ steps) = p step || any_step p steps

any_step-append :
    (p : EnforcementStep → Bool) (xs ys : List EnforcementStep)
    → any_step p ys ≡ true
    → any_step p (xs ++ ys) ≡ true
unfolding any_step
any_step-append p [] ys h = h
any_step-append p (x ∷ xs) ys h = ground (arith, any_step-append p xs ys h)

abbrev pub is_registration : EnforcementStep → Bool
is_registration (registers d a) = true
is_registration _ = false

abbrev pub is_recovery : EnforcementStep → Bool
is_recovery (recovers session) = true
is_recovery _ = false

abbrev pub is_loss : OperationError → Bool
is_loss reload_failed = true
is_loss register_failed = true
is_loss _ = false

pub any_error : (OperationError → Bool) → List OperationError → Bool
any_error p [] = false
any_error p (e ∷ errors) = p e || any_error p errors

any_error-append :
    (p : OperationError → Bool) (xs ys : List OperationError)
    → any_error p ys ≡ true
    → any_error p (xs ++ ys) ≡ true
unfolding any_error
any_error-append p [] ys h = h
any_error-append p (x ∷ xs) ys h = ground (arith, any_error-append p xs ys h)

-- What takes care of the task from now on.
pub data IsCaredFor (w : TimeoutWorld) (errors : List OperationError) (steps : List EnforcementStep)
    : Type 0 where
  registered :
      any_step is_registration steps ≡ true → w.register_fails ≡ false → IsCaredFor w errors steps
  recovery_runs :
      any_step is_recovery steps ≡ true → w.recovery_fails ≡ false → IsCaredFor w errors steps
  reported : any_error is_loss errors ≡ true → IsCaredFor w errors steps
  moved_on :
      (s : TaskSnapshot)
      → w.reloaded ≡ ok s
      → awaits_reconciliation s.state ≡ false
      → IsCaredFor w errors steps

module _ (w : TimeoutWorld) where
  -- More errors and steps in front change nothing.
  IsCaredFor-append :
      (before errors : List OperationError) (first steps : List EnforcementStep)
      → IsCaredFor w errors steps
      → IsCaredFor w (before ++ errors) (first ++ steps)
  IsCaredFor-append before errors first steps (registered h k) =
      registered (any_step-append is_registration first steps h) k
  IsCaredFor-append before errors first steps (recovery_runs h k) =
      recovery_runs (any_step-append is_recovery first steps h) k
  IsCaredFor-append before errors first steps (reported h) =
      reported (any_error-append is_loss before errors h)
  IsCaredFor-append before errors first steps (moved_on s h k) = moved_on s h k

  abbrev Cares : List OperationError × List EnforcementStep → Type 0
  Cares x = IsCaredFor w x.0 x.1

  terminal_moved : (s : TaskState) → is_timeout_terminal s ≡ true → awaits_reconciliation s ≡ false
  terminal_moved s h = ground arith

  reconcile_loaded-Cares :
      (r : Result StoreFailure TaskSnapshot) → w.reloaded ≡ r → Cares (reconcile_loaded w r)
  unfolding any_step any_error
  reconcile_loaded-Cares (err f) e = reported refl
  reconcile_loaded-Cares (ok s) e =
      branches Cares (is_timeout_terminal s.state) _ _
        (λ h. moved_on s e (terminal_moved s.state h))
        (λ h.
          branches Cares (not (awaits_reconciliation s.state)) _ _
            (λ k. moved_on s e (ground arith))
            (λ k. elim (Bool-cases w.register_fails) [
              | inl fails ↦ rw fails (reported refl)
              | inr works ↦ registered refl works
            ]))

  reconciled-Cares : Cares (reconcile_after_confirmed_death w)
  unfolding reconcile_after_confirmed_death
  reconciled-Cares = reconcile_loaded-Cares w.reloaded refl

  one_more :
      (e : OperationError) (step : EnforcementStep)
      → Cares
          (e ∷ (reconcile_after_confirmed_death w).0, step ∷ (reconcile_after_confirmed_death w).1)
  one_more e step = IsCaredFor-append (e ∷ []) _ (step ∷ []) _ reconciled-Cares

  recover-Cares : (s : TaskSnapshot) → Cares (recover w s)
  unfolding any_step
  recover-Cares s =
      branches Cares w.recovery_fails _ _ (λ h. one_more _ (recovers s.session_ref))
        (λ h. recovery_runs refl h)

  release_and_recover-Cares : (s : TaskSnapshot) → Cares (release_and_recover w s)
  release_and_recover-Cares s =
      branches Cares (is_impl s.subcommand) _ _
        (λ h.
          branches Cares w.release_fails _ _ (λ k. one_more _ releases_path_lock)
            (λ k. IsCaredFor-append [] _ (releases_path_lock ∷ []) _ (recover-Cares s)))
        (λ h. recover-Cares s)

  settle_timeout-Cares : (i : TimeoutInput) (s : TaskSnapshot) → Cares (settle_timeout w i s)
  unfolding settle_timeout any_step any_error
  settle_timeout-Cares i s =
      let t = (stop_process w i s s.pid s.process_started_at).termination in
      branches Cares (t.confirm_failed || not t.is_dead) _ _
        (λ h. elim (Bool-cases w.register_fails) [
          | inl fails ↦ rw fails (reported refl)
          | inr works ↦ registered (any_step-append is_registration t.signal_steps _ refl) works
        ])
        (λ h. IsCaredFor-append [] _ t.signal_steps _ (release_and_recover-Cares s))

  after_lock-Cares :
      (i : TimeoutInput) (l : LockedTimeout) (events : List Event) (errors : List OperationError)
      → (after_lock w i l).0 ≡ timed_out events errors
      → IsCaredFor w errors (after_lock w i l).1
  after_lock-Cares i (lock_failed stage retryable) events errors h = cc
  after_lock-Cares i lock_terminal events errors h = cc
  after_lock-Cares i (lock_saved s n emitted) events errors h =
      let rest = settle_timeout w i s in
      let same : append_errors w.append_fails emitted ++ rest.0 ≡ errors = cc in
      subst (λ e. IsCaredFor w e (locked_steps s n emitted ++ rest.1)) same
        (IsCaredFor-append (append_errors w.append_fails emitted) rest.0 (locked_steps s n emitted)
          rest.1 (settle_timeout-Cares i s))

-- A task that is timed out is not forgotten, whatever fails after it was saved: it is registered for
-- the reconciliation, or its recovery runs without an error, or the errors say that it could not be
-- registered or not be loaded again, or it was loaded again in a state that needs no reconciliation.
pub execute_timeout-IsCaredFor :
    (w : TimeoutWorld) (i : TimeoutInput) (events : List Event) (errors : List OperationError)
    → (execute_timeout w i).0 ≡ timed_out events errors
    → IsCaredFor w errors (execute_timeout w i).1
unfolding execute_timeout
execute_timeout-IsCaredFor w i events errors h =
    after_lock-Cares w i (execute_locked w i) events errors h
