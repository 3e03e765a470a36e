-- ===== src/Execution/Enforcement/Authority.antt =====
-- Whom a signal can reach.
use codex_runner.Prelude.{
  ℤ, pos, negsuc, ◌≡◌, refl, sym, ap, ◌∙◌, Bool, true, not, List, Option, none, some, text_eq,
  text_eq_iff, ◌==◌, arith, Bool-cases, inl, inr, Result, ok, err, branches, All, both_true,
}
use codex_runner.Domain.Enums.{TaskState, timeout}
use codex_runner.Domain.Values.{Time}
use codex_runner.Domain.Snapshot.{TaskSnapshot}
use codex_runner.Execution.Signalling.{
  StoreFailure, valid_signal_authority, same_task_state, same_int, holds_value,
  matches_signal_authority, SignalError, SignalWorld, EnforcementStep, call_matching, send_signal,
}
use codex_runner.Execution.Enforcement.{TimeoutInput, timeout_authority}

-- At the time of the signal the store has the task of `s` in the state timeout, with the process that
-- it had in `s`, and the lease is current.
pub record IsAuthorized (w : SignalWorld) (s : TaskSnapshot) (pid : ℤ) : Type 0 where
  pub current : TaskSnapshot
  pub stored : w.stored ≡ ok current
  pub same_task : current.task_id ≡ s.task_id
  pub process : s.pid ≡ some pid
  pub same_process : current.pid ≡ some pid
  pub same_start : current.process_started_at ≡ s.process_started_at
  pub timed_out : current.state ≡ timeout
  pub leased : w.owns_lease ≡ true

same_int-eq : (a b : ℤ) → same_int a b ≡ true → a ≡ b
unfolding same_int
same_int-eq (pos a) (pos b) h = ground arith
same_int-eq (pos a) (negsuc b) h = cc
same_int-eq (negsuc a) (pos b) h = cc
same_int-eq (negsuc a) (negsuc b) h = ground arith

same_task_state-timeout : (a : TaskState) → same_task_state a timeout ≡ true → a ≡ timeout
unfolding same_task_state
same_task_state-timeout timeout h = refl
same_task_state-timeout _ h = cc

holds_some {ℓ} :
    {A : Type ℓ} (p : A → Bool) (o : Option A)
    → holds_value p o ≡ true
    → (a : A) × (o ≡ some a) × (p a ≡ true)
holds_some p none h = cc
holds_some p (some a) h = (a, refl, h)

module _ (i : TimeoutInput) (s : TaskSnapshot) (pid : ℤ) (at : Time) where
  matched-IsAuthorized :
      (w : SignalWorld) (c : TaskSnapshot)
      → s.pid ≡ some pid
      → s.process_started_at ≡ some at
      → w.stored ≡ ok c
      → w.owns_lease ≡ true
      → matches_signal_authority c (timeout_authority i s pid at) ≡ true
      → IsAuthorized w s pid
  unfolding matches_signal_authority
  matched-IsAuthorized w c p q stored leased h =
      let a = timeout_authority i s pid at in
      let (t, h1) = both_true (text_eq c.task_id s.task_id) _ h in
      let (x, h2) = both_true (holds_value (λ n. same_int n pid) c.pid) _ h1 in
      let (y, z) = both_true (holds_value (λ b. b == at) c.process_started_at) _ h2 in
      let same_pid = holds_some (λ n. same_int n pid) c.pid x in
      let same_time = holds_some (λ b. b == at) c.process_started_at y in
      let equal_time : same_time.0 ≡ at = ground (arith, same_time.2) in
      record {
        current = c;
        stored = stored;
        same_task = (text_eq_iff c.task_id s.task_id).0 t;
        process = p;
        same_process = same_pid.1 ∙ ap some (same_int-eq same_pid.0 pid same_pid.2);
        same_start = same_time.1 ∙ (ap some equal_time ∙ sym q);
        timed_out = same_task_state-timeout c.state z;
        leased = leased;
      }

  -- A signal step is made only by a matching snapshot and a current lease.
  call_matching-All :
      (P : EnforcementStep → Type 0) (w : SignalWorld) (step : EnforcementStep)
      (r : Result StoreFailure TaskSnapshot)
      → s.pid ≡ some pid
      → s.process_started_at ≡ some at
      → w.stored ≡ r
      → (IsAuthorized w s pid → P step)
      → All P (call_matching w (timeout_authority i s pid at) step r).1
  call_matching-All P w step (err e) p q stored made = tt
  call_matching-All P w step (ok c) p q stored made =
      elim (Bool-cases (matches_signal_authority c (timeout_authority i s pid at))) [
        | inr no_match ↦ rw no_match tt
        | inl match ↦ elim (Bool-cases w.owns_lease) [
          | inr lost ↦ rw (match, lost) tt
          | inl leased ↦
              rw (match, leased) (made (matched-IsAuthorized w c p q stored leased match), tt)
        ]
      ]

  pub send_signal-All :
      (P : EnforcementStep → Type 0) (w : SignalWorld) (step : ℤ → EnforcementStep)
      → s.pid ≡ some pid
      → s.process_started_at ≡ some at
      → (IsAuthorized w s pid → P (step pid))
      → All P (send_signal w (timeout_authority i s pid at) step).1
  unfolding send_signal
  send_signal-All P w step p q made =
      branches (λ (x : Option SignalError × List EnforcementStep). All P x.1)
        (not (valid_signal_authority (timeout_authority i s pid at))) _ _ (λ h. tt)
        (λ h. call_matching-All P w (step pid) w.stored p q refl made)
