-- ===== src/Execution/Enforcement/Persisting.antt =====
-- The state `timeout` is saved before anything else is done, and it is saved for every task that runs.
use codex_runner.Prelude.{
  ◌≡◌, ◌⊎◌, refl, sym, ap, subst, ◌∙◌, false, not, ◌&&◌, List, [], ◌∷◌, Option, none, arith,
  Option-cases, Bool-cases, inl, inr, Result, ok, err,
}
use codex_runner.Domain.Enums.{TaskState, running, stalled, timeout}
use codex_runner.Domain.Values.{Time, is_zero_time, SessionRef, Err}
use codex_runner.Domain.Task.{Task, mark_timed_out, transition}
use codex_runner.Domain.Task.Events.{Event}
use codex_runner.Domain.Task.Operations.{Op, perform, run}
use codex_runner.Domain.Snapshot.{TaskSnapshot, validate, restore, with_task, updated}
use codex_runner.Domain.Snapshot.Persistence.{IsLaunched, with_task-restored}
use codex_runner.Execution.StallCheck.{is_running, is_stalled}
use codex_runner.Execution.Signalling.{TimeoutWorld, StoreFailure, EnforcementStep, saves}
use codex_runner.Execution.Enforcement.{
  TimeoutInput, LockedTimeout, lock_failed, lock_terminal, lock_saved, save_timed_out,
  update_timed_out, mark_and_save, time_out_task, time_out_loaded, execute_locked, after_lock,
  execute_timeout,
}

abbrev pub timeout_event : Task → Option SessionRef → Time → Event
timeout_event t session at = Event.timed_out t.id t.timeout.resolved_seconds session at

mark_timed_out-ok :
    (session : Option SessionRef) (at : Time) (t : Task)
    → (t.state ≡ running) ⊎ (t.state ≡ stalled)
    → mark_timed_out session at t
      ≡ (ok (timeout_event t session at ∷ []), record t { state = timeout; session_ref = session })
unfolding mark_timed_out transition
mark_timed_out-ok session at t (inl h) = ground arith
mark_timed_out-ok session at t (inr h) = ground arith

active_either :
    (s : TaskState)
    → (not (is_running s) && not (is_stalled s)) ≡ false
    → (s ≡ running) ⊎ (s ≡ stalled)
active_either running h = inl refl
active_either stalled h = inr refl
active_either _ h = cc

-- What holds when the locked part has saved: the task was restored from the stored snapshot, it ran or
-- was stalled, and the saved snapshot is a valid one of the same task, timed out, which the store took.
pub record IsTimedOut (w : TimeoutWorld) (i : TimeoutInput) (s n : TaskSnapshot) : Type 0 where
  pub task : Task
  pub stored : w.loaded ≡ ok s
  pub restored : restore s ≡ ok task
  pub active : (task.state ≡ running) ⊎ (task.state ≡ stalled)
  pub saved :
      n ≡ updated s (record task { state = timeout; session_ref = s.session_ref }) i.occurred_at
  pub valid : validate n ≡ none
  pub state : n.state ≡ timeout
  pub written : w.save_failure ≡ none

with_task-ok :
    (s : TaskSnapshot) (t : Task) (at : Time) (n : TaskSnapshot)
    → with_task s t at ≡ ok n
    → (n ≡ updated s t at) × (validate n ≡ none)
unfolding with_task
with_task-ok s t at n h = elim (Option-cases (validate (updated s t at))) [
  | inl good ↦
      let same : ◌≡◌ {A = Result Err TaskSnapshot} (ok (updated s t at)) (ok n) = rw good at h in
      let e : updated s t at ≡ n = cc in (sym e, subst (λ x. validate x ≡ none) e good)
  | inr (v, bad) ↦ absurd (cc (rw bad at h))
]

save_timed_out-saved :
    (w : TimeoutWorld) (s s' n n' : TaskSnapshot) (events events' : List Event)
    → save_timed_out w s events n ≡ lock_saved s' n' events'
    → (s ≡ s') × (n ≡ n') × (w.save_failure ≡ none)
save_timed_out-saved w s s' n n' events events' h = elim (Option-cases w.save_failure) [
  | inl saved ↦ (cc (rw saved at h), cc (rw saved at h), saved)
  | inr (f, failed) ↦ absurd (cc (rw failed at h))
]

update_timed_out-saved :
    (w : TimeoutWorld) (s s' n' : TaskSnapshot) (events events' : List Event)
    (r : Result Err TaskSnapshot)
    → update_timed_out w s events r ≡ lock_saved s' n' events'
    → (s ≡ s') × (r ≡ ok n') × (w.save_failure ≡ none)
update_timed_out-saved w s s' n' events events' (err e) h = cc
update_timed_out-saved w s s' n' events events' (ok n) h =
    let r = save_timed_out-saved w s s' n n' events events' h in (r.0, ap ok r.1, r.2)

mark_and_save-saved :
    (w : TimeoutWorld) (i : TimeoutInput) (s s' n' : TaskSnapshot) (events events' : List Event)
    (r : Result Err (List Event) × Task)
    → mark_and_save w i s r ≡ lock_saved s' n' events'
    → (s ≡ s') × (with_task s r.1 i.occurred_at ≡ ok n') × (w.save_failure ≡ none)
mark_and_save-saved w i s s' n' events events' (err e, t) h = cc
mark_and_save-saved w i s s' n' events events' (ok emitted, t) h =
    update_timed_out-saved w s s' n' emitted events' (with_task s t i.occurred_at) h

time_out_task-saved :
    (w : TimeoutWorld) (i : TimeoutInput) (s s' n : TaskSnapshot) (events : List Event)
    (r : Result Err Task)
    → w.loaded ≡ ok s
    → restore s ≡ r
    → time_out_task w i s r ≡ lock_saved s' n events
    → (s ≡ s') × IsTimedOut w i s n
time_out_task-saved w i s s' n events (err e) l k h = cc
time_out_task-saved w i s s' n events (ok t) l k h =
    elim (Bool-cases (not (is_running t.state) && not (is_stalled t.state))) [
      | inl idle ↦ absurd (cc (rw idle at h))
      | inr active ↦
          let a = active_either t.state active in
          let marked = mark_timed_out-ok s.session_ref i.occurred_at t a in
          let m =
            mark_and_save-saved w i s s' n [] events (mark_timed_out s.session_ref i.occurred_at t)
              (rw active at h) in
          let u =
            with_task-ok s (mark_timed_out s.session_ref i.occurred_at t).1 i.occurred_at n m.1 in
          let e : n
              ≡ updated s (record t { state = timeout; session_ref = s.session_ref })
                  i.occurred_at =
            u.0 ∙ ap (λ x. updated s x.1 i.occurred_at) marked in
          (
            m.0,
            record {
              task = t;
              stored = l;
              restored = k;
              active = a;
              saved = e;
              valid = u.1;
              state = ap (λ (x : TaskSnapshot). x.state) e;
              written = m.2;
            },
          )
    ]

pub execute_locked-saved :
    (w : TimeoutWorld) (i : TimeoutInput) (s n : TaskSnapshot) (events : List Event)
    (r : Result StoreFailure TaskSnapshot)
    → w.loaded ≡ r
    → time_out_loaded w i r ≡ lock_saved s n events
    → IsTimedOut w i s n
execute_locked-saved w i s n events (err f) l h = cc
execute_locked-saved w i s n events (ok s') l h =
    let r = time_out_task-saved w i s' s n events (restore s') l refl h in
    subst (λ x. IsTimedOut w i x n) r.0 r.1

-- The steps of a run: none, or the saving of the state `timeout` and then the others.
pub data SavesFirst (w : TimeoutWorld) (i : TimeoutInput) : List EnforcementStep → Type 0 where
  does_nothing : SavesFirst w i []
  saves_then :
      (s n : TaskSnapshot) (rest : List EnforcementStep)
      → IsTimedOut w i s n
      → SavesFirst w i (saves n ∷ rest)

after_lock-SavesFirst :
    (w : TimeoutWorld) (i : TimeoutInput) (l : LockedTimeout)
    → execute_locked w i ≡ l
    → SavesFirst w i (after_lock w i l).1
unfolding execute_locked
after_lock-SavesFirst w i (lock_failed stage retryable) e = does_nothing
after_lock-SavesFirst w i lock_terminal e = does_nothing
after_lock-SavesFirst w i (lock_saved s n events) e =
    saves_then s n _ (execute_locked-saved w i s n events w.loaded refl e)

-- Enforcing a timeout does nothing at all, or the first thing that it does is to save, without an error,
-- a valid snapshot of the stored task in the state timeout, which ran or was stalled before. So no signal is sent, no
-- lock released and no recovery started for a task that is not saved as timed out.
pub execute_timeout-SavesFirst :
    (w : TimeoutWorld) (i : TimeoutInput) → SavesFirst w i (execute_timeout w i).1
unfolding execute_timeout
execute_timeout-SavesFirst w i = after_lock-SavesFirst w i (execute_locked w i) refl

timed_out_saved :
    (s : TaskSnapshot) (t : Task) (at : Time)
    → IsLaunched s
    → restore s ≡ ok t
    → (t.state ≡ running) ⊎ (t.state ≡ stalled)
    → is_zero_time at ≡ false
    → with_task s (record t { state = timeout; session_ref = s.session_ref }) at
      ≡ ok (updated s (record t { state = timeout; session_ref = s.session_ref }) at)
unfolding run perform
timed_out_saved s t at l r h now =
    subst (λ u. with_task s u at ≡ ok (updated s u at))
      (ap (λ x. x.1) (mark_timed_out-ok s.session_ref at t h))
      (with_task-restored s t (Op.mark_timed_out s.session_ref at ∷ []) at l r now)

is_active :
    (s : TaskState)
    → (s ≡ running) ⊎ (s ≡ stalled)
    → (not (is_running s) && not (is_stalled s)) ≡ false
is_active s (inl h) = ground arith
is_active s (inr h) = ground arith

time_out_task-active :
    (w : TimeoutWorld) (i : TimeoutInput) (s : TaskSnapshot) (t : Task)
    → (t.state ≡ running) ⊎ (t.state ≡ stalled)
    → time_out_task w i s (ok t)
      ≡ mark_and_save w i s (mark_timed_out s.session_ref i.occurred_at t)
time_out_task-active w i s t a = rw (is_active t.state a) refl

-- A launched task that runs or is stalled, and whose snapshot can be restored, times out at any instant
-- but the zero time, where the store loads and saves: the locked part saves its snapshot with the state
-- timeout, and emits the one event for it.
pub execute_locked-enforces :
    (w : TimeoutWorld) (i : TimeoutInput) (s : TaskSnapshot) (t : Task)
    → w.loaded ≡ ok s
    → IsLaunched s
    → restore s ≡ ok t
    → (t.state ≡ running) ⊎ (t.state ≡ stalled)
    → is_zero_time i.occurred_at ≡ false
    → w.save_failure ≡ none
    → execute_locked w i
      ≡ lock_saved s
          (updated s (record t { state = timeout; session_ref = s.session_ref }) i.occurred_at)
          (timeout_event t s.session_ref i.occurred_at ∷ [])
unfolding execute_locked
execute_locked-enforces w i s t l launched r a now saved =
    ap (time_out_loaded w i) l
    ∙ (ap (time_out_task w i s) r
        ∙ (time_out_task-active w i s t a
            ∙ (ap (mark_and_save w i s) (mark_timed_out-ok s.session_ref i.occurred_at t a)
                ∙ (ap (update_timed_out w s (timeout_event t s.session_ref i.occurred_at ∷ []))
                      (timed_out_saved s t i.occurred_at launched r a now)
                    ∙ rw saved refl))))
