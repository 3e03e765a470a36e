-- ===== src/Execution/StallCheck/Decisions.antt =====
-- What a check may do to a task, and that it does it.
use codex_runner.Prelude.{
  ℕ, ◌-◌, ◌*◌, ◌<◌, ◌≡◌, ◌⊎◌, refl, inl, inr, Bool, true, false, not, ◌&&◌, List, Option, none,
  some, text, ltb, if◌then◌else◌, Result, ok, err, Option-cases, Bool-cases, arith,
}
use codex_runner.Domain.Enums.{TaskState, stalled, orphaned}
use codex_runner.Domain.Values.{Time, Err}
use codex_runner.Domain.Task.{Task, detect_orphan, mark_stalled, transition}
use codex_runner.Domain.Task.Events.{Event}
use codex_runner.Domain.Snapshot.{TaskSnapshot, restore, with_task, validate, updated}
use codex_runner.Execution.StallCheck.{
  StallWorld, check_one, check_task, check_dead, check_silence, persist, save, asked, is_unowned,
  start_of, gap_of, handle_orphan, is_running, is_stalled, stall_threshold_seconds, second,
}

-- The snapshot is the old one, or a valid one in the given state.
abbrev pub IsSaved : TaskSnapshot → TaskState → TaskSnapshot → Type 0
IsSaved s state n = (n ≡ s) ⊎ ((validate n ≡ none) × (n.state ≡ state))

save-IsSaved :
    (w : StallWorld) (s : TaskSnapshot) (events : List Event) (t : Task)
    → IsSaved s t.state (save w s events (with_task s t w.now)).1
unfolding with_task
save-IsSaved w s events t = elim (Option-cases (validate (updated s t w.now))) [
  | inr (v, bad) ↦ rw bad (inl refl)
  | inl good ↦ elim (Bool-cases w.save_fails) [
    | inl fails ↦ simp (good, fails) (inl refl)
    | inr saves ↦ simp (good, saves) (inr (refl, refl))
  ]
]

detect_orphan-state :
    (w : StallWorld) (t : Task) (events : List Event)
    → (detect_orphan (text "running") w.now t).0 ≡ ok events
    → (detect_orphan (text "running") w.now t).1.state ≡ orphaned
unfolding detect_orphan transition
detect_orphan-state w t events h = ground arith

mark_stalled-state :
    (gap : ℕ) (at : Time) (t : Task) (events : List Event)
    → (mark_stalled gap at t).0 ≡ ok events
    → (mark_stalled gap at t).1.state ≡ stalled
unfolding mark_stalled transition
mark_stalled-state gap at t events h = ground arith

persist-IsSaved :
    (w : StallWorld) (s : TaskSnapshot) (r : Result Err (List Event) × Task) (state : TaskState)
    → ((events : List Event) → r.0 ≡ ok events → r.1.state ≡ state)
    → IsSaved s state (persist w s r).1
persist-IsSaved w s (err e, t) state h = inl refl
persist-IsSaved w s (ok events, t) state h = rw (← h events refl) (save-IsSaved w s events t)

-- What may have become of the snapshot, and why.
pub data Decision (w : StallWorld) (s : TaskSnapshot) : TaskSnapshot → Type 0 where
  keeps : Decision w s s
  orphans :
      (n : TaskSnapshot)
      → validate n ≡ none
      → n.state ≡ orphaned
      → w.owned_before_lock ≡ false
      → w.owned_after_lock ≡ false
      → w.liveness ≡ ok true
      → w.context_done ≡ false
      → Decision w s n
  stalls :
      (n : TaskSnapshot) (start : Time)
      → validate n ≡ none
      → n.state ≡ stalled
      → start_of s ≡ some start
      → stall_threshold_seconds * second < w.now - start
      → Decision w s n

module _ (w : StallWorld) (s : TaskSnapshot) where
  check_silence-Decision :
      (t : Task) (o : Option Time) → start_of s ≡ o → Decision w s (check_silence w s t o).1
  check_silence-Decision t none e = keeps
  check_silence-Decision t (some start) e =
      elim (Bool-cases (ltb (stall_threshold_seconds * second) (w.now - start))) [
        | inr early ↦ rw early keeps
        | inl late ↦
            rw late
              (elim (persist-IsSaved w s (mark_stalled (gap_of (w.now - start)) w.now t) stalled
                (mark_stalled-state (gap_of (w.now - start)) w.now t)) [
                  | inl same ↦ rw same keeps
                  | inr (valid, moved) ↦ stalls _ start valid moved e (after late)
                ])
      ]
    where
      after :
          ltb (stall_threshold_seconds * second) (w.now - start) ≡ true
          → stall_threshold_seconds * second < w.now - start
      after h = ground arith

  asked-dead :
      asked w ≡ ok true
      → (w.owned_before_lock ≡ false) × (w.owned_after_lock ≡ false) × (w.liveness ≡ ok true)
  asked-dead h = ground arith

  check_dead-Decision :
      (t : Task) (r : Result Err Bool) → asked w ≡ r → Decision w s (check_dead w s t r).1
  check_dead-Decision t (err e) h = keeps
  check_dead-Decision t (ok dead) h = elim (Bool-cases w.context_done) [
    | inl done ↦ simp done keeps
    | inr goes_on ↦ simp goes_on (of_dead dead h goes_on)
  ]
    where
      of_dead :
          (dead : Bool)
          → asked w ≡ ok dead
          → w.context_done ≡ false
          → Decision w s
              (if dead && is_unowned w
                then (
                  handle_orphan (persist w s (detect_orphan (text "running") w.now t)).0,
                  (persist w s (detect_orphan (text "running") w.now t)).1,
                )
                else check_silence w s t (start_of s)).1
      of_dead false e c = check_silence-Decision t (start_of s) refl
      of_dead true e c =
          let (before, after, gone) = asked-dead e in
          simp (before, after)
            (elim (persist-IsSaved w s (detect_orphan (text "running") w.now t) orphaned
              (detect_orphan-state w t)) [
                | inl same ↦ rw same keeps
                | inr (valid, moved) ↦ orphans _ valid moved before after gone c
              ])

  check_task-Decision : (r : Result Err Task) → Decision w s (check_task w s r).1
  check_task-Decision (err e) = keeps
  check_task-Decision (ok t) =
      elim (Bool-cases (not (is_running t.state) && not (is_stalled t.state))) [
        | inl other ↦ rw other keeps
        | inr here ↦ rw here (check_dead-Decision t (asked w) refl)
      ]

  -- A check keeps the snapshot, or saves a valid one in one of two states: orphaned, only if the
  -- task had no owner before and after the lock, its liveness check says that it is dead, and the
  -- context is not done; stalled, only if its last event, or else its start, is longer ago than the
  -- threshold.
  pub check_one-Decision : Decision w s (check_one w s).1
  unfolding check_one
  check_one-Decision = elim (Bool-cases w.load_fails) [
    | inl fails ↦ simp fails keeps
    | inr loads ↦ simp loads (check_task-Decision (restore s))
  ]
