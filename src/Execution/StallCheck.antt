-- ===== src/Execution/StallCheck.antt =====
-- internal/execution/usecase/stallcheck.go: the check of one task, under the task's mutex. The
-- answers of the registry, the store, the liveness check, the clock and the context are the record
-- `StallWorld`; an instant counts nanoseconds here. The state is the stored snapshot of the task.
pub mod Decisions
pub mod Progress
use codex_runner.Prelude.{
  ℕ, ◌-◌, ◌*◌, ◌/◌, ◌%◌, ◌+◌, Bool, true, false, not, ◌&&◌, ◌||◌, List, [], ◌∷◌, Option, none, some,
  text, ltb, ◌==◌, if◌then◌else◌, Result, ok, err,
}
use codex_runner.Domain.Enums.{TaskState, running, stalled, orphaned}
use codex_runner.Domain.Values.{Time, Err}
use codex_runner.Domain.Task.{Task, detect_orphan, mark_stalled}
use codex_runner.Domain.Task.Events.{Event}
use codex_runner.Domain.Snapshot.{TaskSnapshot, restore, with_task}

abbrev pub stall_threshold_seconds : ℕ
stall_threshold_seconds = 1200

abbrev pub second : ℕ
second = 1_000_000_000

pub record StallWorld : Type 0 where
  pub owned_before_lock : Bool
  pub owned_after_lock : Bool
  pub load_fails : Bool
  pub now : Time
  -- `liveness.Execute`: whether the task is dead, or an error
  pub liveness : Result Err Bool
  -- `ctx.Err() != nil`
  pub context_done : Bool
  pub save_fails : Bool

-- What is written beside the snapshot: the stalled time, and the events of the contract file.
pub data StalledTime : Type 0 where
  unchanged enters leaves : StalledTime

pub data Checked : Type 0 where
  -- nothing was written
  nothing : Checked
  persisted : StalledTime → List Event → Checked
  -- persisted, and then the recovery of the orphan is started
  orphan_handled : StalledTime → List Event → Checked

abbrev pub is_running : TaskState → Bool
is_running running = true
is_running _ = false

abbrev pub is_stalled : TaskState → Bool
is_stalled stalled = true
is_stalled _ = false

abbrev pub is_orphaned : TaskState → Bool
is_orphaned orphaned = true
is_orphaned _ = false

abbrev pub stalled_time : TaskState → TaskState → StalledTime
stalled_time before after =
    if is_running before && is_stalled after
    then enters
    else if is_stalled before && is_orphaned after
    then leaves
    else unchanged

abbrev pub save :
    StallWorld → TaskSnapshot → List Event → Result Err TaskSnapshot → Checked × TaskSnapshot
save w s events (err e) = (nothing, s)
save w s events (ok n) =
    if w.save_fails then (nothing, s) else (persisted (stalled_time s.state n.state) events, n)

-- `persist` after a method of the task: an error of either writes nothing.
abbrev pub persist :
    StallWorld → TaskSnapshot → Result Err (List Event) × Task → Checked × TaskSnapshot
persist w s (err e, t) = (nothing, s)
persist w s (ok events, t) = save w s events (with_task s t w.now)

abbrev pub handle_orphan : Checked → Checked
handle_orphan (persisted time events) = orphan_handled time events
handle_orphan _ = nothing

abbrev pub gap_of : ℕ → ℕ
gap_of elapsed = if elapsed % second == 0 then elapsed / second else elapsed / second + 1

-- `start == nil` falls back to the start of the process.
abbrev pub start_of : TaskSnapshot → Option Time
start_of s = elim s.last_event_at [ none ↦ s.process_started_at | some at ↦ some at ]

-- The second half: has the task been silent for longer than the threshold?
abbrev pub check_silence : StallWorld → TaskSnapshot → Task → Option Time → Checked × TaskSnapshot
check_silence w s t none = (nothing, s)
check_silence w s t (some start) =
    if not (ltb (stall_threshold_seconds * second) (w.now - start))
    then (nothing, s)
    else persist w s (mark_stalled (gap_of (w.now - start)) w.now t)

abbrev pub is_unowned : StallWorld → Bool
is_unowned w = not w.owned_before_lock && not w.owned_after_lock

-- `dead`, which stays false for a task with an owner.
abbrev pub asked : StallWorld → Result Err Bool
asked w = if is_unowned w then w.liveness else ok false

abbrev pub check_dead : StallWorld → TaskSnapshot → Task → Result Err Bool → Checked × TaskSnapshot
check_dead w s t (err e) = (nothing, s)
check_dead w s t (ok dead) =
    if w.context_done
    then (nothing, s)
    else if dead && is_unowned w
    then (let r = persist w s (detect_orphan (text "running") w.now t) in (handle_orphan r.0, r.1))
    else check_silence w s t (start_of s)

abbrev pub check_task : StallWorld → TaskSnapshot → Result Err Task → Checked × TaskSnapshot
check_task w s (err e) = (nothing, s)
check_task w s (ok t) =
    if not (is_running t.state) && not (is_stalled t.state)
    then (nothing, s)
    else check_dead w s t (asked w)

-- `checkOne`
unfoldable pub check_one : StallWorld → TaskSnapshot → Checked × TaskSnapshot
unfolding restore with_task detect_orphan mark_stalled
check_one w s = if w.load_fails then (nothing, s) else check_task w s (restore s)
