-- ===== src/Domain/Task/Invariant.antt =====
-- What holds of a task between two operations, over every history.
use codex_runner.Prelude.{
  ◌≡◌, Bool, true, false, List, [], ◌∷◌, Option, none, some, ℕ, ℤ, ok, arith, is_some, below,
}
use codex_runner.Domain.Enums.{
  TaskState, queued, completed, failed, recovered, timeout_lost, killed, lost, Subcommand,
  from_timeout, from_orphan, success, in_lineage, is_known_task_state, is_known_origin,
  origin_pointer,
}
use codex_runner.Domain.Values.{Time, TaskId, Slug, ExitCode, ProcessStartTime, is_zero_time}
use codex_runner.Domain.Task
use codex_runner.Domain.Task.{Task}
use codex_runner.Domain.Task.Events.{Event}
use codex_runner.Domain.Task.Operations.{Op, perform, run}

-- The states that a task reaches together with an exit code.
abbrev pub has_exit : TaskState → Bool
has_exit completed = true
has_exit failed = true
has_exit recovered = true
has_exit killed = true
has_exit _ = false

-- What `NewProcessStartTime` ensures.
abbrev pub IsProcess : Option ProcessStartTime → Type 0
IsProcess none = Unit
IsProcess (some p) = (below p.pid 1 ≡ false) × (is_zero_time p.started_at ≡ false)

abbrev pub IsSuccessful : Option ExitCode → Type 0
IsSuccessful none = ⊥
IsSuccessful (some code) = code.class ≡ success

pub record Inv (t : Task) : Type 0 where
  pub known : is_known_task_state t.state ≡ true
  pub exit_recorded : is_some t.exit_code ≡ has_exit t.state
  pub completed_successfully : t.state ≡ completed → IsSuccessful t.exit_code
  pub origin_recorded : is_some (origin_pointer t.recovery_origin) ≡ in_lineage t.state
  pub origin_known : in_lineage t.state ≡ true → is_known_origin t.recovery_origin ≡ true
  pub lost_by_timeout : t.state ≡ timeout_lost → t.recovery_origin ≡ from_timeout
  pub lost_by_orphaning : t.state ≡ lost → t.recovery_origin ≡ from_orphan
  pub process : IsProcess t.process_start_time
  pub no_process_queued : t.state ≡ queued → t.process_start_time ≡ none

pub new_task-Inv :
    (id : TaskId) (subcommand : Subcommand) (slug : Slug) (requested : Option ℤ) (at : Time)
    (position : ℕ) {t : Task} {events : List Event}
    → Task.new_task id subcommand slug requested at position ≡ ok (t, events)
    → Inv t
unfolding Task.new_task
new_task-Inv id subcommand slug requested at position h = ground arith

perform-Inv : (op : Op) (t : Task) → Inv t → Inv (perform op t).1
unfolding perform
perform-Inv (Op.adopt true at) t h = ground arith
perform-Inv (Op.adopt false at) t h = ground arith
perform-Inv _ t h = ground arith

-- Every history of operations, failing ones included, keeps the invariant: an exit code is there
-- in exactly the states that have one, and is a success in `completed`; an origin in exactly the
-- states of a recovery; the two lost states agree with it; process data are sound.
pub run-Inv : (t : Task) (ops : List Op) → Inv t → Inv (run t ops)
unfolding run
run-Inv t [] h = h
run-Inv t (op ∷ ops) h = run-Inv (perform op t).1 ops (perform-Inv op t h)
