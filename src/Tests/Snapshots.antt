-- ===== src/Tests/Snapshots.antt =====
-- The theorems on the persisted form, at the snapshot of a running task.
use codex_runner.Prelude.{
  ◌≡◌, ◌↔◌, refl, true, false, List, [], ◌∷◌, none, some, inl, ok, text, pos, text_eq,
}
use codex_runner.Domain.Enums.{running, orphaned, SandboxMode, ExecutionRoute}
use codex_runner.Domain.Values.{new_exit_code, new_timeout, new_process_start_time}
use codex_runner.Domain.NormalizedPath.{new_normalized_path}
use codex_runner.Domain.Identifiers.{slug_from_task_id}
use codex_runner.Domain.Task.{Task}
use codex_runner.Domain.Task.Operations.{Op, run}
use codex_runner.Domain.Snapshot.{TaskSnapshot, validate, restore, with_task, updated}
use codex_runner.Domain.Snapshot.Validity.{IsConsistent, validate_iff}
use codex_runner.Domain.Snapshot.RoundTrip.{restore-with_task}
use codex_runner.Domain.Snapshot.Persistence.{IsLaunched, with_task-restored}
use codex_runner.Execution.StallCheck.{StallWorld, check_one}
use codex_runner.Execution.StallCheck.Decisions.{Decision, check_one-Decision}
use codex_runner.Execution.StallCheck.Progress.{check_one-orphans}
use codex_runner.Tests.Tasks.{an_id, running_task}

abbrev pub running_snapshot : TaskSnapshot
running_snapshot = record {
  task_id = an_id;
  subcommand = running_task.subcommand;
  pid = some (pos 4711);
  process_started_at = some 120;
  resolved_timeout_seconds = pos 1800;
  requested_timeout_seconds = none;
  model = text "gpt-5";
  reasoning_effort = some (text "high");
  sandbox_mode = SandboxMode.workspace_write;
  working_dir = some (text "/srv/work");
  requested_at = 100;
  route = ExecutionRoute.daemon;
  state = running;
  state_updated_at = 122;
  session_ref = none;
  last_event_at = none;
  exit_code = none;
  recovered = false;
  adopted_after_restart = false;
  recovery_origin = none;
  failure_code = none;
  schema_version = 4;
}

abbrev pub restored_task : Task
restored_task = record running_task { queue_position = 0 }

-- A timeout, its recovery, and a cancellation that comes too late.
abbrev some_ops : List Op
some_ops =
    Op.mark_timed_out none 2000
    ∷ Op.begin_recovery none 2001
    ∷ Op.complete_recovery (new_exit_code (pos 0)) 2002
    ∷ Op.request_cancel true 2003
    ∷ []

snapshot_valid : validate running_snapshot ≡ none
unfolding validate text_eq new_normalized_path
snapshot_valid = refl

pub snapshot_restores : restore running_snapshot ≡ ok restored_task
unfolding restore text_eq new_normalized_path slug_from_task_id new_timeout new_process_start_time
snapshot_restores = refl

pub running_snapshot-IsLaunched : IsLaunched running_snapshot
running_snapshot-IsLaunched = record {
  valid = snapshot_valid;
  has_pid = refl;
  not_queued = λ h. cc;
  dir_given = λ h. refl;
}

with_task-restored_example :
    with_task running_snapshot (run restored_task some_ops) 2010
    ≡ ok (updated running_snapshot (run restored_task some_ops) 2010)
with_task-restored_example =
    with_task-restored running_snapshot restored_task some_ops 2010 running_snapshot-IsLaunched
      snapshot_restores refl

task_saves :
    with_task running_snapshot running_task 130
    ≡ ok (record running_snapshot { state_updated_at = 130 })
unfolding with_task validate text_eq new_normalized_path
task_saves = refl

slug_found : slug_from_task_id an_id ≡ ok running_task.slug
unfolding slug_from_task_id
slug_found = refl

restore-with_task_example :
    restore (record running_snapshot { state_updated_at = 130 }) ≡ ok restored_task
restore-with_task_example =
    restore-with_task running_snapshot (record running_snapshot { state_updated_at = 130 })
      running_task 130 task_saves slug_found

validate_iff_example : (validate running_snapshot ≡ none) ↔ IsConsistent running_snapshot
validate_iff_example = validate_iff running_snapshot

-- Twenty-five minutes after the start of the process.
abbrev a_check : StallWorld
a_check = record {
  owned_before_lock = false;
  owned_after_lock = false;
  load_fails = false;
  now = 1_500_000_000_000;
  liveness = ok true;
  context_done = false;
  save_fails = false;
}

check_one-Decision_example :
    Decision a_check running_snapshot (check_one a_check running_snapshot).1
check_one-Decision_example = check_one-Decision a_check running_snapshot

check_one-orphans_example :
    (check_one a_check running_snapshot).1
    ≡ updated running_snapshot (record restored_task { state = orphaned }) 1_500_000_000_000
check_one-orphans_example =
    check_one-orphans a_check running_snapshot restored_task running_snapshot-IsLaunched
      snapshot_restores (inl refl) refl refl refl refl refl refl
