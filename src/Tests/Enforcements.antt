-- ===== src/Tests/Enforcements.antt =====
-- A timeout of the running task, whose process must be killed.
use codex_runner.Prelude.{◌≡◌, refl, true, false, [], ◌∷◌, none, inl, ok, All, text_eq}
use codex_runner.Domain.Enums.{timeout}
use codex_runner.Domain.Values.{new_timeout, new_process_start_time}
use codex_runner.Domain.NormalizedPath.{new_normalized_path}
use codex_runner.Domain.Identifiers.{slug_from_task_id}
use codex_runner.Domain.Task.{mark_timed_out}
use codex_runner.Domain.Snapshot.{TaskSnapshot, updated, validate, restore, with_task}
use codex_runner.Execution.Signalling.{SignalWorld, TimeoutWorld, LivenessAnswer}
use codex_runner.Execution.Enforcement.{
  TimeoutInput, lock_saved, execute_locked, execute_timeout, timed_out, recovery_failed,
}
use codex_runner.Execution.Enforcement.Persisting.{
  SavesFirst, timeout_event, execute_timeout-SavesFirst, execute_locked-enforces,
}
use codex_runner.Execution.Enforcement.Signals.{
  MaySend, MayRecover, execute_timeout-MaySend, execute_timeout-MayRecover,
}
use codex_runner.Execution.Enforcement.Settling.{IsCaredFor, execute_timeout-IsCaredFor}
use codex_runner.Tests.Snapshots.{
  running_snapshot, restored_task, running_snapshot-IsLaunched, snapshot_restores,
}

abbrev timed_out_snapshot : TaskSnapshot
timed_out_snapshot = updated running_snapshot (record restored_task { state = timeout }) 2000

abbrev at_signal : SignalWorld
at_signal = record { stored = ok timed_out_snapshot; owns_lease = true; call_fails = false }

abbrev is_alive : LivenessAnswer
is_alive = record { found_dead = false; answer_failed = false }

abbrev is_gone : LivenessAnswer
is_gone = record { found_dead = true; answer_failed = false }

abbrev a_world : TimeoutWorld
a_world = record {
  loaded = ok running_snapshot;
  save_failure = none;
  append_fails = λ e. false;
  terminate = at_signal;
  kill = at_signal;
  first_answer = is_alive;
  second_answer = is_gone;
  context_ended = false;
  register_fails = false;
  release_fails = false;
  recovery_fails = true;
  reloaded = ok timed_out_snapshot;
}

abbrev an_input : TimeoutInput
an_input = record {
  timed_out_task = running_snapshot.task_id;
  lease_generation = 3;
  occurred_at = 2000;
}

execute_timeout-SavesFirst_example :
    SavesFirst a_world an_input (execute_timeout a_world an_input).1
execute_timeout-SavesFirst_example = execute_timeout-SavesFirst a_world an_input

execute_locked-enforces_example :
    execute_locked a_world an_input
    ≡ lock_saved running_snapshot
        (updated running_snapshot
          (record restored_task { state = timeout; session_ref = running_snapshot.session_ref })
          2000)
        (timeout_event restored_task running_snapshot.session_ref 2000 ∷ [])
execute_locked-enforces_example =
    execute_locked-enforces a_world an_input running_snapshot restored_task refl
      running_snapshot-IsLaunched snapshot_restores (inl refl) refl refl

execute_timeout-MaySend_example :
    All (MaySend a_world running_snapshot) (execute_timeout a_world an_input).1
execute_timeout-MaySend_example = execute_timeout-MaySend a_world an_input running_snapshot refl

execute_timeout-MayRecover_example :
    All (MayRecover a_world running_snapshot) (execute_timeout a_world an_input).1
execute_timeout-MayRecover_example =
    execute_timeout-MayRecover a_world an_input running_snapshot refl

times_out :
    (execute_timeout a_world an_input).0
    ≡ timed_out (timeout_event restored_task none 2000 ∷ []) (recovery_failed ∷ [])
unfolding execute_timeout restore mark_timed_out with_task validate text_eq new_normalized_path
    slug_from_task_id new_timeout new_process_start_time
times_out = refl

execute_timeout-IsCaredFor_example :
    IsCaredFor a_world (recovery_failed ∷ []) (execute_timeout a_world an_input).1
execute_timeout-IsCaredFor_example =
    execute_timeout-IsCaredFor a_world an_input (timeout_event restored_task none 2000 ∷ [])
      (recovery_failed ∷ []) times_out
