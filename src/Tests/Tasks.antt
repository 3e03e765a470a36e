-- ===== src/Tests/Tasks.antt =====
-- The theorems on the task aggregate, at a task that runs, times out and is recovered.
use codex_runner.Prelude.{◌≡◌, ◌+◌, refl, true, false, List, [], ◌∷◌, none, some, text, pos, ℕ}
use codex_runner.Domain.Enums.{unset, Subcommand, queued, running, completed}
use codex_runner.Domain.Values.{new_exit_code, zero_timeout, Timeout}
use codex_runner.Domain.Task
use codex_runner.Domain.Task.{Task}
use codex_runner.Domain.Task.Operations.{Op, perform, run}
use codex_runner.Domain.Task.Lifecycle.{perform-⟶, ◌⟶◌, perform_error_unchanged}
use codex_runner.Domain.Task.Invariant.{Inv, run-Inv}
use codex_runner.Domain.Task.History.{history, history-final, count_final}

abbrev pub an_id : List ℕ
an_id = text "impl-20260725-101112-0a1f-fix-login"

abbrev pub half_an_hour : Timeout
half_an_hour = record { requested_seconds = none; resolved_seconds = pos 1800 }

abbrev pub fresh_task : Task
fresh_task = record {
  id = an_id;
  subcommand = Subcommand.impl;
  slug = text "fix-login";
  requested_timeout = none;
  requested_at = 100;
  state = queued;
  queue_position = 1;
  timeout = zero_timeout;
  model = [];
  process_start_time = none;
  last_event_at = 0;
  session_ref = none;
  recovery_origin = unset;
  adopted_after_restart = false;
  exit_code = none;
}

abbrev pub running_task : Task
running_task = record fresh_task {
  state = running;
  timeout = half_an_hour;
  model = text "gpt-5";
  process_start_time = some (record { pid = pos 4711; started_at = 120 });
}

abbrev ended_task : Task
ended_task = record running_task { state = completed; exit_code = some (new_exit_code (pos 0)) }

-- From the queue to the recovery after a timeout; the second start is refused.
abbrev a_history : List Op
a_history =
    Op.start half_an_hour (text "gpt-5") 110
    ∷ Op.start half_an_hour (text "gpt-5") 111
    ∷ Op.record_process_info (pos 4711) 120 121
    ∷ Op.confirm_running 122
    ∷ Op.mark_timed_out none 2000
    ∷ Op.begin_recovery none 2001
    ∷ Op.complete_recovery (new_exit_code (pos 0)) 2002
    ∷ []

fresh_task-Inv : Inv fresh_task
fresh_task-Inv = record {
  known = refl;
  exit_recorded = refl;
  completed_successfully = λ h. cc;
  origin_recorded = refl;
  origin_known = λ h. cc;
  lost_by_timeout = λ h. cc;
  lost_by_orphaning = λ h. cc;
  process = tt;
  no_process_queued = λ h. refl;
}

run-Inv_example : Inv (run fresh_task a_history)
run-Inv_example = run-Inv fresh_task a_history fresh_task-Inv

history-final_example : count_final (history fresh_task a_history) + 0 ≡ 1
unfolding run perform Task.start
history-final_example = history-final fresh_task a_history

perform-⟶_example :
    running
    ⟶ (perform (Op.record_exit (new_exit_code (pos 0)) true false false 130) running_task).1.state
unfolding perform new_exit_code
perform-⟶_example =
    perform-⟶ (Op.record_exit (new_exit_code (pos 0)) true false false 130) running_task refl

perform_error_unchanged_example :
    (perform (Op.start half_an_hour [] 130) running_task).1 ≡ running_task
unfolding perform
perform_error_unchanged_example =
    perform_error_unchanged (Op.start half_an_hour [] 130) running_task refl
