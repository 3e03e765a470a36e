-- ===== src/Tests/Queues.antt =====
-- The theorems on the queue and the slots, at two waiting tasks and limits of two and one.
use codex_runner.Prelude.{◌≡◌, refl, false, List, [], ◌∷◌, none, some, text, length, arith}
use codex_runner.Prelude.Dict
use codex_runner.Domain.Enums.{SandboxMode, WorktreeMode, Subcommand}
use codex_runner.Domain.Task.{Task}
use codex_runner.Execution.Queue
use codex_runner.Execution.Queue.{TaskLaunchPayload, TaskQueue, Removed, queue_position}
use codex_runner.Execution.Queue.Order.{fifo, enqueue_all, dequeue_times}
use codex_runner.Execution.Slots.{Limits, Slots, TaskAdmissionInput}
use codex_runner.Execution.Slots.Capacity.{IsWithin}
use codex_runner.Execution.Slots.Runs.{SlotOp, run_slots, run_slots-IsWithin}
use codex_runner.Tests.Tasks.{an_id, fresh_task, half_an_hour}

abbrev payload : Task → TaskLaunchPayload
payload t = record {
  task = some t;
  model = text "gpt-5";
  reasoning_effort = none;
  prompt_text = text "fix it";
  normalized_paths = [];
  resolved_timeout = half_an_hour;
  sandbox_mode = SandboxMode.workspace_write;
  source_working_dir = text "/srv/work";
  working_dir = some (text "/srv/work");
  worktree_mode = WorktreeMode.current;
  output_schema_path = none;
}

abbrev first : TaskLaunchPayload
first = payload fresh_task

abbrev second : TaskLaunchPayload
second = payload (record fresh_task {
  id = text "plan-20260725-101113-0a1f-fix-it";
  slug = text "fix-it";
  subcommand = Subcommand.plan;
  queue_position = 2;
})

abbrev two_waiting : TaskQueue
two_waiting = first ∷ second ∷ []

fifo_example :
    dequeue_times (length (enqueue_all two_waiting [])) (enqueue_all two_waiting [])
    ≡ some first ∷ some second ∷ []
fifo_example = fifo two_waiting [] refl

abbrev small_limits : Limits
small_limits = record {
  max_concurrent_tasks = 2;
  max_concurrent_impl_tasks = 1;
  queue_max_depth = 2;
}

abbrev empty_slots : Slots
empty_slots = record { queue = []; reservations = []; launching = []; promotions = [] }

empty_slots-IsWithin : IsWithin small_limits empty_slots
unfolding Dict.count
empty_slots-IsWithin = record {
  tasks = omega arith;
  impls = omega arith;
  waiting = omega arith;
  ordered = record { queued_only = refl; indexed = tt };
}

abbrev an_input : TaskAdmissionInput
an_input = record {
  task_id = an_id;
  subcommand = Subcommand.impl;
  slug = text "fix-login";
  requested_timeout = none;
  requested_at = 100;
  prompt_text = text "fix it";
  normalized_paths = [];
  resolved_timeout = half_an_hour;
  model = text "gpt-5";
  reasoning_effort = none;
  sandbox_mode = SandboxMode.workspace_write;
  source_working_dir = text "/srv/work";
  worktree_mode = WorktreeMode.current;
  output_schema_path = none;
}

-- Two impl tasks for one slot; the first ends, and the second is promoted and starts.
abbrev slot_ops : List SlotOp
slot_ops =
    SlotOp.admits an_input
    ∷ SlotOp.admits (record an_input { task_id = text "impl-20260725-101114-0a1f-fix-login" })
    ∷ SlotOp.advances (λ i. false) an_id 400
    ∷ SlotOp.commits first
    ∷ []

run_slots-IsWithin_example : IsWithin small_limits (run_slots small_limits empty_slots slot_ops)
run_slots-IsWithin_example =
    run_slots-IsWithin small_limits empty_slots slot_ops empty_slots-IsWithin
