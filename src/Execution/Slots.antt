-- ===== src/Execution/Slots.antt =====
-- internal/execution/registry.go, launching.go, promotion.go and usecase/admit.go: who waits and who
-- has an execution slot. The shared objects of the two use cases are one record;
-- each use case runs under `queueMu`, so a run is a sequence of whole operations.
pub mod Promotion
pub mod Admission
pub mod Capacity
pub mod Runs
use codex_runner.Prelude.{
  ℕ, ◌+◌, pos, is_nat, ℤ, Bool, true, false, not, ◌&&◌, ◌||◌, List, [], ◌∷◌, Option, none, some,
  Text, text, text_eq, length, ltb, leb, if◌then◌else◌, is_some, Result, ok, err, Exec, pure, raise,
  lift, modify, ◌>>=◌, ◌>>◌,
}
use codex_runner.Prelude.Dict
use codex_runner.Prelude.Dict.{Dict}
use codex_runner.Domain.Enums.{
  Subcommand, is_impl, SandboxMode, WorktreeMode, ExecutionRoute, is_queued, TaskState, queued,
}
use codex_runner.Domain.Values.{
  Time, is_zero_time, TaskId, Slug, Err, queue_full, invalid_state_transition, admission_input,
  context_done, panicked, Timeout,
}
use codex_runner.Domain.NormalizedPath.{NormalizedPath}
use codex_runner.Domain.Task.{Task, new_task}
use codex_runner.Domain.Task.Events.{Event}
use codex_runner.Domain.Snapshot.{TaskSnapshot, new_task_snapshot_from_admission}
use codex_runner.Execution.Queue
use codex_runner.Execution.Queue.{TaskLaunchPayload, TaskQueue, enqueue, dequeue, prepend, reindex}

-- `maxConcurrentTasks`, `maxConcurrentImplTasks` and `queueMaxDepth`; the configuration rejects
-- negative ones.
pub record Limits : Type 0 where
  pub max_concurrent_tasks : ℕ
  pub max_concurrent_impl_tasks : ℕ
  pub queue_max_depth : ℕ

pub record Slots : Type 0 where
  pub queue : TaskQueue
  -- `activeTaskRegistry.reservations`
  pub reservations : Dict Subcommand
  -- `launchingTaskRegistry.snapshots`
  pub launching : Dict TaskSnapshot
  -- `PromotionRegistry.taskIDs`
  pub promotions : Dict (Unit {0})

abbrev pub size : Slots → ℕ
size s = length s.reservations

abbrev pub impl_size : Slots → ℕ
impl_size s = Dict.count is_impl s.reservations

abbrev pub add : TaskId → Subcommand → Slots → Slots
add id subcommand s = record s { reservations = Dict.put id subcommand s.reservations }

abbrev pub remove : TaskId → Slots → Slots
remove id s = record s { reservations = Dict.delete id s.reservations }

abbrev pub register : TaskId → TaskSnapshot → Slots → Slots
register id snapshot s = record s { launching = Dict.put id snapshot s.launching }

abbrev pub unregister : TaskId → Slots → Slots
unregister id s = record s { launching = Dict.delete id s.launching }

abbrev pub reserve : TaskId → Slots → Slots
reserve id s = record s { promotions = Dict.put id tt s.promotions }

-- `Resolve`: whether the promotion was there, and the registry without it.
abbrev pub is_promoted : TaskId → Slots → Bool
is_promoted id s = is_some (Dict.get id s.promotions)

abbrev pub resolve : TaskId → Slots → Slots
resolve id s = record s { promotions = Dict.delete id s.promotions }

-- An action of the queue, on the record that holds it.
abbrev pub on_queue : {A : Type 0} → Exec Err TaskQueue A → Exec Err Slots A
on_queue m s = ((m s.queue).0, record s { queue = (m s.queue).1 })

pub record TaskAdmissionInput : Type 0 where
  pub task_id : TaskId
  pub subcommand : Subcommand
  pub slug : Slug
  pub requested_timeout : Option ℤ
  pub requested_at : Time
  pub prompt_text : Text
  pub normalized_paths : List NormalizedPath
  pub resolved_timeout : Timeout
  pub model : Text
  pub reasoning_effort : Option Text
  pub sandbox_mode : SandboxMode
  pub source_working_dir : Text
  pub worktree_mode : WorktreeMode
  pub output_schema_path : Option Text

pub record TaskAdmissionResult : Type 0 where
  pub state : TaskState
  pub queue_position : Option ℕ
  pub events : List Event
  pub launch_payload : Option TaskLaunchPayload

abbrev is_empty_subcommand : Subcommand → Bool
is_empty_subcommand (Subcommand.other s) = text_eq s []
is_empty_subcommand _ = false

abbrev is_empty_sandbox : SandboxMode → Bool
is_empty_sandbox (SandboxMode.other s) = text_eq s []
is_empty_sandbox _ = false

abbrev is_empty_worktree_mode : WorktreeMode → Bool
is_empty_worktree_mode (WorktreeMode.other s) = text_eq s []
is_empty_worktree_mode _ = false

abbrev pub is_current : WorktreeMode → Bool
is_current WorktreeMode.current = true
is_current _ = false

unfoldable pub validate_admission_input : TaskAdmissionInput → Option Err
validate_admission_input i =
    if text_eq i.task_id []
    then some (admission_input (text "task ID"))
    else if is_empty_subcommand i.subcommand
    then some (admission_input (text "subcommand"))
    else if text_eq i.slug []
    then some (admission_input (text "slug"))
    else if is_zero_time i.requested_at
    then some (admission_input (text "requested at"))
    else if text_eq i.model []
    then some (admission_input (text "model"))
    else if text_eq i.prompt_text []
    then some (admission_input (text "prompt text"))
    else if is_nat i.resolved_timeout.resolved_seconds 0
    then some (admission_input (text "resolved timeout"))
    else if is_empty_sandbox i.sandbox_mode
    then some (admission_input (text "sandbox mode"))
    else if text_eq i.source_working_dir []
    then some (admission_input (text "source working directory"))
    else if is_empty_worktree_mode i.worktree_mode
    then some (admission_input (text "worktree mode"))
    else none

-- The payload of an admission. Only an impl task with a worktree of its own has no directory yet.
abbrev pub admission_payload : TaskAdmissionInput → Task → TaskLaunchPayload
admission_payload i t = record {
  task = some t;
  model = i.model;
  reasoning_effort = i.reasoning_effort;
  prompt_text = i.prompt_text;
  normalized_paths = i.normalized_paths;
  resolved_timeout = i.resolved_timeout;
  sandbox_mode = i.sandbox_mode;
  source_working_dir = i.source_working_dir;
  working_dir =
      if not (is_impl i.subcommand) || is_current i.worktree_mode
      then some i.source_working_dir
      else none;
  worktree_mode = i.worktree_mode;
  output_schema_path = i.output_schema_path;
}

-- Whether a task of a subcommand may take a slot.
abbrev pub has_slot : Limits → Slots → Subcommand → Bool
has_slot limits s subcommand =
    ltb (size s) limits.max_concurrent_tasks
    && (not (is_impl subcommand) || ltb (impl_size s) limits.max_concurrent_impl_tasks)

abbrev pub is_immediate : Limits → Slots → Subcommand → Bool
is_immediate limits s subcommand = has_slot limits s subcommand && leb (length s.queue) 0

abbrev pub fail_if : Option Err → Exec Err Slots Unit
fail_if none s = (ok tt, s)
fail_if (some e) s = (err e, s)

-- The snapshot that admits a payload's task, its creation time being that of the request.
abbrev pub admission_snapshot : TaskLaunchPayload → Task → Result Err TaskSnapshot
admission_snapshot p t =
    new_task_snapshot_from_admission t p.resolved_timeout p.model p.reasoning_effort p.sandbox_mode
      p.working_dir ExecutionRoute.daemon t.requested_at

pub admit_now : TaskAdmissionInput → Task × List Event → Exec Err Slots TaskAdmissionResult
admit_now i (t, events) = do
  snapshot ← lift (admission_snapshot (admission_payload i t) t)
  modify (add t.id i.subcommand)
  modify (register t.id snapshot)
  pure (record {
    state = queued;
    queue_position = none;
    events = events;
    launch_payload = some (admission_payload i t);
  })

pub admit_later : TaskAdmissionInput → Task × List Event → Exec Err Slots TaskAdmissionResult
admit_later i (t, events) = do
  position ← on_queue (enqueue (admission_payload i t))
  pure (record {
    state = queued;
    queue_position = some position;
    events = events;
    launch_payload = none;
  })

abbrev pub admit_as :
    Bool → TaskAdmissionInput → Task × List Event → Exec Err Slots TaskAdmissionResult
admit_as true = admit_now
admit_as false = admit_later

-- `AdmitTaskUseCase.Execute`
unfoldable pub admit : Limits → TaskAdmissionInput → Exec Err Slots TaskAdmissionResult
unfolding admit_now admit_later validate_admission_input
admit limits i s =
    (do
      fail_if (validate_admission_input i)
      fail_if (
          if not (is_immediate limits s i.subcommand)
            && leb limits.queue_max_depth (length s.queue + length s.promotions)
          then some queue_full
          else none)
      made ← lift (
          new_task i.task_id i.subcommand i.slug i.requested_timeout i.requested_at
            (length s.queue + 1))
      admit_as (is_immediate limits s i.subcommand) i made)
      s

-- `CompensateRejectedStart` of the admission: the reservation goes, the queue is not touched.
unfoldable pub compensate_admission : TaskId → Slots → Slots
compensate_admission id s = remove id (unregister id s)
