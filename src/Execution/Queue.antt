-- ===== src/Execution/Queue.antt =====
-- internal/execution/queue.go: the FIFO queue of launch payloads. A method on `*taskQueue` is an
-- action of `Exec Err TaskQueue`; a panic of the source is the error `panicked`. `Task` is a
-- pointer, so a payload's task is an `Option`; every payload owns its task, which nothing else
-- holds while it waits.
pub mod Positions
pub mod Order
use codex_runner.Prelude.{
  ℕ, zero, suc, ◌+◌, ℤ, pos, negsuc, Bool, true, false, not, ◌&&◌, ◌||◌, List, [], ◌∷◌, ◌++◌,
  Option, none, some, Text, text, text_eq, length, insert_at, ltb, if◌then◌else◌, Result, ok, err,
  Exec, pure, raise, ◌>>=◌, ◌>>◌, guard,
}
use codex_runner.Domain.Enums.{SandboxMode, WorktreeMode, is_queued}
use codex_runner.Domain.Values.{Time, TaskId, Err, panicked, Timeout}
use codex_runner.Domain.NormalizedPath.{NormalizedPath}
use codex_runner.Domain.Task
use codex_runner.Domain.Task.{Task, requeue}
use codex_runner.Domain.Task.Events.{Event}

pub record TaskLaunchPayload : Type 0 where
  pub task : Option Task
  pub model : Text
  pub reasoning_effort : Option Text
  pub prompt_text : Text
  pub normalized_paths : List NormalizedPath
  pub resolved_timeout : Timeout
  pub sandbox_mode : SandboxMode
  pub source_working_dir : Text
  pub working_dir : Option Text
  pub worktree_mode : WorktreeMode
  pub output_schema_path : Option Text

abbrev pub TaskQueue : Type 0
TaskQueue = List TaskLaunchPayload

abbrev pub queued_task : Option Task → Bool
queued_task none = false
queued_task (some t) = is_queued t.state

-- `validateQueuedPayload` panics unless this holds.
abbrev pub is_queued_payload : TaskLaunchPayload → Bool
is_queued_payload p = queued_task p.task

abbrev pub all_queued : TaskQueue → Bool
all_queued [] = true
all_queued (p ∷ ps) = is_queued_payload p && all_queued ps

abbrev pub bad_payload : Err
bad_payload = panicked (text "task queue payload must contain a queued task")

unfoldable pub enqueue : TaskLaunchPayload → Exec Err TaskQueue ℕ
enqueue payload q =
    if not (is_queued_payload payload)
    then (err bad_payload, q)
    else (ok (length q + 1), q ++ payload ∷ [])

-- `none` is the result `found == false`.
unfoldable pub dequeue : Exec Err TaskQueue (Option TaskLaunchPayload)
dequeue [] = (ok none, [])
dequeue (payload ∷ rest) = (ok (some payload), rest)

unfoldable pub prepend : TaskLaunchPayload → Exec Err TaskQueue Unit
prepend payload q =
    if not (is_queued_payload payload) then (err bad_payload, q) else (ok tt, payload ∷ q)

abbrev pub requeue_task :
    TaskLaunchPayload → ℕ → Time → Option Task → Result Err (TaskLaunchPayload × List Event)
requeue_task p position at none = err (panicked (text "nil task"))
requeue_task p position at (some t) = elim (requeue position at t).0 [
  | ok events ↦ ok (record p { task = some (requeue position at t).1 }, events)
  | err e ↦ err (panicked (text "requeue"))
]

-- One payload of the loop of `reindex`: its task gets the position, and emits an event.
unfoldable pub requeue_payload :
    ℕ → Time → TaskLaunchPayload → Result Err (TaskLaunchPayload × List Event)
unfolding requeue
requeue_payload position at p = requeue_task p position at p.task

abbrev pub join_requeued :
    Result Err (TaskLaunchPayload × List Event)
    → Result Err (TaskQueue × List Event)
    → Result Err (TaskQueue × List Event)
join_requeued (ok (p, es)) (ok (ps, fs)) = ok (p ∷ ps, es ++ fs)
join_requeued (ok (p, es)) (err e) = err e
join_requeued (err e) r = err e

-- `reindex` from a position on; the source starts at 1.
unfoldable pub reindex_from : ℕ → Time → TaskQueue → Result Err (TaskQueue × List Event)
unfolding requeue_payload
reindex_from position at [] = ok ([], [])
reindex_from position at (p ∷ ps) =
    join_requeued (requeue_payload position at p) (reindex_from (position + 1) at ps)

-- The new queue and the events, or the old queue and the panic.
abbrev pub installed :
    TaskQueue → Result Err (TaskQueue × List Event) → Result Err (List Event) × TaskQueue
installed q (ok (ps, events)) = (ok events, ps)
installed q (err e) = (err e, q)

unfoldable pub reindex : Time → Exec Err TaskQueue (List Event)
unfolding reindex_from
reindex at q =
    if not (all_queued q) then (err bad_payload, q) else installed q (reindex_from 1 at q)

abbrev pub has_id : TaskId → Option Task → Bool
has_id id none = false
has_id id (some t) = text_eq t.id id

abbrev pub shift_index : Option (TaskLaunchPayload × ℕ) → Option (TaskLaunchPayload × ℕ)
shift_index none = none
shift_index (some (p, i)) = some (p, i + 1)

-- `none` is `found == false` with the index -1.
unfoldable pub lookup : TaskId → TaskQueue → Option (TaskLaunchPayload × ℕ)
lookup id [] = none
lookup id (p ∷ ps) =
    let rest = lookup id ps in if has_id id p.task then some (p, 0) else shift_index rest

abbrev pub one_based : Option (TaskLaunchPayload × ℕ) → Option ℕ
one_based none = none
one_based (some (p, i)) = some (i + 1)

unfoldable pub queue_position : TaskId → TaskQueue → Option ℕ
unfolding lookup
queue_position id q = one_based (lookup id q)

-- The queue without its element at an index: `copy` one step down and cut the end.
abbrev pub remove_at : ℕ → TaskQueue → TaskQueue
remove_at i [] = []
remove_at zero (p ∷ ps) = ps
remove_at (suc i) (p ∷ ps) = p ∷ remove_at i ps

-- What `Remove` returns: the payload and its index, or -1, and the events of the reindexing.
pub record Removed : Type 0 where
  pub payload : Option TaskLaunchPayload
  pub index : ℤ
  pub events : List Event

abbrev pub removed_with :
    TaskLaunchPayload → ℕ → Result Err (List Event) × TaskQueue → Result Err Removed × TaskQueue
removed_with p i (ok events, q) =
    (ok (record { payload = some p; index = pos i; events = events }), q)
removed_with p i (err e, q) = (err e, q)

abbrev pub remove_found : Time → Option (TaskLaunchPayload × ℕ) → Exec Err TaskQueue Removed
remove_found at none q = (ok (record { payload = none; index = negsuc 0; events = [] }), q)
remove_found at (some (p, i)) q =
    removed_with p i (installed (remove_at i q) (reindex_from 1 at (remove_at i q)))

unfoldable pub remove : TaskId → Time → Exec Err TaskQueue Removed
unfolding lookup reindex_from
remove id at q =
    if not (all_queued q) then (err bad_payload, q) else remove_found at (lookup id q) q

abbrev pub restore_at : TaskLaunchPayload → ℤ → Time → Exec Err TaskQueue (List Event)
restore_at payload (negsuc n) at q =
    (err (panicked (text "task queue restore index out of range")), q)
restore_at payload (pos i) at q =
    if ltb (length q) i
    then (err (panicked (text "task queue restore index out of range")), q)
    else installed (insert_at q i payload) (reindex_from 1 at (insert_at q i payload))

unfoldable pub restore : TaskLaunchPayload → ℤ → Time → Exec Err TaskQueue (List Event)
unfolding reindex_from
restore payload index at q =
    if not (all_queued q)
    then (err bad_payload, q)
    else if not (is_queued_payload payload)
    then (err bad_payload, q)
    else restore_at payload index at q
