-- ===== src/Execution/Queue/Positions.antt =====
-- Queue positions: what `reindex` does to a queue, and that every operation leaves each waiting
-- task with its one-based place in the queue.
use codex_runner.Prelude.{
  ℕ, zero, suc, ◌+◌, ◌≡◌, refl, ◌∙◌, true, false, List, [], ◌∷◌, ◌++◌, Option, none, some, length,
  insert_at, arith, both_true, ap, ok, pos, negsuc, ltb, ◌≤◌,
}
use codex_runner.Domain.Values.{Time, TaskId}
use codex_runner.Domain.Task.{Task}
use codex_runner.Domain.Task.Events.{Event}
use codex_runner.Execution.Queue
use codex_runner.Execution.Queue.{
  TaskLaunchPayload, TaskQueue, is_queued_payload, queued_task, all_queued, requeue_payload,
  reindex_from, installed, reindex, enqueue, lookup, queue_position, has_id, shift_index, one_based,
  remove_at, remove_found, removed_with, Removed,
}

leb_not_ltb : (a b : ℕ) → a ≤ b → ltb b a ≡ false
leb_not_ltb a b h = ground arith

abbrev placed_task : ℕ → Option Task → Option Task
placed_task n none = none
placed_task n (some t) = some (record t { queue_position = n })

abbrev pub placed : ℕ → TaskLaunchPayload → TaskLaunchPayload
placed n p = record p { task = placed_task n p.task }

-- What `reindex` makes of a queue.
abbrev pub reindexed : ℕ → TaskQueue → TaskQueue
reindexed n [] = []
reindexed n (p ∷ ps) = placed n p ∷ reindexed (n + 1) ps

abbrev position_event : ℕ → Time → Option Task → List Event
position_event n at none = []
position_event n at (some t) = Event.queued t.id t.subcommand t.slug t.requested_timeout n at ∷ []

-- The events of `reindex`: one for each waiting task, in queue order, with its position.
abbrev pub position_events : ℕ → Time → TaskQueue → List Event
position_events n at [] = []
position_events n at (p ∷ ps) = position_event n at p.task ++ position_events (n + 1) at ps

requeue_payload-eq :
    (n : ℕ) (at : Time) (p : TaskLaunchPayload)
    → is_queued_payload p ≡ true
    → requeue_payload n at p ≡ ok (placed n p, position_event n at p.task)
unfolding requeue_payload
requeue_payload-eq n at p h = ground arith

-- On a queue of queued tasks `reindex` never panics, and gives each its place and its event.
pub reindex_from-eq :
    (n : ℕ) (at : Time) (q : TaskQueue)
    → all_queued q ≡ true
    → reindex_from n at q ≡ ok (reindexed n q, position_events n at q)
unfolding reindex_from
reindex_from-eq n at [] h = refl
reindex_from-eq n at (p ∷ ps) h =
    let (front, rest) = both_true (is_queued_payload p) (all_queued ps) h in
    rw (requeue_payload-eq n at p front) (rw (reindex_from-eq (n + 1) at ps rest))

abbrev task_position : Option Task → Option ℕ
task_position none = none
task_position (some t) = some t.queue_position

abbrev pub position_of : TaskLaunchPayload → Option ℕ
position_of p = task_position p.task

-- Every waiting task knows its place, counted from n.
abbrev pub IsIndexed : ℕ → TaskQueue → Type 0
IsIndexed n [] = Unit
IsIndexed n (p ∷ ps) = (position_of p ≡ some n) × IsIndexed (n + 1) ps

-- A queue between two operations: queued tasks only, each with its one-based place.
pub record IsOrdered (q : TaskQueue) : Type 0 where
  pub queued_only : all_queued q ≡ true
  pub indexed : IsIndexed 1 q

placed-queued :
    (n : ℕ) (p : TaskLaunchPayload) → is_queued_payload (placed n p) ≡ is_queued_payload p
placed-queued n p = ground arith

placed-position :
    (n : ℕ) (p : TaskLaunchPayload) → is_queued_payload p ≡ true → position_of (placed n p) ≡ some n
placed-position n p h = ground arith

placed_same : (n : ℕ) (p : TaskLaunchPayload) → position_of p ≡ some n → placed n p ≡ p
placed_same n p h = ground arith

pub reindexed-queued : (n : ℕ) (q : TaskQueue) → all_queued (reindexed n q) ≡ all_queued q
reindexed-queued n [] = refl
reindexed-queued n (p ∷ ps) = rw (placed-queued n p) (rw (reindexed-queued (n + 1) ps))

pub reindexed-IsIndexed :
    (n : ℕ) (q : TaskQueue) → all_queued q ≡ true → IsIndexed n (reindexed n q)
reindexed-IsIndexed n [] h = tt
reindexed-IsIndexed n (p ∷ ps) h =
    let (front, rest) = both_true (is_queued_payload p) (all_queued ps) h in
    (placed-position n p front, reindexed-IsIndexed (n + 1) ps rest)

-- Reindexing a queue that is in order changes nothing.
pub reindexed-same : (n : ℕ) (q : TaskQueue) → IsIndexed n q → reindexed n q ≡ q
reindexed-same n [] h = refl
reindexed-same n (p ∷ ps) h = rw (placed_same n p h.0) (rw (reindexed-same (n + 1) ps h.1))

pub length-reindexed : (n : ℕ) (q : TaskQueue) → length (reindexed n q) ≡ length q
length-reindexed n [] = refl
length-reindexed n (p ∷ ps) = rw (length-reindexed (n + 1) ps)

pub reindexed-IsOrdered : (q : TaskQueue) → all_queued q ≡ true → IsOrdered (reindexed 1 q)
reindexed-IsOrdered q h = record {
  queued_only = reindexed-queued 1 q ∙ h;
  indexed = reindexed-IsIndexed 1 q h;
}

pub remove_at-queued :
    (i : ℕ) (q : TaskQueue) → all_queued q ≡ true → all_queued (remove_at i q) ≡ true
remove_at-queued i [] h = refl
remove_at-queued zero (p ∷ ps) h = (both_true (is_queued_payload p) (all_queued ps) h).1
remove_at-queued (suc i) (p ∷ ps) h =
    let (front, rest) = both_true (is_queued_payload p) (all_queued ps) h in
    rw front (remove_at-queued i ps rest)

pub insert_at-queued :
    (q : TaskQueue) (i : ℕ) (p : TaskLaunchPayload)
    → all_queued q ≡ true
    → is_queued_payload p ≡ true
    → all_queued (insert_at q i p) ≡ true
insert_at-queued q zero p h k = rw (k, h)
insert_at-queued [] (suc i) p h k = rw k
insert_at-queued (r ∷ rs) (suc i) p h k =
    let (front, rest) = both_true (is_queued_payload r) (all_queued rs) h in
    rw front (insert_at-queued rs i p rest k)

append-queued :
    (q : TaskQueue) (p : TaskLaunchPayload)
    → all_queued q ≡ true
    → is_queued_payload p ≡ true
    → all_queued (q ++ p ∷ []) ≡ true
append-queued [] p h k = rw k
append-queued (r ∷ rs) p h k =
    let (front, rest) = both_true (is_queued_payload r) (all_queued rs) h in
    rw front (append-queued rs p rest k)

append-IsIndexed :
    (n : ℕ) (q : TaskQueue) (p : TaskLaunchPayload)
    → IsIndexed n q
    → position_of p ≡ some (n + length q)
    → IsIndexed n (q ++ p ∷ [])
append-IsIndexed n [] p h k = ground arith
append-IsIndexed n (r ∷ rs) p h k =
    (h.0, append-IsIndexed (n + 1) rs p h.1 (k ∙ ap some (omega arith)))

pub enqueue-eq :
    (p : TaskLaunchPayload) (q : TaskQueue)
    → is_queued_payload p ≡ true
    → enqueue p q ≡ (ok (length q + 1), q ++ p ∷ [])
unfolding enqueue
enqueue-eq p q k = rw k

-- A payload that carries the next place keeps a queue in order.
pub append-IsOrdered :
    (p : TaskLaunchPayload) (q : TaskQueue)
    → IsOrdered q
    → is_queued_payload p ≡ true
    → position_of p ≡ some (length q + 1)
    → IsOrdered (q ++ p ∷ [])
append-IsOrdered p q h k e = record {
  queued_only = append-queued q p h.queued_only k;
  indexed = append-IsIndexed 1 q p h.indexed (e ∙ ap some (omega arith));
}

-- `Remove` of any identifier, waiting or not, succeeds and leaves the queue in order.
pub remove-IsOrdered :
    (id : TaskId) (at : Time) (q : TaskQueue)
    → IsOrdered q
    → (r : Removed) × ((Queue.remove id at q).0 ≡ ok r) × IsOrdered (Queue.remove id at q).1
unfolding Queue.remove
remove-IsOrdered id at q h = rw h.queued_only (of_found (lookup id q))
  where
    of_found :
        (found : Option (TaskLaunchPayload × ℕ))
        → (r : Removed) × ((remove_found at found q).0 ≡ ok r)
          × IsOrdered (remove_found at found q).1
    of_found none = (record { payload = none; index = negsuc 0; events = [] }, refl, h)
    of_found (some (p, i)) =
        let rest = remove_at-queued i q h.queued_only in
        rw (reindex_from-eq 1 at (remove_at i q) rest) (
          record { payload = some p; index = pos i; events = position_events 1 at (remove_at i q) },
          refl,
          reindexed-IsOrdered (remove_at i q) rest,
        )

-- `Restore` of a queued task at an index up to the length succeeds and leaves the queue in order.
pub restore-IsOrdered :
    (p : TaskLaunchPayload) (i : ℕ) (at : Time) (q : TaskQueue)
    → IsOrdered q
    → is_queued_payload p ≡ true
    → i ≤ length q
    → ((Queue.restore p (pos i) at q).0 ≡ ok (position_events 1 at (insert_at q i p)))
      × ((Queue.restore p (pos i) at q).1 ≡ reindexed 1 (insert_at q i p))
      × IsOrdered (Queue.restore p (pos i) at q).1
unfolding Queue.restore
restore-IsOrdered p i at q h k fits =
    let both = insert_at-queued q i p h.queued_only k in
    rw (h.queued_only, k, leb_not_ltb i (length q) fits)
      (rw (reindex_from-eq 1 at (insert_at q i p) both)
        (refl, refl, reindexed-IsOrdered (insert_at q i p) both))

pub reindex-eq :
    (at : Time) (q : TaskQueue)
    → all_queued q ≡ true
    → reindex at q ≡ (ok (position_events 1 at q), reindexed 1 q)
unfolding reindex
reindex-eq at q h = rw h (rw (reindex_from-eq 1 at q h))
