-- ===== src/Execution/Queue/Order.antt =====
-- First in, first out; and a removal that is taken back.
use mathlib.Core.List.{append_assoc, append-nil}
use codex_runner.Prelude.{
  ℕ, zero, suc, ◌+◌, ◌⊎◌, ◌≡◌, refl, ◌∙◌, sym, ap, true, List, [], ◌∷◌, ◌++◌, Option, none, some,
  length, arith, both_true, Result, ok, err, Bool-cases, map, inl, inr, map,
}
use codex_runner.Domain.Values.{TaskId, Err}
use codex_runner.Execution.Queue
use codex_runner.Execution.Queue.{
  TaskLaunchPayload, TaskQueue, is_queued_payload, all_queued, enqueue, dequeue, lookup,
  queue_position, has_id, shift_index, remove_found, removed_with, Removed,
}
use codex_runner.Execution.Queue.Positions.{IsIndexed, IsOrdered, position_of}

shift-some :
    (o : Option (TaskLaunchPayload × ℕ)) {p : TaskLaunchPayload} {i : ℕ}
    → shift_index o ≡ some (p, i)
    → (j : ℕ) × (o ≡ some (p, j)) × (i ≡ suc j)
shift-some none h = cc
shift-some (some (p, j)) h = (j, ground arith, ground arith)

lookup-cases :
    (id : TaskId) (p : TaskLaunchPayload) (ps : TaskQueue) {r : TaskLaunchPayload} {i : ℕ}
    → lookup id (p ∷ ps) ≡ some (r, i)
    → ((p ≡ r) × (i ≡ 0)) ⊎ ((j : ℕ) × (lookup id ps ≡ some (r, j)) × (i ≡ suc j))
unfolding lookup
lookup-cases id p ps h = elim (Bool-cases (has_id id p.task)) [
  | inl here ↦ inl (ground arith, ground arith)
  | inr past ↦ inr (shift-some (lookup id ps) (rw past at h))
]

-- What stands at the index that `Lookup` reports.
lookup-position :
    (n : ℕ) (id : TaskId) (q : TaskQueue) (r : TaskLaunchPayload) (i : ℕ)
    → IsIndexed n q
    → lookup id q ≡ some (r, i)
    → position_of r ≡ some (n + i)
lookup-position n id [] r i h e = unfold lookup in ground arith
lookup-position n id (p ∷ ps) r i h e = elim (lookup-cases id p ps e) [
  | inl (same, at_0) ↦ ground (arith, h.0)
  | inr (j, found, next) ↦ lookup-position (n + 1) id ps r j h.1 found ∙ ap some (omega arith)
]

-- `QueuePosition` and the events agree: in a queue in order, the position that it reports for a
-- waiting task is the one that its task carries.
pub queue_position-eq :
    (id : TaskId) (q : TaskQueue) (r : TaskLaunchPayload) (i : ℕ)
    → IsOrdered q
    → lookup id q ≡ some (r, i)
    → (queue_position id q ≡ some (i + 1)) × (position_of r ≡ some (i + 1))
unfolding queue_position
queue_position-eq id q r i h e =
    (rw e, lookup-position 1 id q r i h.indexed e ∙ ap some (omega arith))

-- Payloads that arrive one after another.
pub enqueue_all : List TaskLaunchPayload → TaskQueue → TaskQueue
enqueue_all [] q = q
enqueue_all (p ∷ ps) q = enqueue_all ps (enqueue p q).1

-- What n calls of `Dequeue` return, in order.
pub dequeue_times : ℕ → TaskQueue → List (Option TaskLaunchPayload)
dequeue_times zero q = []
dequeue_times (suc n) q = outcome (dequeue q).0 ∷ dequeue_times n (dequeue q).1
  where
    outcome : Result Err (Option TaskLaunchPayload) → Option TaskLaunchPayload
    outcome (ok o) = o
    outcome (err e) = none

enqueue_all-eq :
    (ps : List TaskLaunchPayload) (q : TaskQueue)
    → all_queued ps ≡ true
    → enqueue_all ps q ≡ q ++ ps
unfolding enqueue_all enqueue
enqueue_all-eq [] q h = sym (append-nil q)
enqueue_all-eq (p ∷ ps) q h =
    let (front, rest) = both_true (is_queued_payload p) (all_queued ps) h in
    rw front (enqueue_all-eq ps (q ++ p ∷ []) rest ∙ append_assoc q (p ∷ []) ps)

dequeue_times-eq : (q : TaskQueue) → dequeue_times (length q) q ≡ map some q
unfolding dequeue_times dequeue
dequeue_times-eq [] = refl
dequeue_times-eq (p ∷ ps) = rw (dequeue_times-eq ps)

-- First in, first out: after any arrivals of queued tasks, `Dequeue` returns those that waited
-- before, and then the arrivals, each exactly once and in the order in which they came.
pub fifo :
    (ps q : List TaskLaunchPayload)
    → all_queued ps ≡ true
    → dequeue_times (length (enqueue_all ps q)) (enqueue_all ps q) ≡ map some (q ++ ps)
fifo ps q h = dequeue_times-eq (enqueue_all ps q) ∙ ap (map some) (enqueue_all-eq ps q h)
