-- ===== src/Execution/Slots/Runs.antt =====
-- Every operation on the slots keeps the limits, and so does every sequence of them.
use codex_runner.Prelude.{
  ℕ, suc, ◌+◌, ◌≤◌, ◌≡◌, Bool, true, false, not, ◌&&◌, List, [], ◌∷◌, Option, none, some, arith,
  length, length-append, leb, ok, both_true, ap, Result-cases, Option-cases, Bool-cases, inl, inr,
  ℤ,
}
use codex_runner.Prelude.Dict
use codex_runner.Domain.Enums.{Subcommand, is_impl, queued}
use codex_runner.Domain.Values.{Time, TaskId, Slug}
use codex_runner.Domain.Task.{Task, new_task}
use codex_runner.Domain.Task.Events.{Event}
use codex_runner.Execution.Queue.{TaskLaunchPayload, is_queued_payload, all_queued, prepend}
use codex_runner.Execution.Queue.Positions.{
  reindex-eq, reindexed-IsOrdered, length-reindexed, enqueue-eq, append-IsOrdered,
}
use codex_runner.Execution.Slots.{
  Limits, Slots, has_slot, is_immediate, admission_payload, admission_snapshot, TaskAdmissionInput,
  admit, admit_now, admit_later, admit_as, validate_admission_input, compensate_admission,
  is_promoted,
}
use codex_runner.Execution.Slots.Promotion.{
  Context, advance, compensate_promotion, commit_start, give_back, compensate_task, commit_task,
}
use codex_runner.Execution.Slots.Capacity.{
  IsWithin, add-IsWithin_parts, advance-IsWithin, compensate_admission-IsWithin,
}

new_task-fields :
    (id : TaskId) (subcommand : Subcommand) (slug : Slug) (requested : Option ℤ) (at : Time)
    (position : ℕ) (t : Task) (events : List Event)
    → new_task id subcommand slug requested at position ≡ ok (t, events)
    → (t.state ≡ queued) × (t.queue_position ≡ position) × (t.subcommand ≡ subcommand)
unfolding new_task
new_task-fields id subcommand slug requested at position t events h = ground arith

admit_now-IsWithin :
    (limits : Limits) (i : TaskAdmissionInput) (t : Task) (events : List Event) (s : Slots)
    → IsWithin limits s
    → t.subcommand ≡ i.subcommand
    → has_slot limits s i.subcommand ≡ true
    → IsWithin limits (admit_now i (t, events) s).1
unfolding admit_now
admit_now-IsWithin limits i t events s h same slot =
    elim (Result-cases (admission_snapshot (admission_payload i t) t)) [
      | inr (x, failed) ↦ rw failed h
      | inl (snapshot, made) ↦ rw made (
          rw (← same) (
            let (tasks, impls) = add-IsWithin_parts limits t s h.tasks h.impls (rw same slot) in
            record { tasks = tasks; impls = impls; waiting = h.waiting; ordered = h.ordered }))
    ]

queued_payload :
    (i : TaskAdmissionInput) (t : Task)
    → t.state ≡ queued
    → is_queued_payload (admission_payload i t) ≡ true
queued_payload i t h = ground arith

admit_later-IsWithin :
    (limits : Limits) (i : TaskAdmissionInput) (t : Task) (events : List Event) (s : Slots)
    → IsWithin limits s
    → t.state ≡ queued
    → t.queue_position ≡ length s.queue + 1
    → suc (length s.queue + length s.promotions) ≤ limits.queue_max_depth
    → IsWithin limits (admit_later i (t, events) s).1
unfolding admit_later
admit_later-IsWithin limits i t events s h state place room =
    let p = admission_payload i t in
    rw (enqueue-eq p s.queue (queued_payload i t state)) (record {
      tasks = h.tasks;
      impls = h.impls;
      waiting = omega (arith, length-append s.queue (p ∷ []));
      ordered = append-IsOrdered p s.queue h.ordered (queued_payload i t state) (ap some place);
    })

admit_as-IsWithin :
    (limits : Limits) (i : TaskAdmissionInput) (t : Task) (events : List Event) (s : Slots)
    → IsWithin limits s
    → new_task i.task_id i.subcommand i.slug i.requested_timeout i.requested_at (length s.queue + 1)
      ≡ ok (t, events)
    → (is_immediate limits s i.subcommand ≡ false
        → suc (length s.queue + length s.promotions) ≤ limits.queue_max_depth)
    → IsWithin limits (admit_as (is_immediate limits s i.subcommand) i (t, events) s).1
admit_as-IsWithin limits i t events s h made room =
    let (state, place, same) =
      new_task-fields i.task_id i.subcommand i.slug i.requested_timeout i.requested_at
        (length s.queue + 1) t events made in
    elim (Bool-cases (is_immediate limits s i.subcommand)) [
      | inl now ↦ rw now (
          admit_now-IsWithin limits i t events s h same
            (both_true (has_slot limits s i.subcommand) (leb (length s.queue) 0) now).0)
      | inr later ↦ rw later (admit_later-IsWithin limits i t events s h state place (room later))
    ]

-- The test that rejects an admission.
abbrev is_full : Limits → Slots → Subcommand → Bool
is_full limits s subcommand =
    not (is_immediate limits s subcommand)
    && leb limits.queue_max_depth (length s.queue + length s.promotions)

room_of :
    (limits : Limits) (s : Slots) (subcommand : Subcommand)
    → is_full limits s subcommand ≡ false
    → is_immediate limits s subcommand ≡ false
    → suc (length s.queue + length s.promotions) ≤ limits.queue_max_depth
room_of limits s subcommand h later =
    room (is_immediate limits s subcommand) limits.queue_max_depth
      (length s.queue + length s.promotions) h later
  where
    room : (b : Bool) (m n : ℕ) → (not b && leb m n) ≡ false → b ≡ false → suc n ≤ m
    room b m n e f = ground arith

pub admit-IsWithin :
    (limits : Limits) (i : TaskAdmissionInput) (s : Slots)
    → IsWithin limits s
    → IsWithin limits (admit limits i s).1
unfolding admit
admit-IsWithin limits i s h = elim (Option-cases (validate_admission_input i)) [
  | inr (x, bad) ↦ rw bad h
  | inl good ↦ rw good (elim (Bool-cases (is_full limits s i.subcommand)) [
    | inl full ↦ rw full h
    | inr free ↦
        rw free
          (elim (Result-cases (
            new_task i.task_id i.subcommand i.slug i.requested_timeout i.requested_at
              (length s.queue + 1))) [
                | inr (x, failed) ↦ rw failed h
                | inl ((t, events), made) ↦ rw made (
                    admit_as-IsWithin limits i t events s h made
                      (room_of limits s i.subcommand free))
              ])
  ])
]

give_back-IsWithin :
    (limits : Limits) (p : TaskLaunchPayload) (t : Task) (now : Time) (s : Slots)
    → IsWithin limits s
    → is_promoted t.id s ≡ true
    → IsWithin limits (give_back p t now s).1
unfolding prepend
give_back-IsWithin limits p t now s h there = elim (Bool-cases (is_queued_payload p)) [
  | inl ready ↦
      let both : all_queued (p ∷ s.queue) ≡ true = rw (ready, h.ordered.queued_only) in
      rw ready (
        rw (reindex-eq now (p ∷ s.queue) both) (record {
          tasks = omega (arith, h.tasks, Dict.length-delete t.id s.reservations);
          impls = omega (arith, h.impls, Dict.count-delete is_impl t.id s.reservations);
          waiting = omega (
            arith,
            h.waiting,
            length-reindexed 2 s.queue,
            Dict.length-delete_found t.id s.promotions there,
          );
          ordered = reindexed-IsOrdered (p ∷ s.queue) both;
        }))
  | inr spoiled ↦ rw spoiled (record {
    tasks = omega (arith, h.tasks, Dict.length-delete t.id s.reservations);
    impls = omega (arith, h.impls, Dict.count-delete is_impl t.id s.reservations);
    waiting = omega (arith, h.waiting, Dict.length-delete t.id s.promotions);
    ordered = h.ordered;
  })
]

compensate_task-IsWithin :
    (limits : Limits) (p : TaskLaunchPayload) (now : Time) (o : Option Task) (s : Slots)
    → IsWithin limits s
    → IsWithin limits (compensate_task p now o s).1
compensate_task-IsWithin limits p now none s h = h
compensate_task-IsWithin limits p now (some t) s h = elim (Bool-cases (is_promoted t.id s)) [
  | inl there ↦ rw there (give_back-IsWithin limits p t now s h there)
  | inr gone ↦ rw gone h
]

commit_task-IsWithin :
    (limits : Limits) (o : Option Task) (s : Slots)
    → IsWithin limits s
    → IsWithin limits (commit_task o s)
commit_task-IsWithin limits none s h = h
commit_task-IsWithin limits (some t) s h = record {
  tasks = h.tasks;
  impls = h.impls;
  waiting = omega (arith, h.waiting, Dict.length-delete t.id s.promotions);
  ordered = h.ordered;
}

-- What happens to the slots: whole use cases, in the order in which they got the queue's mutex.
pub data SlotOp : Type 0 where
  admits : TaskAdmissionInput → SlotOp
  rejects_start : TaskId → SlotOp
  advances : Context → TaskId → Time → SlotOp
  rejects_promotion : TaskLaunchPayload → Time → SlotOp
  commits : TaskLaunchPayload → SlotOp

unfoldable pub perform_slot : Limits → SlotOp → Slots → Slots
perform_slot limits (admits i) s = (admit limits i s).1
perform_slot limits (rejects_start id) s = compensate_admission id s
perform_slot limits (advances done id now) s = (advance limits done id now s).1
perform_slot limits (rejects_promotion p now) s = (compensate_promotion p now s).1
perform_slot limits (commits p) s = commit_start p s

unfoldable pub run_slots : Limits → Slots → List SlotOp → Slots
unfolding perform_slot
run_slots limits s [] = s
run_slots limits s (op ∷ ops) = run_slots limits (perform_slot limits op s) ops

perform_slot-IsWithin :
    (limits : Limits) (op : SlotOp) (s : Slots)
    → IsWithin limits s
    → IsWithin limits (perform_slot limits op s)
unfolding perform_slot compensate_promotion commit_start
perform_slot-IsWithin limits (admits i) s h = admit-IsWithin limits i s h
perform_slot-IsWithin limits (rejects_start id) s h = compensate_admission-IsWithin limits id s h
perform_slot-IsWithin limits (advances done id now) s h = advance-IsWithin limits done id now s h
perform_slot-IsWithin limits (rejects_promotion p now) s h =
    compensate_task-IsWithin limits p now p.task s h
perform_slot-IsWithin limits (commits p) s h = commit_task-IsWithin limits p.task s h

-- From slots within the limits, whatever is admitted, advanced, rejected and committed, in any
-- order and with any contexts: never more tasks hold slots than the limit, never more impl tasks
-- than theirs, waiting tasks and unresolved promotions together stay within the queue's depth, and
-- the queue stays in order.
pub run_slots-IsWithin :
    (limits : Limits) (s : Slots) (ops : List SlotOp)
    → IsWithin limits s
    → IsWithin limits (run_slots limits s ops)
unfolding run_slots
run_slots-IsWithin limits s [] h = h
run_slots-IsWithin limits s (op ∷ ops) h =
    run_slots-IsWithin limits (perform_slot limits op s) ops (perform_slot-IsWithin limits op s h)
