-- ===== src/Execution/Slots/Capacity.antt =====
-- The limits on running and waiting tasks, over every sequence of admissions, advances and
-- compensations.
use codex_runner.Prelude.{
  suc, ◌+◌, ◌≤◌, ◌≡◌, ◌≢◌, refl, true, [], ◌∷◌, Option, none, some, arith, length, Exec, both_true,
  modify, pure, raise, ◌>>=◌, ◌>>◌, Result-cases, Bool-cases, inl, inr,
}
use codex_runner.Prelude.Dict
use codex_runner.Domain.Enums.{Subcommand, is_impl, is_queued}
use codex_runner.Domain.Values.{Time, TaskId, Err, context_done}
use codex_runner.Domain.Task.{Task}
use codex_runner.Domain.Snapshot.{TaskSnapshot}
use codex_runner.Execution.Queue.{
  TaskLaunchPayload, TaskQueue, is_queued_payload, all_queued, dequeue, prepend, reindex,
}
use codex_runner.Execution.Queue.Positions.{
  reindexed-same, IsOrdered, reindex-eq, reindexed-IsOrdered, length-reindexed,
}
use codex_runner.Execution.Slots.{
  Limits, Slots, size, impl_size, add, remove, register, unregister, reserve, has_slot, on_queue,
  compensate_admission, admission_snapshot,
}
use codex_runner.Execution.Slots.Promotion.{
  put_back, Context, advance, admit_head, promote, admit_found,
}

-- What holds between two operations.
pub record IsWithin (limits : Limits) (s : Slots) : Type 0 where
  pub tasks : size s ≤ limits.max_concurrent_tasks
  pub impls : impl_size s ≤ limits.max_concurrent_impl_tasks
  pub waiting : length s.queue + length s.promotions ≤ limits.queue_max_depth
  pub ordered : IsOrdered s.queue

-- Between the `Dequeue` of a payload and the decision on it.
record IsOpen (limits : Limits) (p : TaskLaunchPayload) (s : Slots) : Type 0 where
  tasks : size s ≤ limits.max_concurrent_tasks
  impls : impl_size s ≤ limits.max_concurrent_impl_tasks
  waiting : suc (length s.queue) + length s.promotions ≤ limits.queue_max_depth
  ordered : IsOrdered (p ∷ s.queue)

ruleset sizes = (arith, Dict.length-put, Dict.length-delete, Dict.count-put, Dict.count-delete)

remove-IsOpen :
    (limits : Limits) (p : TaskLaunchPayload) (id : TaskId) (s : Slots)
    → IsOpen limits p s
    → IsOpen limits p (remove id s)
remove-IsOpen limits p id s h = record {
  tasks = omega (arith, h.tasks, Dict.length-delete id s.reservations);
  impls = omega (arith, h.impls, Dict.count-delete is_impl id s.reservations);
  waiting = h.waiting;
  ordered = h.ordered;
}

queued_head :
    (p : TaskLaunchPayload) (q : TaskQueue) → IsOrdered (p ∷ q) → is_queued_payload p ≡ true
queued_head p q h = (both_true (is_queued_payload p) (all_queued q) h.queued_only).0

queued_rest : (p : TaskLaunchPayload) (q : TaskQueue) → IsOrdered (p ∷ q) → all_queued q ≡ true
queued_rest p q h = (both_true (is_queued_payload p) (all_queued q) h.queued_only).1

put_back-IsWithin :
    (limits : Limits) (p : TaskLaunchPayload) (e : Option Err) (s : Slots)
    → IsOpen limits p s
    → IsWithin limits (put_back p e s).1
unfolding prepend
put_back-IsWithin limits p none s h =
    rw (queued_head p s.queue h.ordered)
      (record { tasks = h.tasks; impls = h.impls; waiting = h.waiting; ordered = h.ordered })
put_back-IsWithin limits p (some e) s h =
    rw (queued_head p s.queue h.ordered)
      (record { tasks = h.tasks; impls = h.impls; waiting = h.waiting; ordered = h.ordered })

-- The registry with one more reservation, where there was a slot for it.
pub add-IsWithin_parts :
    (limits : Limits) (t : Task) (s : Slots)
    → size s ≤ limits.max_concurrent_tasks
    → impl_size s ≤ limits.max_concurrent_impl_tasks
    → has_slot limits s t.subcommand ≡ true
    → (size (add t.id t.subcommand s) ≤ limits.max_concurrent_tasks)
      × (impl_size (add t.id t.subcommand s) ≤ limits.max_concurrent_impl_tasks)
add-IsWithin_parts limits t s h k slot = ground (
  arith,
  Dict.length-put t.id t.subcommand s.reservations,
  Dict.count-put is_impl t.id t.subcommand s.reservations,
)

-- The way back of a promotion: the reservation goes again, and the head is where it was.
abbrev taken_back : Time → TaskLaunchPayload → Task → Exec Err Slots (Option TaskLaunchPayload)
taken_back now p t = do
  modify (remove t.id)
  on_queue (prepend p)
  on_queue (reindex now)
  raise context_done

back-IsWithin :
    (limits : Limits) (now : Time) (p : TaskLaunchPayload) (t : Task) (s : Slots)
    → size s ≤ limits.max_concurrent_tasks
    → impl_size s ≤ limits.max_concurrent_impl_tasks
    → suc (length s.queue) + length s.promotions ≤ limits.queue_max_depth
    → IsOrdered (p ∷ s.queue)
    → IsWithin limits (taken_back now p t s).1
unfolding prepend
back-IsWithin limits now p t s tasks impls waiting ordered = rw (queued_head p s.queue ordered) (
    rw (reindex-eq now (p ∷ s.queue) ordered.queued_only) (
      rw (reindexed-same 1 (p ∷ s.queue) ordered.indexed) (record {
        tasks = omega (arith, Dict.length-delete t.id s.reservations);
        impls = omega (arith, Dict.count-delete is_impl t.id s.reservations);
        waiting = waiting;
        ordered = ordered;
      })))

promoted-IsWithin :
    (limits : Limits) (now : Time) (p : TaskLaunchPayload) (t : Task) (s : Slots)
    → size s ≤ limits.max_concurrent_tasks
    → impl_size s ≤ limits.max_concurrent_impl_tasks
    → suc (length s.queue) + length s.promotions ≤ limits.queue_max_depth
    → IsOrdered (p ∷ s.queue)
    → IsWithin limits
        ((on_queue (reindex now) >> (pure {A = Option TaskLaunchPayload} (some p)))
          (reserve t.id s)).1
promoted-IsWithin limits now p t s tasks impls waiting ordered =
    let rest = queued_rest p s.queue ordered in
    rw (reindex-eq now s.queue rest) (record {
      tasks = tasks;
      impls = impls;
      waiting = omega (arith, length-reindexed 1 s.queue, Dict.length-put t.id tt s.promotions);
      ordered = reindexed-IsOrdered s.queue rest;
    })

promote-IsWithin :
    (limits : Limits) (done : Context) (now : Time) (p : TaskLaunchPayload) (t : Task)
    (snapshot : TaskSnapshot) (s : Slots)
    → IsOpen limits p s
    → has_slot limits s t.subcommand ≡ true
    → IsWithin limits (promote done now p t snapshot s).1
unfolding promote
promote-IsWithin limits done now p t snapshot s h slot =
    let (tasks, impls) = add-IsWithin_parts limits t s h.tasks h.impls slot in
    elim (Bool-cases (done 4)) [
      | inl d4 ↦
          rw d4
            (back-IsWithin limits now p t (add t.id t.subcommand s) tasks impls h.waiting h.ordered)
      | inr d4 ↦ rw d4 (elim (Bool-cases (done 5)) [
        | inl d5 ↦ rw d5 (
            back-IsWithin limits now p t
              (unregister t.id (register t.id snapshot (add t.id t.subcommand s))) tasks impls
              h.waiting h.ordered)
        | inr d5 ↦ rw d5 (
            promoted-IsWithin limits now p t (register t.id snapshot (add t.id t.subcommand s))
              tasks impls h.waiting h.ordered)
      ])
    ]

no_task : (p : TaskLaunchPayload) → is_queued_payload p ≡ true → p.task ≢ none
no_task p h e = ground arith

queued_state :
    (p : TaskLaunchPayload) (t : Task)
    → is_queued_payload p ≡ true
    → p.task ≡ some t
    → is_queued t.state ≡ true
queued_state p t h e = ground arith

admit_head-IsWithin :
    (limits : Limits) (done : Context) (now : Time) (p : TaskLaunchPayload) (o : Option Task)
    (s : Slots)
    → p.task ≡ o
    → IsOpen limits p s
    → IsWithin limits (admit_head limits done now p o s).1
unfolding admit_head
admit_head-IsWithin limits done now p none s e h =
    absurd (no_task p (queued_head p s.queue h.ordered) e)
admit_head-IsWithin limits done now p (some t) s e h =
    rw (queued_state p t (queued_head p s.queue h.ordered) e)
      (elim (Bool-cases (has_slot limits s t.subcommand)) [
        | inr full ↦ rw full (put_back-IsWithin limits p none s h)
        | inl slot ↦ rw slot (elim (Bool-cases (done 3)) [
          | inl d3 ↦ rw d3 (put_back-IsWithin limits p (some context_done) s h)
          | inr d3 ↦ rw d3 (elim (Result-cases (admission_snapshot p t)) [
            | inl (snapshot, made) ↦
                rw made (promote-IsWithin limits done now p t snapshot s h slot)
            | inr (x, failed) ↦ rw failed (put_back-IsWithin limits p (some x) s h)
          ])
        ])
      ])

-- The reservation that `Advance` and the compensations drop.
pub remove-IsWithin :
    (limits : Limits) (id : TaskId) (s : Slots) → IsWithin limits s → IsWithin limits (remove id s)
remove-IsWithin limits id s h = record {
  tasks = omega (arith, h.tasks, Dict.length-delete id s.reservations);
  impls = omega (arith, h.impls, Dict.count-delete is_impl id s.reservations);
  waiting = h.waiting;
  ordered = h.ordered;
}

take_head-IsWithin :
    (limits : Limits) (done : Context) (now : Time) (q : TaskQueue) (r : Dict.Dict Subcommand)
    (l : Dict.Dict TaskSnapshot) (m : Dict.Dict (Unit {0}))
    → IsWithin limits (record { queue = q; reservations = r; launching = l; promotions = m })
    → IsWithin limits
        ((on_queue dequeue >>= admit_found limits done now)
          (record { queue = q; reservations = r; launching = l; promotions = m })).1
unfolding dequeue
take_head-IsWithin limits done now [] r l m h = h
take_head-IsWithin limits done now (p ∷ q) r l m h =
    admit_head-IsWithin limits done now p p.task
      (record { queue = q; reservations = r; launching = l; promotions = m }) refl
      (record { tasks = h.tasks; impls = h.impls; waiting = h.waiting; ordered = h.ordered })

pub advance-IsWithin :
    (limits : Limits) (done : Context) (id : TaskId) (now : Time) (s : Slots)
    → IsWithin limits s
    → IsWithin limits (advance limits done id now s).1
unfolding advance
advance-IsWithin limits done id now s h = elim (Bool-cases (done 0)) [
  | inl d0 ↦ rw d0 h
  | inr d0 ↦ rw d0 (elim (Bool-cases (done 1)) [
    | inl d1 ↦ rw d1 h
    | inr d1 ↦ rw d1 (elim (Bool-cases (done 2)) [
      | inl d2 ↦ rw d2 (remove-IsWithin limits id s h)
      | inr d2 ↦ rw d2 (
          take_head-IsWithin limits done now s.queue (Dict.delete id s.reservations) s.launching
            s.promotions (remove-IsWithin limits id s h))
    ])
  ])
]

pub compensate_admission-IsWithin :
    (limits : Limits) (id : TaskId) (s : Slots)
    → IsWithin limits s
    → IsWithin limits (compensate_admission id s)
unfolding compensate_admission
compensate_admission-IsWithin limits id s h =
    remove-IsWithin limits id (unregister id s)
      (record { tasks = h.tasks; impls = h.impls; waiting = h.waiting; ordered = h.ordered })
