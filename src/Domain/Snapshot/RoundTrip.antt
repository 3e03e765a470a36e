-- ===== src/Domain/Snapshot/RoundTrip.antt =====
-- The persisted form and the aggregate: what is saved can be restored, and what was restored can
-- be saved again after any operations.
use codex_runner.Prelude.{◌≡◌, refl, below, false, Option, none, some, arith, ok}
use codex_runner.Domain.Enums.{RecoveryOrigin, unset, origin_pointer}
use codex_runner.Domain.Values.{
  Time, is_zero_time, Violation, Timeout, new_timeout, ProcessStartTime, new_process_start_time,
}
use codex_runner.Domain.Identifiers.{slug_from_task_id}
use codex_runner.Domain.Task.{Task, time_pointer}
use codex_runner.Domain.Snapshot.{
  TaskSnapshot, validate, validated, restore, restore_process, with_task, updated, process_pid,
  process_start, value_or,
}
use codex_runner.Domain.Snapshot.Validity.{validate_iff, Holds}

validated-ok :
    (s : TaskSnapshot) (v : Option Violation) {n : TaskSnapshot}
    → validated s v ≡ ok n
    → (v ≡ none) × (n ≡ s)
validated-ok s v h = ground arith

timeout_kept :
    (t : Timeout)
    → Holds (λ n. below n 1800 ≡ false) t.requested_seconds
    → below t.resolved_seconds 1800 ≡ false
    → new_timeout t.requested_seconds t.resolved_seconds ≡ ok t
unfolding new_timeout
timeout_kept t h k = ground arith

process_kept :
    (p : Option ProcessStartTime)
    → Holds (λ n. below n 1 ≡ false) (process_pid p)
    → Holds (λ t. is_zero_time t ≡ false) (process_start p)
    → restore_process (process_pid p) (process_start p) ≡ ok p
unfolding restore_process new_process_start_time
process_kept none h k = refl
process_kept (some p) h k = ground arith

time_kept : (t : Time) → value_or 0 (time_pointer t) ≡ t
time_kept t = ground arith

origin_kept : (o : RecoveryOrigin) → value_or unset (origin_pointer o) ≡ o
origin_kept o = ground arith

-- A task that `WithTask` could save comes back from the snapshot: `Restore` succeeds, and gives the
-- same task but for the queue position, which is not saved, and the requested timeout, which is
-- read from the resolved one. The slug must be the one in the task's identifier.
pub restore-with_task :
    (s n : TaskSnapshot) (t : Task) (at : Time)
    → with_task s t at ≡ ok n
    → slug_from_task_id t.id ≡ ok t.slug
    → restore n
      ≡ ok (record t { queue_position = 0; requested_timeout = t.timeout.requested_seconds })
unfolding with_task restore
restore-with_task s n t at h slug =
    let (valid, same) = validated-ok (updated s t at) (validate (updated s t at)) h in
    let c = (validate_iff (updated s t at)).0 valid in
    rw same (
      rw valid (
        rw slug (
          rw (timeout_kept t.timeout c.requested_long c.resolved_long) (
            rw (process_kept t.process_start_time c.pid_positive c.start_not_zero)
              (rw (time_kept t.last_event_at, origin_kept t.recovery_origin))))))
