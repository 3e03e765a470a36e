-- ===== src/Domain/Snapshot/Persistence.antt =====
-- A task restored from a snapshot, changed and saved again, as every use case of the daemon does.
use codex_runner.Prelude.{
  ◌≡◌, ◌≢◌, refl, sym, subst, ◌↔◌, inl, ℤ, Bool, true, false, ◌||◌, List, [], ◌∷◌, Option, none,
  arith, is_some, Result, ok, err,
}
use codex_runner.Domain.Enums.{
  TaskState, queued, recovered, is_known_task_state, RecoveryOrigin, unset, is_recovered,
  is_known_origin, origin_pointer, in_lineage, terminal,
}
use codex_runner.Domain.Values.{
  Time, is_zero_time, Timeout, new_timeout, ProcessStartTime, new_process_start_time, Slug, Err,
}
use codex_runner.Domain.Identifiers.{slug_from_task_id}
use codex_runner.Domain.Task.{Task}
use codex_runner.Domain.Task.Operations.{Op, perform, run}
use codex_runner.Domain.Snapshot.{
  TaskSnapshot, validate, restore, restore_process, with_task, updated, process_pid, process_start,
  value_or, fail_on, restored, ◌>>=◌,
}
use codex_runner.Domain.Snapshot.Validity.{IsConsistent, validate_iff, Holds}

-- What operations keep of a task that was restored from `s`.
record Fits (s : TaskSnapshot) (t : Task) : Type 0 where
  id_kept : t.id ≡ s.task_id
  subcommand_kept : t.subcommand ≡ s.subcommand
  model_kept : t.model ≡ s.model
  requested_at_kept : t.requested_at ≡ s.requested_at
  requested_kept : t.timeout.requested_seconds ≡ s.requested_timeout_seconds
  resolved_kept : t.timeout.resolved_seconds ≡ s.resolved_timeout_seconds
  pid_kept : process_pid t.process_start_time ≡ s.pid
  start_kept : process_start t.process_start_time ≡ s.process_started_at
  has_process : is_some t.process_start_time ≡ true
  launched : t.state ≢ queued
  known : is_known_task_state t.state ≡ true
  exit_only_terminal : is_some t.exit_code ≡ true → terminal t.state ≡ true
  origin_exact : is_some (origin_pointer t.recovery_origin) ≡ in_lineage t.state
  origin_known : Holds (λ o. is_known_origin o ≡ true) (origin_pointer t.recovery_origin)
  recovered_stays : s.recovered ≡ true → t.state ≡ recovered

perform-Fits : (s : TaskSnapshot) (op : Op) (t : Task) → Fits s t → Fits s (perform op t).1
unfolding perform
perform-Fits s (Op.adopt true at) t h = ground arith
perform-Fits s (Op.adopt false at) t h = ground arith
perform-Fits s _ t h = ground arith

run-Fits : (s : TaskSnapshot) (ops : List Op) (t : Task) → Fits s t → Fits s (run t ops)
unfolding run
run-Fits s [] t h = h
run-Fits s (op ∷ ops) t h = run-Fits s ops (perform op t).1 (perform-Fits s op t h)

-- A consistent snapshot of a launched task, with a working directory where its schema wants one.
pub record IsLaunched (s : TaskSnapshot) : Type 0 where
  pub valid : validate s ≡ none
  pub has_pid : is_some s.pid ≡ true
  pub not_queued : s.state ≢ queued
  pub dir_given : s.schema_version ≢ 2 → is_some s.working_dir ≡ true

-- One lemma for each field of the updated snapshot that is not just carried over.
recovered_either :
    (b : Bool) (s : TaskState)
    → (b ≡ true → s ≡ recovered)
    → ((b || is_recovered s) ≡ true) ↔ (s ≡ recovered)
recovered_either b s h = ground arith

pid_of : (p : Option ProcessStartTime) → is_some p ≡ true → is_some (process_pid p) ≡ true
pid_of p h = ground arith

process_parts : (p : Option ProcessStartTime) → is_some (process_pid p) ≡ is_some (process_start p)
process_parts p = ground arith

not_none {ℓ} : {A : Type ℓ} (o : Option A) → is_some o ≡ true → o ≢ none
not_none o h e = ground arith

Fits-IsConsistent :
    (s : TaskSnapshot) (t : Task) (at : Time)
    → IsLaunched s
    → IsConsistent s
    → Fits s t
    → is_zero_time at ≡ false
    → IsConsistent (updated s t at)
Fits-IsConsistent s t at l c f now = record {
  id_given = rw f.id_kept c.id_given;
  model_given = rw f.model_kept c.model_given;
  submittable = rw f.subcommand_kept c.submittable;
  sandboxed = c.sandboxed;
  known_state = f.known;
  by_daemon = c.by_daemon;
  process_whole = process_parts t.process_start_time;
  pid_positive = rw f.pid_kept c.pid_positive;
  start_not_zero = rw f.start_kept c.start_not_zero;
  requested_long = rw f.requested_kept c.requested_long;
  resolved_long = rw f.resolved_kept c.resolved_long;
  process_there = λ _. inl (pid_of t.process_start_time f.has_process);
  exit_only_terminal = f.exit_only_terminal;
  recovered_exact = recovered_either s.recovered t.state f.recovered_stays;
  origin_exact = f.origin_exact;
  origin_known = f.origin_known;
  requested_at_set = rw f.requested_at_kept c.requested_at_set;
  updated_at_set = now;
  version = c.version;
  failure_placed = λ h. absurd (not_none s.pid l.has_pid (c.failure_placed h).2);
  failure_known = c.failure_known;
  no_dir_in_version_2 = c.no_dir_in_version_2;
  dir_later = λ n d. absurd (not_none s.working_dir (l.dir_given n) d);
  dir_normalized = c.dir_normalized;
}

>>=-ok :
    {A B : Type 0} (r : Result Err A) (f : A → Result Err B) {b : B}
    → (r >>= f) ≡ ok b
    → (a : A) × (r ≡ ok a) × (f a ≡ ok b)
>>=-ok (ok a) f h = (a, refl, h)
>>=-ok (err e) f h = cc

timeout_fields :
    (requested : Option ℤ) (resolved : ℤ) {limit : Timeout}
    → new_timeout requested resolved ≡ ok limit
    → (limit.requested_seconds ≡ requested) × (limit.resolved_seconds ≡ resolved)
unfolding new_timeout
timeout_fields requested resolved h = ground arith

process_fields :
    (pid : Option ℤ) (at : Option Time) {p : Option ProcessStartTime}
    → is_some pid ≡ true
    → restore_process pid at ≡ ok p
    → (process_pid p ≡ pid) × (process_start p ≡ at) × (is_some p ≡ true)
unfolding restore_process new_process_start_time
process_fields pid at i h = ground arith

origin_back :
    (o : Option RecoveryOrigin)
    → Holds (λ x. is_known_origin x ≡ true) o
    → origin_pointer (value_or unset o) ≡ o
origin_back o h = ground arith

-- A restored task was built from parts that fit the snapshot.
restore-parts :
    (s : TaskSnapshot) {t : Task}
    → restore s ≡ ok t
    → (slug : Slug) × (limit : Timeout) × (process : Option ProcessStartTime) × (new_timeout
          s.requested_timeout_seconds s.resolved_timeout_seconds
        ≡ ok limit)
      × (restore_process s.pid s.process_started_at ≡ ok process)
      × (t ≡ restored s slug limit process)
unfolding restore
restore-parts s h =
    let (_, _, h1) = >>=-ok (fail_on (validate s)) _ h in
    let (slug, _, h2) = >>=-ok (slug_from_task_id s.task_id) _ h1 in
    let (limit, l, h3) =
      >>=-ok (new_timeout s.requested_timeout_seconds s.resolved_timeout_seconds) _ h2 in
    let (process, p, h4) = >>=-ok (restore_process s.pid s.process_started_at) _ h3 in
    (slug, limit, process, l, p, ground arith)

built-Fits :
    (s : TaskSnapshot) (slug : Slug) (limit : Timeout) (process : Option ProcessStartTime)
    → IsLaunched s
    → IsConsistent s
    → new_timeout s.requested_timeout_seconds s.resolved_timeout_seconds ≡ ok limit
    → restore_process s.pid s.process_started_at ≡ ok process
    → Fits s (restored s slug limit process)
built-Fits s slug limit process l c made found =
    let (same_requested, same_resolved) =
      timeout_fields s.requested_timeout_seconds s.resolved_timeout_seconds made in
    let (same_pid, same_start, there) = process_fields s.pid s.process_started_at l.has_pid found in
    let back = origin_back s.recovery_origin c.origin_known in
    record {
      id_kept = refl;
      subcommand_kept = refl;
      model_kept = refl;
      requested_at_kept = refl;
      requested_kept = same_requested;
      resolved_kept = same_resolved;
      pid_kept = same_pid;
      start_kept = same_start;
      has_process = there;
      launched = l.not_queued;
      known = c.known_state;
      exit_only_terminal = c.exit_only_terminal;
      origin_exact = rw back c.origin_exact;
      origin_known = rw back c.origin_known;
      recovered_stays = c.recovered_exact.0;
    }

restored-Fits :
    (s : TaskSnapshot) (t : Task) → IsLaunched s → IsConsistent s → restore s ≡ ok t → Fits s t
restored-Fits s t l c h =
    let (slug, limit, process, made, found, same) = restore-parts s h in
    subst (λ u. Fits s u) (sym same) (built-Fits s slug limit process l c made found)

-- A task restored from a valid snapshot of a launched task (it has a process, is not queued, and
-- has a working directory where its schema wants one) can be saved again after any operations,
-- failing ones included, at any instant but the zero time: `WithTask` succeeds.
pub with_task-restored :
    (s : TaskSnapshot) (t : Task) (ops : List Op) (at : Time)
    → IsLaunched s
    → restore s ≡ ok t
    → is_zero_time at ≡ false
    → with_task s (run t ops) at ≡ ok (updated s (run t ops) at)
unfolding with_task
with_task-restored s t ops at l h now =
    let c = (validate_iff s).0 l.valid in
    let fits = run-Fits s ops t (restored-Fits s t l c h) in
    rw (
      (validate_iff (updated s (run t ops) at)).1 (Fits-IsConsistent s (run t ops) at l c fits now))
