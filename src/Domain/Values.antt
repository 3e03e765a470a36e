-- ===== src/Domain/Values.antt =====
-- internal/domain/timeout.go, exitcode.go, processstarttime.go and errors.go. An instant is a
-- number of ticks since Go's zero time, so that `IsZero` is `== 0`.
use codex_runner.Prelude.{
  ℕ, Bool, false, ◌||◌, Option, none, some, Text, ◌==◌, if◌then◌else◌, ℤ, pos, below, is_nat,
  Result, ok, err,
}
use codex_runner.Domain.Enums.{ExitCodeClass, success, failure, timed_out, cancelled}

abbrev pub Time : Type 0
Time = ℕ

abbrev pub is_zero_time : Time → Bool
is_zero_time t = t == 0

-- `TaskID` and `Slug` wrap a string.
abbrev pub TaskId : Type 0
TaskId = Text

abbrev pub Slug : Type 0
Slug = Text

pub record SessionRef : Type 0 where
  pub session_id : Text
  pub captured_at : Time
  pub ephemeral : Bool

-- The rule that a snapshot breaks: one for each `return bad(...)` of `TaskSnapshot.Validate`.
pub data Violation : Type 0 where
  task_id_empty unknown_subcommand model_empty unknown_sandbox_mode unknown_state : Violation
  route_not_daemon process_fields_apart pid_not_positive process_started_at_zero : Violation
  requested_timeout_below_minimum resolved_timeout_below_minimum unknown_recovery_origin : Violation
  process_info_required exit_code_not_terminal recovered_inconsistent : Violation
  recovery_origin_inconsistent timestamp_zero unsupported_schema_version : Violation
  failure_code_misplaced unknown_failure_code working_dir_in_version_2 : Violation
  working_dir_required working_dir_invalid : Violation

-- The sentinel errors of errors.go that the modelled code returns, and its `fmt.Errorf` values.
pub data Err : Type 0 where
  invalid_state_transition task_already_terminal queue_full : Err
  not_submittable orphan_exit_not_estimated invalid_detected_during : Err
  invalid_timeout invalid_process_start_time no_slug : Err
  invalid_slug invalid_task_id invalid_normalized_path : Err
  snapshot_invalid : Violation → Err
  admission_input : Text → Err
  context_done : Err
  panicked : Text → Err

abbrev pub timeout_min_seconds : ℕ
timeout_min_seconds = 1800

pub record Timeout : Type 0 where
  pub requested_seconds : Option ℤ
  pub resolved_seconds : ℤ

-- the zero value of the struct
abbrev pub zero_timeout : Timeout
zero_timeout = record { requested_seconds = none; resolved_seconds = pos 0 }

-- `requested != nil && *requested < timeoutMinSeconds`
abbrev pub requested_below_min : Option ℤ → Bool
requested_below_min none = false
requested_below_min (some n) = below n timeout_min_seconds

unfoldable pub new_timeout : Option ℤ → ℤ → Result Err Timeout
new_timeout requested resolved =
    if below resolved timeout_min_seconds || requested_below_min requested
    then err invalid_timeout
    else ok (record { requested_seconds = requested; resolved_seconds = resolved })

unfoldable pub resolve_timeout : Option ℤ → Result Err Timeout
unfolding new_timeout
resolve_timeout none = new_timeout none (pos timeout_min_seconds)
resolve_timeout (some n) = new_timeout (some n) n

pub record ExitCode : Type 0 where
  pub raw : ℤ
  pub class : ExitCodeClass

unfoldable pub new_exit_code : ℤ → ExitCode
new_exit_code raw = record {
  raw = raw;
  class =
      if is_nat raw 0
      then success
      else if is_nat raw 6 || is_nat raw 124 || is_nat raw 137
      then timed_out
      else if is_nat raw 130
      then cancelled
      else failure;
}

pub record ProcessStartTime : Type 0 where
  pub pid : ℤ
  pub started_at : Time

-- `pid <= 0` is `pid < 1` on integers.
unfoldable pub new_process_start_time : ℤ → Time → Result Err ProcessStartTime
new_process_start_time pid at =
    if below pid 1 || is_zero_time at
    then err invalid_process_start_time
    else ok (record { pid = pid; started_at = at })
