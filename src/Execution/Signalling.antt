-- ===== src/Execution/Signalling.antt =====
-- internal/execution/timeout.go and internal/recovery/process_signal_authority.go: how a signal is sent
-- to the process of a task, and how its death is confirmed. What the store, the lease and the process
-- table answer is a record of the model's own, and what is done is a list of steps, in their order.
use codex_runner.Prelude.{
  ℕ, ℤ, pos, negsuc, Bool, true, false, not, ◌&&◌, ◌||◌, List, [], ◌∷◌, ◌++◌, Option, none, some,
  Text, text_eq, ◌==◌, if◌then◌else◌, Result, ok, err, below,
}
use codex_runner.Domain.Enums.{TaskState, timeout, cancelling}
use codex_runner.Domain.Values.{Time, is_zero_time, TaskId, SessionRef}
use codex_runner.Domain.Task.Events.{Event}
use codex_runner.Domain.Snapshot.{TaskSnapshot}

pub data Errno : Type 0 where
  eintr eagain ebusy emfile enfile enospc other_errno : Errno

-- What `errors.Is` and `errors.As` find in an error.
pub record StoreFailure : Type 0 where
  pub unexpected_eof : Bool
  pub errno : Option Errno

abbrev pub is_transient : Option Errno → Bool
is_transient none = false
is_transient (some other_errno) = false
is_transient (some _) = true

-- `isTimeoutRetryable`; an error of the domain is never retryable.
unfoldable pub is_timeout_retryable : StoreFailure → Bool
is_timeout_retryable f = if f.unexpected_eof then true else is_transient f.errno

-- `PendingSendDisposition`
pub data PendingSend : Type 0 where
  pending_unsent pending_sent pending_confirm_only : PendingSend

-- `ProcessSignalAuthority`
pub record SignalAuthority : Type 0 where
  pub authority_task : TaskId
  pub authority_pid : ℤ
  pub authority_started_at : Time
  pub expected_state : TaskState
  pub authority_generation : Option ℕ

abbrev pub is_signal_state : TaskState → Bool
is_signal_state timeout = true
is_signal_state cancelling = true
is_signal_state _ = false

unfoldable pub valid_signal_authority : SignalAuthority → Bool
unfolding text_eq
valid_signal_authority a =
    if text_eq a.authority_task []
      || (below a.authority_pid 1 || is_zero_time a.authority_started_at)
    then false
    else is_signal_state a.expected_state

abbrev pub state_code : TaskState → ℕ
state_code TaskState.queued = 0
state_code TaskState.starting = 1
state_code TaskState.running = 2
state_code TaskState.stalled = 3
state_code TaskState.completed = 4
state_code TaskState.failed = 5
state_code TaskState.timeout = 6
state_code TaskState.recovering = 7
state_code TaskState.recovered = 8
state_code TaskState.timeout_lost = 9
state_code TaskState.cancelling = 10
state_code TaskState.killed = 11
state_code TaskState.adopted = 12
state_code TaskState.orphaned = 13
state_code TaskState.lost = 14
state_code (TaskState.other name) = 15

abbrev pub other_name : TaskState → Text
other_name (TaskState.other name) = name
other_name _ = []

-- `==` on the strings of two states
unfoldable pub same_task_state : TaskState → TaskState → Bool
unfolding text_eq
same_task_state a b = state_code a == state_code b && text_eq (other_name a) (other_name b)

unfoldable pub same_int : ℤ → ℤ → Bool
same_int (pos a) (pos b) = a == b
same_int (negsuc a) (negsuc b) = a == b
same_int a b = false

abbrev pub holds_value {ℓ} : {A : Type ℓ} → (A → Bool) → Option A → Bool
holds_value p none = false
holds_value p (some a) = p a

-- `matchesProcessSignalAuthority`
unfoldable pub matches_signal_authority : TaskSnapshot → SignalAuthority → Bool
unfolding text_eq same_int same_task_state
matches_signal_authority s a =
    text_eq s.task_id a.authority_task
    && (holds_value (λ pid. same_int pid a.authority_pid) s.pid
        && (holds_value (λ at. at == a.authority_started_at) s.process_started_at
            && same_task_state s.state a.expected_state))

pub data SignalError : Type 0 where
  authority_invalid : SignalError
  signal_failed : SignalError

-- The store, the lease and the system call, at the time of one signal.
pub record SignalWorld : Type 0 where
  pub stored : Result StoreFailure TaskSnapshot
  pub owns_lease : Bool
  pub call_fails : Bool

-- What is done, in the order in which it is done.
pub data EnforcementStep : Type 0 where
  saves : TaskSnapshot → EnforcementStep
  leaves_stalled : EnforcementStep
  appends : Event → EnforcementStep
  sends_terminate : ℤ → EnforcementStep
  sends_kill : ℤ → EnforcementStep
  registers : PendingSend → Option SignalAuthority → EnforcementStep
  releases_path_lock : EnforcementStep
  recovers : Option SessionRef → EnforcementStep

-- The system call, and its error.
abbrev pub system_call : SignalWorld → EnforcementStep → Option SignalError × List EnforcementStep
system_call w step = (if w.call_fails then some signal_failed else none, step ∷ [])

-- `WithCurrent`, where the authority names a generation.
abbrev pub call_owned :
    SignalWorld → EnforcementStep → Option ℕ → Option SignalError × List EnforcementStep
call_owned w step none = system_call w step
call_owned w step (some generation) =
    if w.owns_lease then system_call w step else (some authority_invalid, [])

abbrev pub call_matching :
    SignalWorld
    → SignalAuthority
    → EnforcementStep
    → Result StoreFailure TaskSnapshot
    → Option SignalError × List EnforcementStep
call_matching w a step (err e) = (some signal_failed, [])
call_matching w a step (ok s) =
    if matches_signal_authority s a
    then call_owned w step a.authority_generation
    else (some authority_invalid, [])

-- `TerminationEnsurer.send` with `ProcessSignalAuthorityValidator.Validate`: an action that was not
-- executed is reported as an invalid authority.
unfoldable pub send_signal :
    SignalWorld
    → SignalAuthority
    → (ℤ → EnforcementStep)
    → Option SignalError × List EnforcementStep
unfolding valid_signal_authority matches_signal_authority
send_signal w a step =
    if not (valid_signal_authority a)
    then (some authority_invalid, [])
    else call_matching w a (step a.authority_pid) w.stored

-- An answer of `CheckLivenessUseCase.Execute`: whether the task is dead, and whether there is an error.
pub record LivenessAnswer : Type 0 where
  pub found_dead : Bool
  pub answer_failed : Bool

pub record TimeoutWorld : Type 0 where
  pub loaded : Result StoreFailure TaskSnapshot
  pub save_failure : Option StoreFailure
  pub append_fails : Event → Bool
  pub terminate : SignalWorld
  pub kill : SignalWorld
  pub first_answer : LivenessAnswer
  pub second_answer : LivenessAnswer
  -- `ctx.Err() != nil` after the wait
  pub context_ended : Bool
  pub register_fails : Bool
  pub release_fails : Bool
  pub recovery_fails : Bool
  -- the second `Load`, after the death of the task
  pub reloaded : Result StoreFailure TaskSnapshot

pub record Termination : Type 0 where
  pub is_dead : Bool
  pub terminate_errors : List SignalError
  pub confirm_failed : Bool
  pub signal_steps : List EnforcementStep

abbrev pub joined : Option SignalError → List SignalError → List SignalError
joined none errors = errors
joined (some e) errors = e ∷ errors

unfoldable pub send_and_confirm : TimeoutWorld → SignalAuthority → Termination
unfolding send_signal
send_and_confirm w a =
    let first = send_signal w.terminate a sends_terminate in
    let second = send_signal w.kill a sends_kill in
    if w.first_answer.answer_failed || w.first_answer.found_dead
    then record {
      is_dead = w.first_answer.found_dead;
      terminate_errors = joined first.0 [];
      confirm_failed = w.first_answer.answer_failed;
      signal_steps = first.1;
    }
    else record {
      is_dead = w.second_answer.found_dead;
      terminate_errors = joined first.0 (joined second.0 []);
      confirm_failed = w.second_answer.answer_failed;
      signal_steps = first.1 ++ second.1;
    }

-- `TerminationEnsurer.Confirm`
unfoldable pub confirm : TimeoutWorld → Termination
confirm w =
    if w.first_answer.answer_failed || w.first_answer.found_dead
    then record {
      is_dead = w.first_answer.found_dead;
      terminate_errors = [];
      confirm_failed = w.first_answer.answer_failed;
      signal_steps = [];
    }
    else if w.context_ended
    then record { is_dead = false; terminate_errors = []; confirm_failed = true; signal_steps = [] }
    else record {
      is_dead = w.second_answer.found_dead;
      terminate_errors = [];
      confirm_failed = w.second_answer.answer_failed;
      signal_steps = [];
    }
