-- ===== src/Domain/Enums.antt =====
-- internal/domain/enums.go and state.go. A Go string type with constants is a data type with one
-- constructor for each constant; `other` holds any string that is none of them (a value read from
-- JSON is not checked by its type).
use codex_runner.Prelude.{Bool, true, false, Text, Option, none, some}

pub data TaskState : Type 0 where
  queued starting running stalled completed failed timeout recovering : TaskState
  recovered timeout_lost cancelling killed adopted orphaned lost : TaskState
  other : Text → TaskState

pub data Subcommand : Type 0 where
  impl review plan research read think status logs cancel doctor cleanup stats : Subcommand
  other : Text → Subcommand

pub data ProtocolVerb : Type 0 where
  submit status cancel tail ping : ProtocolVerb

pub data ExecutionRoute : Type 0 where
  daemon legacy : ExecutionRoute
  other : Text → ExecutionRoute

pub data ExitCodeClass : Type 0 where
  success failure timed_out cancelled : ExitCodeClass

-- `unset` is the empty string, Go's zero value.
pub data RecoveryOrigin : Type 0 where
  unset : RecoveryOrigin
  from_timeout from_orphan : RecoveryOrigin
  other : Text → RecoveryOrigin

pub data FailReason : Type 0 where
  no_output abnormal_exit : FailReason

pub data WorktreeMode : Type 0 where
  auto current : WorktreeMode
  other : Text → WorktreeMode

-- `SandboxMode` is a plain string in the source; the two accepted values and any other.
pub data SandboxMode : Type 0 where
  read_only workspace_write : SandboxMode
  other : Text → SandboxMode

abbrev pub is_submittable : Subcommand → Bool
is_submittable Subcommand.impl = true
is_submittable Subcommand.review = true
is_submittable Subcommand.plan = true
is_submittable Subcommand.research = true
is_submittable Subcommand.read = true
is_submittable Subcommand.think = true
is_submittable _ = false

abbrev pub is_impl : Subcommand → Bool
is_impl Subcommand.impl = true
is_impl _ = false

abbrev pub supports_output_schema : Subcommand → Bool
supports_output_schema Subcommand.review = true
supports_output_schema Subcommand.research = true
supports_output_schema _ = false

abbrev pub is_valid_sandbox_mode : SandboxMode → Bool
is_valid_sandbox_mode SandboxMode.read_only = true
is_valid_sandbox_mode SandboxMode.workspace_write = true
is_valid_sandbox_mode (SandboxMode.other s) = false

abbrev pub is_daemon : ExecutionRoute → Bool
is_daemon ExecutionRoute.daemon = true
is_daemon _ = false

abbrev pub is_success : ExitCodeClass → Bool
is_success ExitCodeClass.success = true
is_success _ = false

-- `isKnownTaskState`
abbrev pub is_known_task_state : TaskState → Bool
is_known_task_state (TaskState.other s) = false
is_known_task_state _ = true

-- `terminal` of state.go
abbrev pub terminal : TaskState → Bool
terminal TaskState.completed = true
terminal TaskState.failed = true
terminal TaskState.recovered = true
terminal TaskState.timeout_lost = true
terminal TaskState.killed = true
terminal TaskState.lost = true
terminal _ = false

abbrev pub is_queued : TaskState → Bool
is_queued TaskState.queued = true
is_queued _ = false

abbrev pub is_starting : TaskState → Bool
is_starting TaskState.starting = true
is_starting _ = false

abbrev pub is_adopted : TaskState → Bool
is_adopted TaskState.adopted = true
is_adopted _ = false

abbrev pub is_orphaned : TaskState → Bool
is_orphaned TaskState.orphaned = true
is_orphaned _ = false

abbrev pub is_recovered : TaskState → Bool
is_recovered TaskState.recovered = true
is_recovered _ = false

abbrev pub is_failed : TaskState → Bool
is_failed TaskState.failed = true
is_failed _ = false

abbrev pub is_from_timeout : RecoveryOrigin → Bool
is_from_timeout RecoveryOrigin.from_timeout = true
is_from_timeout _ = false

abbrev pub is_known_origin : RecoveryOrigin → Bool
is_known_origin RecoveryOrigin.from_timeout = true
is_known_origin RecoveryOrigin.from_orphan = true
is_known_origin _ = false

-- A `*RecoveryOrigin` of the snapshot from the aggregate's field: nil for the empty string.
abbrev pub origin_pointer : RecoveryOrigin → Option RecoveryOrigin
origin_pointer RecoveryOrigin.unset = none
origin_pointer o = some o

-- `lineage` of the snapshot's `Validate`: the states that a recovery leads through.
abbrev pub in_lineage : TaskState → Bool
in_lineage TaskState.recovering = true
in_lineage TaskState.recovered = true
in_lineage TaskState.timeout_lost = true
in_lineage TaskState.lost = true
in_lineage _ = false
