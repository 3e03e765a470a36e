-- ===== src/Supervisor/SendGate.antt =====
-- internal/supervisor/sendgate.go: whether a text may be sent to a session now. `origins` is a
-- variadic parameter, so a list; of the session, the state and the gate's record are read.
use codex_runner.Prelude.{
  ◌≡◌, ◌≢◌, ◌⊎◌, ◌↔◌, Bool, true, false, not, ◌&&◌, ◌||◌, List, ◌∷◌, Text, arith, if◌then◌else◌, ℕ,
}
use codex_runner.Supervisor.Transition.{SessionState, idle, awaiting_recommendation, rotating}

pub data SendKind : Type 0 where
  recommendation_continue remote_control handoff_end session_start : SendKind
  parallel_instruction handoff_exit operator_input : SendKind
  other : Text → SendKind

pub data SendOrigin : Type 0 where
  normal handoff : SendOrigin
  other : ℕ → SendOrigin

pub data SendBlockedReason : Type 0 where
  unblocked : SendBlockedReason
  stop state pending unconfirmed not_fixed_text rate_limited : SendBlockedReason

-- The fields of the gate that are read here; `has_pending` is `Pending != nil`.
pub record SendGateRecord : Type 0 where
  pub ever_sent : Bool
  pub last_send_confirmed : Bool
  pub unconfirmed_discarded : Bool
  pub has_pending : Bool

abbrev is_idle : SessionState → Bool
is_idle idle = true
is_idle _ = false

abbrev is_awaiting_recommendation : SessionState → Bool
is_awaiting_recommendation awaiting_recommendation = true
is_awaiting_recommendation _ = false

abbrev is_rotating : SessionState → Bool
is_rotating rotating = true
is_rotating _ = false

abbrev is_operator_input : SendKind → Bool
is_operator_input operator_input = true
is_operator_input _ = false

abbrev is_recommendation_continue : SendKind → Bool
is_recommendation_continue recommendation_continue = true
is_recommendation_continue _ = false

-- The kinds that may answer a recommendation.
abbrev answers_recommendation : SendKind → Bool
answers_recommendation recommendation_continue = true
answers_recommendation handoff_end = true
answers_recommendation remote_control = true
answers_recommendation _ = false

-- `len(origins) == 0 || origins[0] != SendOriginHandoff`
abbrev is_foreign : List SendOrigin → Bool
is_foreign (handoff ∷ origins) = false
is_foreign _ = true

unfoldable pub send_kind_allowed : SessionState → SessionState → SendKind → List SendOrigin → Bool
send_kind_allowed s observed kind origins =
    if is_operator_input kind
    then is_idle s && is_idle observed
    else if not (is_idle s) && not (is_awaiting_recommendation s) && not (is_rotating s)
    then false
    else if is_rotating s && is_foreign origins
    then false
    else if not (is_idle observed) && not (is_awaiting_recommendation observed)
    then false
    else if is_rotating s && is_recommendation_continue kind
    then false
    else if is_awaiting_recommendation observed
    then answers_recommendation kind
    else true

-- `CheckSendGate`; `unblocked` is the empty reason.
unfoldable pub check_send_gate :
    SessionState
    → SendGateRecord
    → SessionState
    → SendKind
    → Bool
    → Bool
    → Bool
    → List SendOrigin
    → SendBlockedReason
unfolding send_kind_allowed
check_send_gate s gate observed kind stopped fixed fresh_after_discard origins =
    if not (is_idle s)
      && not (is_awaiting_recommendation s)
      && (not (is_rotating s) || is_foreign origins)
    then SendBlockedReason.state
    else if stopped
    then SendBlockedReason.stop
    else if not (send_kind_allowed s observed kind origins)
    then SendBlockedReason.state
    else if gate.has_pending
    then SendBlockedReason.pending
    else if gate.unconfirmed_discarded && not fresh_after_discard
        || not gate.unconfirmed_discarded && gate.ever_sent && not gate.last_send_confirmed
    then SendBlockedReason.unconfirmed
    else if not fixed
    then SendBlockedReason.not_fixed_text
    else SendBlockedReason.unblocked

-- A handoff's own sends are the only ones during a rotation.
abbrev pub IsHandoff : List SendOrigin → Type 0
IsHandoff (handoff ∷ origins) = Unit
IsHandoff _ = ⊥

-- When a send may go out, without the order of the tests.
pub record IsSendable (s : SessionState) (gate : SendGateRecord) (observed : SessionState)
    (kind : SendKind) (stopped fixed fresh : Bool) (origins : List SendOrigin) : Type 0 where
  in_state : (s ≡ idle) ⊎ (s ≡ awaiting_recommendation) ⊎ ((s ≡ rotating) × IsHandoff origins)
  on_screen : (observed ≡ idle) ⊎ (observed ≡ awaiting_recommendation)
  operator_idle : kind ≡ operator_input → (s ≡ idle) × (observed ≡ idle)
  no_continue_in_rotation : s ≡ rotating → kind ≢ recommendation_continue
  answer_only :
      observed ≡ awaiting_recommendation
      → (kind ≡ recommendation_continue) ⊎ (kind ≡ handoff_end) ⊎ (kind ≡ remote_control)
  not_stopped : stopped ≡ false
  nothing_pending : gate.has_pending ≡ false
  discarded_fresh : gate.unconfirmed_discarded ≡ true → fresh ≡ true
  last_confirmed :
      gate.unconfirmed_discarded ≡ false → gate.ever_sent ≡ true → gate.last_send_confirmed ≡ true
  fixed_text : fixed ≡ true

check_send_gate-IsSendable :
    (s : SessionState) (gate : SendGateRecord) (observed : SessionState) (kind : SendKind)
    (stopped fixed fresh : Bool) (origins : List SendOrigin)
    → check_send_gate s gate observed kind stopped fixed fresh origins ≡ SendBlockedReason.unblocked
    → IsSendable s gate observed kind stopped fixed fresh origins
unfolding check_send_gate
check_send_gate-IsSendable s gate observed kind stopped fixed fresh origins h = record {
  in_state = ground arith;
  on_screen = ground arith;
  operator_idle = ground arith;
  no_continue_in_rotation = ground arith;
  answer_only = ground arith;
  not_stopped = ground arith;
  nothing_pending = ground arith;
  discarded_fresh = ground arith;
  last_confirmed = ground arith;
  fixed_text = ground arith;
}

IsSendable-check_send_gate :
    (s : SessionState) (gate : SendGateRecord) (observed : SessionState) (kind : SendKind)
    (stopped fixed fresh : Bool) (origins : List SendOrigin)
    → IsSendable s gate observed kind stopped fixed fresh origins
    → check_send_gate s gate observed kind stopped fixed fresh origins ≡ SendBlockedReason.unblocked
unfolding check_send_gate
IsSendable-check_send_gate s gate observed kind stopped fixed fresh origins h = ground arith

-- The gate lets a send pass exactly when it is sendable: the session converses, or rotates and the
-- send is the handoff's own; the screen waits for input; the kind fits both; nothing stops the
-- session, is pending or waits for its confirmation; and the text is a fixed one.
pub check_send_gate_iff :
    (s : SessionState) (gate : SendGateRecord) (observed : SessionState) (kind : SendKind)
    (stopped fixed fresh : Bool) (origins : List SendOrigin)
    → (check_send_gate s gate observed kind stopped fixed fresh origins
        ≡ SendBlockedReason.unblocked)
      ↔ IsSendable s gate observed kind stopped fixed fresh origins
check_send_gate_iff s gate observed kind stopped fixed fresh origins = (
  check_send_gate-IsSendable s gate observed kind stopped fixed fresh origins,
  IsSendable-check_send_gate s gate observed kind stopped fixed fresh origins,
)
