-- ===== src/WebSocket/State.antt =====
-- src/core/codex/src/responses_websocket_state.rs and responses_websocket_state_output.rs: the state of a
-- connection and its data. Plan has the operations that plan and start a request, Observe those on the
-- server's events.
pub mod Output
pub mod Plan
pub mod Observe
pub mod Cases
pub mod Phases
pub mod Orderly
pub mod Moves
pub mod Reached
pub mod Bounded
pub mod Limits
pub mod Tokens
pub mod Continued
use mini_sub2api.Base.{ℕ, String, Bool, true, false, not, ◌&&◌, ◌||◌, Option, none, some, List, []}
use mini_sub2api.Base.Json.{Value}
use mini_sub2api.WebSocket.Types.{
  CallerKind, UpstreamProfile, OperationKind, OperationPhase, is_bare, uses_subscription_transport,
  same_kind,
}
use mini_sub2api.WebSocket.Interrupt.{InterruptState}
use mini_sub2api.WebSocket.Parts.{Parts}
use mini_sub2api.WebSocket.Reuse.{RequestSnapshot, ReuseBaseline}

pub record PlannedOperation (parts : Parts) : Type 0 where
  pub kind : OperationKind
  pub request : Option RequestSnapshot
  pub pending_compaction : Option parts.Pending

-- `output` is sorted by its indexes.
pub record ActiveOperation (parts : Parts) : Type 0 where
  pub kind : OperationKind
  pub request : Option RequestSnapshot
  pub output : List (ℕ × Value)
  pub output_bytes : ℕ
  pub compaction_output : parts.Compaction
  pub output_lifecycle : parts.Lifecycle
  pub interruption : InterruptState
  pub reusable : Bool
  pub pending_compaction : Option parts.Pending

pub record SocketState (parts : Parts) : Type 0 where
  pub caller : CallerKind
  pub profile : UpstreamProfile
  pub baseline : Option ReuseBaseline
  pub setup_turn_state : Option String
  pub planned : Option (PlannedOperation parts)
  pub active : Option (ActiveOperation parts)
  pub setup_phase : OperationPhase
  pub public_phase : OperationPhase
  pub rebuilt_reference : Bool
  pub automatic_reuse : Bool
  pub max_output_items : ℕ
  pub max_output_bytes : ℕ

-- `if kind == HiddenSetup { self.setup_turn_state = None }`
abbrev pub token_after : OperationKind → Option String → Option String
token_after OperationKind.hidden_setup token = none
token_after OperationKind.public_create token = token

-- A phase that is set for one kind.
abbrev pub setup_after : OperationKind → OperationPhase → OperationPhase → OperationPhase
setup_after OperationKind.hidden_setup new old = new
setup_after OperationKind.public_create new old = old

abbrev pub public_after : OperationKind → OperationPhase → OperationPhase → OperationPhase
public_after OperationKind.hidden_setup new old = old
public_after OperationKind.public_create new old = new

module _ {parts : Parts} where
  -- The limits are those of `inference_limits::get()`.
  unfoldable pub new_state : CallerKind → UpstreamProfile → ℕ → ℕ → SocketState parts
  new_state caller profile items bytes = record {
    caller = caller;
    profile = profile;
    baseline = none;
    setup_turn_state = none;
    planned = none;
    active = none;
    setup_phase = OperationPhase.idle;
    public_phase = OperationPhase.idle;
    rebuilt_reference = false;
    automatic_reuse = is_bare caller && uses_subscription_transport profile;
    max_output_items = items;
    max_output_bytes = bytes;
  }

  abbrev pub phase_of : OperationKind → SocketState parts → OperationPhase
  phase_of OperationKind.hidden_setup s = s.setup_phase
  phase_of OperationKind.public_create s = s.public_phase

  unfoldable pub set_phase : OperationKind → OperationPhase → SocketState parts → SocketState parts
  set_phase kind phase s = record s {
    setup_phase = setup_after kind phase s.setup_phase;
    public_phase = public_after kind phase s.public_phase;
  }

  unfoldable pub mark_rebuilt_reference : Bool → SocketState parts → SocketState parts
  mark_rebuilt_reference reconstructed s = record s { rebuilt_reference = reconstructed }

  unfoldable pub automatic_reuse_enabled : SocketState parts → Bool
  automatic_reuse_enabled s =
      s.automatic_reuse && (is_bare s.caller && uses_subscription_transport s.profile)

  unfoldable pub disable_automatic_reuse : SocketState parts → SocketState parts
  disable_automatic_reuse s = record s { automatic_reuse = false }

  unfoldable pub fail_active : OperationKind → SocketState parts → SocketState parts
  unfolding set_phase
  fail_active kind s = set_phase kind OperationPhase.failed (record s {
    setup_turn_state = token_after kind s.setup_turn_state;
    active = none;
    planned = none;
    baseline = none;
  })

  abbrev pub active_unless :
      OperationKind → Option (ActiveOperation parts) → Option (ActiveOperation parts)
  active_unless kind none = none
  active_unless kind (some a) = elim (same_kind a.kind kind) [ true ↦ none | false ↦ some a ]

  abbrev pub planned_unless :
      OperationKind → Option (PlannedOperation parts) → Option (PlannedOperation parts)
  planned_unless kind none = none
  planned_unless kind (some p) = elim (same_kind p.kind kind) [ true ↦ none | false ↦ some p ]

  unfoldable pub fail_operation : OperationKind → SocketState parts → SocketState parts
  unfolding set_phase
  fail_operation kind s = set_phase kind OperationPhase.failed (record s {
    setup_turn_state = token_after kind s.setup_turn_state;
    active = active_unless kind s.active;
    planned = planned_unless kind s.planned;
    baseline = none;
  })

  unfoldable pub reset_for_reconnect : SocketState parts → SocketState parts
  reset_for_reconnect s = record s {
    rebuilt_reference = false;
    setup_turn_state = none;
    baseline = none;
    planned = none;
    active = none;
    setup_phase = OperationPhase.idle;
    public_phase = OperationPhase.idle;
  }

  unfoldable pub expire_baseline : SocketState parts → SocketState parts
  expire_baseline s = record s { baseline = none }

  -- `abandon_output`
  unfoldable pub abandon_output : ActiveOperation parts → ActiveOperation parts
  abandon_output a = record a { output = []; output_bytes = 0; reusable = false }

  abbrev pub abandon_active : Option (ActiveOperation parts) → Option (ActiveOperation parts)
  abandon_active none = none
  abandon_active (some a) = some (abandon_output (record a { request = none }))

  abbrev pub abandon_planned : Option (PlannedOperation parts) → Option (PlannedOperation parts)
  abandon_planned none = none
  abandon_planned (some p) = some (record p { request = none })

  unfoldable pub abandon_cached_bodies : SocketState parts → SocketState parts
  unfolding abandon_output
  abandon_cached_bodies s = record s {
    baseline = none;
    active = abandon_active s.active;
    planned = abandon_planned s.planned;
  }
