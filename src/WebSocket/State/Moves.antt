-- ===== src/WebSocket/State/Moves.antt =====
-- src/core/codex/src/responses_websocket_state.rs: the operations on a connection's state as steps, and
-- the states that they reach.
use mini_sub2api.Base.{ℕ, String, Bool, Option}
use mini_sub2api.Base.Json.{Value}
use mini_sub2api.WebSocket.Types.{CallerKind, UpstreamProfile, PrewarmMode, OperationKind}
use mini_sub2api.WebSocket.Parts.{Parts}
use mini_sub2api.WebSocket.State.{
  SocketState, new_state, mark_rebuilt_reference, disable_automatic_reuse, fail_operation,
  reset_for_reconnect, expire_baseline, abandon_cached_bodies,
}
use mini_sub2api.WebSocket.State.Plan.{plan_hidden_setup, plan_public_create, activate}
use mini_sub2api.WebSocket.State.Observe.{observe_server_event, request_interrupt}

-- `mark_hidden_setup_attempted` and `mark_public_create_attempted` are `attempt`, `fail_hidden_setup` and
-- `fail_public_create` are `fail`.
pub data Moves {parts : Parts} : SocketState parts → SocketState parts → Type 0 where
  setup :
      (request : Value) (mode : PrewarmMode) (s : SocketState parts)
      → Moves s (plan_hidden_setup request mode s).1
  create :
      (request : Value) (pending : Option parts.Pending) (s : SocketState parts)
      → Moves s (plan_public_create request pending s).2
  attempt : (kind : OperationKind) (s : SocketState parts) → Moves s (activate kind s).1
  observe : (event : Value) (s : SocketState parts) → Moves s (observe_server_event event s).2
  interrupt :
      (response_id : String) (s : SocketState parts) → Moves s (request_interrupt response_id s).1
  fail : (kind : OperationKind) (s : SocketState parts) → Moves s (fail_operation kind s)
  reset : (s : SocketState parts) → Moves s (reset_for_reconnect s)
  expire : (s : SocketState parts) → Moves s (expire_baseline s)
  abandon : (s : SocketState parts) → Moves s (abandon_cached_bodies s)
  disable : (s : SocketState parts) → Moves s (disable_automatic_reuse s)
  rebuilt :
      (reconstructed : Bool) (s : SocketState parts)
      → Moves s (mark_rebuilt_reference reconstructed s)

pub data Reached {parts : Parts} : SocketState parts → Type 0 where
  fresh :
      (caller : CallerKind) (profile : UpstreamProfile) (items bytes : ℕ)
      → Reached (new_state caller profile items bytes)
  then : {s r : SocketState parts} → Reached s → Moves s r → Reached r
