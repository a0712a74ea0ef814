-- ===== src/WebSocket/State/Tokens.antt =====
-- src/core/codex/src/responses_websocket_state.rs: the routing token of a hidden setup.
use mini_sub2api.Base.{◌≡◌, String, Bool, true, false, ◌⊎◌, Option, none, some}
use mini_sub2api.Base.Json.{Value}
use mini_sub2api.WebSocket.Types.{OperationKind, OperationPhase, is_completed}
use mini_sub2api.WebSocket.Interrupt
use mini_sub2api.WebSocket.Parts.{Parts}
use mini_sub2api.WebSocket.Routing.{metadata_token, is_valid_token}
use mini_sub2api.WebSocket.State.{ActiveOperation, SocketState}
use mini_sub2api.WebSocket.State.Moves.{Moves, Reached}
use mini_sub2api.WebSocket.State.Observe.{setup_turn_state}

-- The phases of a hidden setup that has answered and has not failed.
unfoldable pub is_answered : OperationPhase → Bool
is_answered OperationPhase.response_observed = true
is_answered OperationPhase.completed = true
is_answered _ = false

module _ (parts : Parts) where
  -- The token stands in an event that came while a hidden setup was active.
  abbrev pub Noted : String → Type 0
  Noted token =
      (s : SocketState parts) × (event : Value) × (a : ActiveOperation parts) × Reached s
      × (s.active ≡ some a)
      × (a.kind ≡ OperationKind.hidden_setup)
      × (metadata_token event ≡ some token)

  -- A token, where there is one, has passed `validate_token`, has been noted, and the hidden setup has
  -- answered and has not failed.
  abbrev TokenOk : Option String → OperationPhase → Type 0
  TokenOk none phase = Unit
  TokenOk (some token) phase =
      (is_valid_token parts token ≡ true) × Noted token × (is_answered phase ≡ true)

module _ {parts : Parts} where
  abbrev HasToken : SocketState parts → Type 0
  HasToken s = TokenOk parts s.setup_turn_state s.setup_phase

  -- What is handed out of the token that the state keeps.
  abbrev pub HandedOut : SocketState parts → String → Type 0
  HandedOut s token =
      ((is_completed s.setup_phase ≡ true) × (setup_turn_state s ≡ some token))
      ⊎ ((is_completed s.setup_phase ≡ false) × (setup_turn_state s ≡ none))
