-- ===== src/WebSocket/State/Observe.antt =====
-- src/core/codex/src/responses_websocket_state.rs and responses_websocket_interrupt.rs: the server's
-- events, and a request to interrupt the response.
use mini_sub2api.Base.{
  ℕ, String, Bool, true, false, not, ◌&&◌, ◌||◌, Option, none, some, List, [], ◌∷◌, if◌then◌else◌,
  str_eq,
}
use mini_sub2api.Base.TextMap.{has_text}
use mini_sub2api.Base.Json.{Value, get, text_of}
use mini_sub2api.WebSocket.Types.{
  OperationKind, OperationPhase, EventDisposition, same_kind, is_completed,
}
use mini_sub2api.WebSocket.Interrupt
use mini_sub2api.WebSocket.Interrupt.{completes}
use mini_sub2api.WebSocket.Parts.{Parts}
use mini_sub2api.WebSocket.Routing.{metadata_token, is_valid_token}
use mini_sub2api.WebSocket.State.{ActiveOperation, SocketState, set_phase, fail_active}
use mini_sub2api.WebSocket.State.Output.{observe_output_item, complete}
use mini_sub2api.WebSocket.State.Plan.{present}

unfoldable pub disposition_of : OperationKind → EventDisposition
disposition_of OperationKind.hidden_setup = EventDisposition.consume_hidden_setup
disposition_of OperationKind.public_create = EventDisposition.forward_public

abbrev pub failing_types : List String
failing_types = "response.failed" ∷ "response.incomplete" ∷ "error" ∷ []

module _ (parts : Parts) where
  abbrev pub valid_token : Option String → Option String
  valid_token none = none
  valid_token (some token) = if is_valid_token parts token then some token else none

  -- The routing token of a hidden setup: the first that is valid.
  unfoldable pub note_token : OperationKind → Value → Option String → Option String
  note_token OperationKind.hidden_setup event none = valid_token (metadata_token event)
  note_token OperationKind.hidden_setup event (some token) = some token
  note_token OperationKind.public_create event token = token

module _ {parts : Parts} where
  -- The observations of the interruption and of the output, the first error ending them.
  unfoldable pub observe_parts : ℕ → Value → ActiveOperation parts → Option (ActiveOperation parts)
  observe_parts max_items event a = elim (Interrupt.observe event a.interruption) [
    | none ↦ none
    | some i ↦
        if parts.is_valid_done event
        then (elim (parts.observe_with_interrupt event max_items i.requested a.output_lifecycle) [
          | none ↦ none
          | some l ↦ some (record a { interruption = i; output_lifecycle = l })
        ])
        else none
  ]

  -- The `match` on the type of the event.
  unfoldable pub dispatch :
      String
      → Value
      → ActiveOperation parts
      → SocketState parts
      → Option parts.Pending × SocketState parts
  unfolding observe_output_item complete fail_active
  dispatch event_type event a s =
      if str_eq event_type "response.output_item.done"
      then (
        none,
        record s {
          active = some (observe_output_item s.max_output_items s.max_output_bytes event a);
        },
      )
      else if str_eq event_type "response.completed"
          || (str_eq event_type "response.incomplete" && completes a.interruption event)
      then complete event a s
      else if has_text event_type failing_types
      then (none, fail_active a.kind s)
      else (none, record s { active = some a })

  unfoldable pub observe_active :
      Value → ActiveOperation parts → SocketState parts → Option parts.Pending × SocketState parts
  unfolding note_token set_phase dispatch observe_parts fail_active
  observe_active event a s =
      let noted =
        set_phase a.kind OperationPhase.response_observed
          (record s { setup_turn_state = note_token parts a.kind event s.setup_turn_state }) in
      elim (text_of (get event "type")) [
        | none ↦ (none, record noted { active = some (record a { reusable = false }) })
        | some event_type ↦ elim (observe_parts s.max_output_items event a) [
          | none ↦ (none, fail_active a.kind noted)
          | some b ↦ dispatch event_type event b noted
        ]
      ]

  -- `observe_server_event_with_compaction`
  unfoldable pub observe_server_event :
      Value → SocketState parts → EventDisposition × Option parts.Pending × SocketState parts
  unfolding observe_active disposition_of
  observe_server_event event s = elim s.active [
    | none ↦ (EventDisposition.unassociated, none, s)
    | some a ↦ let r = observe_active event a s in (disposition_of a.kind, r.0, r.1)
  ]

  -- `request_interrupt`; `Err` is false.
  unfoldable pub request_interrupt : String → SocketState parts → Bool × SocketState parts
  request_interrupt response_id s = elim s.active [
    | none ↦ (false, s)
    | some a ↦
        if same_kind a.kind OperationKind.public_create && not (present a.pending_compaction)
        then (elim (Interrupt.request response_id a.interruption) [
          | none ↦ (false, s)
          | some i ↦ (true, record s { active = some (record a { interruption = i }) })
        ])
        else (false, s)
  ]

  -- `setup_turn_state()`
  unfoldable pub setup_turn_state : SocketState parts → Option String
  setup_turn_state s = if is_completed s.setup_phase then s.setup_turn_state else none
