-- ===== src/Carriers/ResponseWireRules.antt =====
-- src/core/codex/src/lifecycle_carrier_response_wire_rules.rs: the table `RULES`.
use mini_sub2api.Base.{List, [], none, some, ◌∷◌}
use mini_sub2api.RequestState.Types.{WireIdDomain}
use mini_sub2api.Carriers.Kinds.{CarrierContainer, CarrierDirection, CarrierShape}
use mini_sub2api.Carriers.Rule.{
  CarrierRule, wire, installation_header, turn_metadata_header, window_header,
}

unfoldable pub rules : List CarrierRule
rules =
    wire CarrierDirection.response CarrierContainer.item_passthrough_metadata "cell_id"
      CarrierShape.scalar (some WireIdDomain.call)
    ∷ wire CarrierDirection.response CarrierContainer.top_level "context_window_id"
        CarrierShape.scalar (some WireIdDomain.context_window)
    ∷ wire CarrierDirection.response CarrierContainer.client_metadata "context_window_id"
        CarrierShape.scalar (some WireIdDomain.context_window)
    ∷ wire CarrierDirection.response CarrierContainer.turn_metadata "context_window_id"
        CarrierShape.scalar (some WireIdDomain.context_window)
    ∷ wire CarrierDirection.response CarrierContainer.top_level "previous_response_id"
        CarrierShape.scalar (some WireIdDomain.response)
    ∷ wire CarrierDirection.response CarrierContainer.top_level "item_id" CarrierShape.scalar
        (some WireIdDomain.item)
    ∷ wire CarrierDirection.response CarrierContainer.top_level "output_item_id" CarrierShape.scalar
        (some WireIdDomain.item)
    ∷ wire CarrierDirection.response CarrierContainer.top_level "call_id" CarrierShape.scalar
        (some WireIdDomain.call)
    ∷ wire CarrierDirection.response CarrierContainer.top_level "approval_request_id"
        CarrierShape.scalar (some WireIdDomain.approval)
    ∷ wire CarrierDirection.response CarrierContainer.top_level "approval_id" CarrierShape.scalar
        (some WireIdDomain.approval)
    ∷ wire CarrierDirection.response CarrierContainer.top_level "stream_id" CarrierShape.scalar
        (some WireIdDomain.stream)
    ∷ wire CarrierDirection.response CarrierContainer.top_level "installation_id"
        CarrierShape.scalar (some WireIdDomain.installation)
    ∷ wire CarrierDirection.response CarrierContainer.top_level "session_id" CarrierShape.scalar
        (some WireIdDomain.session)
    ∷ wire CarrierDirection.response CarrierContainer.top_level "thread_id" CarrierShape.scalar
        (some WireIdDomain.thread)
    ∷ wire CarrierDirection.response CarrierContainer.top_level "parent_thread_id"
        CarrierShape.scalar (some WireIdDomain.thread)
    ∷ wire CarrierDirection.response CarrierContainer.top_level "forked_from_thread_id"
        CarrierShape.scalar (some WireIdDomain.thread)
    ∷ wire CarrierDirection.response CarrierContainer.top_level "turn_id" CarrierShape.scalar
        (some WireIdDomain.turn)
    ∷ wire CarrierDirection.response CarrierContainer.top_level "root_turn_id" CarrierShape.scalar
        (some WireIdDomain.turn)
    ∷ wire CarrierDirection.response CarrierContainer.top_level "parent_turn_id" CarrierShape.scalar
        (some WireIdDomain.turn)
    ∷ wire CarrierDirection.response CarrierContainer.top_level "response_id"
        CarrierShape.owned_response_id (some WireIdDomain.response)
    ∷ wire CarrierDirection.response CarrierContainer.top_level "conversation"
        CarrierShape.conversation (some WireIdDomain.conversation)
    ∷ wire CarrierDirection.response CarrierContainer.top_level "response"
        CarrierShape.response_object none
    ∷ wire CarrierDirection.response CarrierContainer.top_level "item" CarrierShape.item_object none
    ∷ wire CarrierDirection.response CarrierContainer.top_level "output" CarrierShape.item_array
        none
    ∷ wire CarrierDirection.response CarrierContainer.top_level "client_metadata"
        CarrierShape.identity_metadata_object none
    ∷ wire CarrierDirection.response CarrierContainer.top_level "id"
        CarrierShape.terminal_response_id (some WireIdDomain.response)
    ∷ wire CarrierDirection.response CarrierContainer.response_object "id"
        CarrierShape.owned_response_id (some WireIdDomain.response)
    ∷ wire CarrierDirection.response CarrierContainer.response_object "previous_response_id"
        CarrierShape.scalar (some WireIdDomain.response)
    ∷ wire CarrierDirection.response CarrierContainer.response_object "stream_id"
        CarrierShape.scalar (some WireIdDomain.stream)
    ∷ wire CarrierDirection.response CarrierContainer.response_object "conversation"
        CarrierShape.conversation (some WireIdDomain.conversation)
    ∷ wire CarrierDirection.response CarrierContainer.response_object "output"
        CarrierShape.item_array none
    ∷ wire CarrierDirection.response CarrierContainer.response_object "client_metadata"
        CarrierShape.identity_metadata_object none
    ∷ wire CarrierDirection.response CarrierContainer.item "id" CarrierShape.typed_item_id
        (some WireIdDomain.item)
    ∷ wire CarrierDirection.response CarrierContainer.item "item_id" CarrierShape.scalar
        (some WireIdDomain.item)
    ∷ wire CarrierDirection.response CarrierContainer.item "output_item_id" CarrierShape.scalar
        (some WireIdDomain.item)
    ∷ wire CarrierDirection.response CarrierContainer.item "call_id" CarrierShape.scalar
        (some WireIdDomain.call)
    ∷ wire CarrierDirection.response CarrierContainer.item "approval_request_id" CarrierShape.scalar
        (some WireIdDomain.approval)
    ∷ wire CarrierDirection.response CarrierContainer.item "approval_id" CarrierShape.scalar
        (some WireIdDomain.approval)
    ∷ wire CarrierDirection.response CarrierContainer.item "response_id"
        CarrierShape.owned_response_id (some WireIdDomain.response)
    ∷ wire CarrierDirection.response CarrierContainer.item "caller" CarrierShape.caller_object none
    ∷ wire CarrierDirection.response CarrierContainer.item "pending_safety_checks"
        CarrierShape.safety_check_array none
    ∷ wire CarrierDirection.response CarrierContainer.item "acknowledged_safety_checks"
        CarrierShape.safety_check_array none
    ∷ wire CarrierDirection.response CarrierContainer.item
        "internal_chat_message_metadata_passthrough" CarrierShape.item_passthrough_metadata_object
        none
    ∷ wire CarrierDirection.response CarrierContainer.caller "caller_id" CarrierShape.scalar
        (some WireIdDomain.item)
    ∷ wire CarrierDirection.response CarrierContainer.safety_check "id" CarrierShape.scalar
        (some WireIdDomain.approval)
    ∷ wire CarrierDirection.response CarrierContainer.identity_metadata installation_header
        CarrierShape.scalar (some WireIdDomain.installation)
    ∷ wire CarrierDirection.response CarrierContainer.identity_metadata "installation_id"
        CarrierShape.scalar (some WireIdDomain.installation)
    ∷ wire CarrierDirection.response CarrierContainer.identity_metadata "session_id"
        CarrierShape.scalar (some WireIdDomain.session)
    ∷ wire CarrierDirection.response CarrierContainer.identity_metadata "conversation_id"
        CarrierShape.scalar (some WireIdDomain.session)
    ∷ wire CarrierDirection.response CarrierContainer.identity_metadata "thread_id"
        CarrierShape.scalar (some WireIdDomain.thread)
    ∷ wire CarrierDirection.response CarrierContainer.identity_metadata "parent_thread_id"
        CarrierShape.scalar (some WireIdDomain.thread)
    ∷ wire CarrierDirection.response CarrierContainer.identity_metadata "forked_from_thread_id"
        CarrierShape.scalar (some WireIdDomain.thread)
    ∷ wire CarrierDirection.response CarrierContainer.identity_metadata "x-codex-parent-thread-id"
        CarrierShape.scalar (some WireIdDomain.thread)
    ∷ wire CarrierDirection.response CarrierContainer.identity_metadata "turn_id"
        CarrierShape.scalar (some WireIdDomain.turn)
    ∷ wire CarrierDirection.response CarrierContainer.identity_metadata "root_turn_id"
        CarrierShape.scalar (some WireIdDomain.turn)
    ∷ wire CarrierDirection.response CarrierContainer.identity_metadata "parent_turn_id"
        CarrierShape.scalar (some WireIdDomain.turn)
    ∷ wire CarrierDirection.response CarrierContainer.identity_metadata "window_id"
        CarrierShape.window (some WireIdDomain.thread)
    ∷ wire CarrierDirection.response CarrierContainer.identity_metadata window_header
        CarrierShape.window (some WireIdDomain.thread)
    ∷ wire CarrierDirection.response CarrierContainer.identity_metadata turn_metadata_header
        CarrierShape.serialized_turn_metadata none
    ∷ []
