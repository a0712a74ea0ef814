-- ===== src/Carriers/RequestWireRules.antt =====
-- src/core/codex/src/lifecycle_carrier_request_wire_rules.rs: the table `RULES`.
use mini_sub2api.Base.{List, [], none, some, ◌∷◌}
use mini_sub2api.RequestState.Types.{WireIdDomain}
use mini_sub2api.Carriers.Kinds.{CarrierContainer, CarrierDirection, CarrierShape}
use mini_sub2api.Carriers.Rule.{
  CarrierRule, wire, wire_contextual, wire_provider_reference, wire_reference,
}

unfoldable pub rules : List CarrierRule
rules =
    wire_provider_reference CarrierContainer.top_level "previous_response_id" CarrierShape.scalar
      (some WireIdDomain.response)
    ∷ wire_provider_reference CarrierContainer.top_level "response_id" CarrierShape.scalar
        (some WireIdDomain.response)
    ∷ wire CarrierDirection.request CarrierContainer.top_level "stream_id" CarrierShape.scalar
        (some WireIdDomain.stream)
    ∷ wire_reference CarrierContainer.top_level "item_id" CarrierShape.scalar
        (some WireIdDomain.item)
    ∷ wire_reference CarrierContainer.top_level "output_item_id" CarrierShape.scalar
        (some WireIdDomain.item)
    ∷ wire_reference CarrierContainer.top_level "call_id" CarrierShape.scalar
        (some WireIdDomain.call)
    ∷ wire_reference CarrierContainer.top_level "approval_request_id" CarrierShape.scalar
        (some WireIdDomain.approval)
    ∷ wire_reference CarrierContainer.top_level "approval_id" CarrierShape.scalar
        (some WireIdDomain.approval)
    ∷ wire_provider_reference CarrierContainer.top_level "conversation" CarrierShape.conversation
        (some WireIdDomain.conversation)
    ∷ wire CarrierDirection.request CarrierContainer.top_level "item" CarrierShape.item_object none
    ∷ wire CarrierDirection.request CarrierContainer.top_level "items" CarrierShape.item_array none
    ∷ wire CarrierDirection.request CarrierContainer.top_level "input" CarrierShape.item_array none
    ∷ wire_contextual CarrierContainer.item "id" CarrierShape.typed_item_id (some WireIdDomain.item)
    ∷ wire_reference CarrierContainer.item "item_id" CarrierShape.scalar (some WireIdDomain.item)
    ∷ wire_reference CarrierContainer.item "output_item_id" CarrierShape.scalar
        (some WireIdDomain.item)
    ∷ wire_contextual CarrierContainer.item "call_id" CarrierShape.scalar (some WireIdDomain.call)
    ∷ wire_reference CarrierContainer.item "approval_request_id" CarrierShape.scalar
        (some WireIdDomain.approval)
    ∷ wire_provider_reference CarrierContainer.item "response_id" CarrierShape.scalar
        (some WireIdDomain.response)
    ∷ wire CarrierDirection.request CarrierContainer.item "caller" CarrierShape.caller_object none
    ∷ wire CarrierDirection.request CarrierContainer.item "pending_safety_checks"
        CarrierShape.safety_check_array none
    ∷ wire CarrierDirection.request CarrierContainer.item "acknowledged_safety_checks"
        CarrierShape.safety_check_array none
    ∷ wire_reference CarrierContainer.caller "caller_id" CarrierShape.scalar
        (some WireIdDomain.item)
    ∷ wire CarrierDirection.request CarrierContainer.item
        "internal_chat_message_metadata_passthrough" CarrierShape.item_passthrough_metadata_object
        none
    ∷ wire_reference CarrierContainer.item_passthrough_metadata "cell_id" CarrierShape.scalar
        (some WireIdDomain.call)
    ∷ wire_reference CarrierContainer.safety_check "id" CarrierShape.scalar
        (some WireIdDomain.approval)
    ∷ []
