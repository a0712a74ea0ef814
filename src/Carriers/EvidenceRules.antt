-- ===== src/Carriers/EvidenceRules.antt =====
-- src/core/codex/src/lifecycle_carrier_evidence_rules.rs: the table `RULES`.
use mini_sub2api.Base.{List, [], ◌∷◌}
use Prim.Native.Nat.{bit_or}
use mini_sub2api.Carriers.Kinds.{CarrierContainer, CarrierShape, RelationshipCarrier}
use mini_sub2api.Carriers.Rule.{
  CarrierRule, evidence, allow_empty, installation_header, skip_after_header_projection,
  window_header,
}

unfoldable pub rules : List CarrierRule
rules =
    evidence CarrierContainer.client_metadata installation_header CarrierShape.scalar
      RelationshipCarrier.installation 0 0
    ∷ evidence CarrierContainer.turn_metadata "installation_id" CarrierShape.scalar
        RelationshipCarrier.installation 1 0
    ∷ evidence CarrierContainer.header installation_header CarrierShape.scalar
        RelationshipCarrier.installation 2 skip_after_header_projection
    ∷ evidence CarrierContainer.header_turn_metadata "installation_id" CarrierShape.scalar
        RelationshipCarrier.installation 3 skip_after_header_projection
    ∷ evidence CarrierContainer.client_metadata "thread_id" CarrierShape.scalar
        RelationshipCarrier.thread 0 0
    ∷ evidence CarrierContainer.turn_metadata "thread_id" CarrierShape.scalar
        RelationshipCarrier.thread 1 0
    ∷ evidence CarrierContainer.header "thread-id" CarrierShape.scalar RelationshipCarrier.thread 2
        skip_after_header_projection
    ∷ evidence CarrierContainer.header_turn_metadata "thread_id" CarrierShape.scalar
        RelationshipCarrier.thread 3 skip_after_header_projection
    ∷ evidence CarrierContainer.client_metadata window_header CarrierShape.window
        RelationshipCarrier.window 0 0
    ∷ evidence CarrierContainer.turn_metadata "window_id" CarrierShape.window
        RelationshipCarrier.window 1 0
    ∷ evidence CarrierContainer.header window_header CarrierShape.window RelationshipCarrier.window
        2 skip_after_header_projection
    ∷ evidence CarrierContainer.header_turn_metadata "window_id" CarrierShape.window
        RelationshipCarrier.window 3 skip_after_header_projection
    ∷ evidence CarrierContainer.client_metadata "session_id" CarrierShape.scalar
        RelationshipCarrier.session 0 0
    ∷ evidence CarrierContainer.turn_metadata "session_id" CarrierShape.scalar
        RelationshipCarrier.session 1 0
    ∷ evidence CarrierContainer.header "session-id" CarrierShape.scalar RelationshipCarrier.session
        2 skip_after_header_projection
    ∷ evidence CarrierContainer.header_turn_metadata "session_id" CarrierShape.scalar
        RelationshipCarrier.session 3 skip_after_header_projection
    ∷ evidence CarrierContainer.client_metadata "conversation_id" CarrierShape.scalar
        RelationshipCarrier.session 4 0
    ∷ evidence CarrierContainer.header "conversation_id" CarrierShape.scalar
        RelationshipCarrier.session 5 skip_after_header_projection
    ∷ evidence CarrierContainer.top_level "prompt_cache_key" CarrierShape.scalar
        RelationshipCarrier.session 6 0
    ∷ evidence CarrierContainer.header "x-client-request-id" CarrierShape.scalar
        RelationshipCarrier.client_request 0 skip_after_header_projection
    ∷ evidence CarrierContainer.turn_metadata "parent_thread_id" CarrierShape.scalar
        RelationshipCarrier.parent_thread 0 0
    ∷ evidence CarrierContainer.turn_metadata "x-codex-parent-thread-id" CarrierShape.scalar
        RelationshipCarrier.parent_thread 1 0
    ∷ evidence CarrierContainer.header_turn_metadata "parent_thread_id" CarrierShape.scalar
        RelationshipCarrier.parent_thread 2 skip_after_header_projection
    ∷ evidence CarrierContainer.header "x-codex-parent-thread-id" CarrierShape.scalar
        RelationshipCarrier.parent_thread 3 skip_after_header_projection
    ∷ evidence CarrierContainer.client_metadata "x-codex-parent-thread-id" CarrierShape.scalar
        RelationshipCarrier.parent_thread 4 0
    ∷ evidence CarrierContainer.client_metadata "parent_thread_id" CarrierShape.scalar
        RelationshipCarrier.parent_thread 5 0
    ∷ evidence CarrierContainer.turn_metadata "forked_from_thread_id" CarrierShape.scalar
        RelationshipCarrier.forked_from_thread 0 0
    ∷ evidence CarrierContainer.header_turn_metadata "forked_from_thread_id" CarrierShape.scalar
        RelationshipCarrier.forked_from_thread 1 skip_after_header_projection
    ∷ evidence CarrierContainer.client_metadata "forked_from_thread_id" CarrierShape.scalar
        RelationshipCarrier.forked_from_thread 2 0
    ∷ evidence CarrierContainer.turn_metadata "turn_id" CarrierShape.scalar RelationshipCarrier.turn
        0 allow_empty
    ∷ evidence CarrierContainer.header_turn_metadata "turn_id" CarrierShape.scalar
        RelationshipCarrier.turn 1 (bit_or allow_empty skip_after_header_projection)
    ∷ evidence CarrierContainer.client_metadata "turn_id" CarrierShape.scalar
        RelationshipCarrier.turn 2 allow_empty
    ∷ evidence CarrierContainer.turn_metadata "root_turn_id" CarrierShape.scalar
        RelationshipCarrier.root_turn 0 0
    ∷ evidence CarrierContainer.header_turn_metadata "root_turn_id" CarrierShape.scalar
        RelationshipCarrier.root_turn 1 skip_after_header_projection
    ∷ evidence CarrierContainer.client_metadata "root_turn_id" CarrierShape.scalar
        RelationshipCarrier.root_turn 2 0
    ∷ evidence CarrierContainer.turn_metadata "parent_turn_id" CarrierShape.scalar
        RelationshipCarrier.parent_turn 0 0
    ∷ evidence CarrierContainer.header_turn_metadata "parent_turn_id" CarrierShape.scalar
        RelationshipCarrier.parent_turn 1 skip_after_header_projection
    ∷ evidence CarrierContainer.client_metadata "parent_turn_id" CarrierShape.scalar
        RelationshipCarrier.parent_turn 2 0
    ∷ evidence CarrierContainer.turn_metadata "request_kind" CarrierShape.scalar
        RelationshipCarrier.request_kind 0 0
    ∷ evidence CarrierContainer.header_turn_metadata "request_kind" CarrierShape.scalar
        RelationshipCarrier.request_kind 1 skip_after_header_projection
    ∷ evidence CarrierContainer.header "x-openai-subagent" CarrierShape.scalar
        RelationshipCarrier.subagent 0 0
    ∷ evidence CarrierContainer.client_metadata "x-openai-subagent" CarrierShape.scalar
        RelationshipCarrier.subagent 1 0
    ∷ evidence CarrierContainer.turn_metadata "subagent_kind" CarrierShape.scalar
        RelationshipCarrier.subagent 2 0
    ∷ evidence CarrierContainer.top_level "conversation" CarrierShape.conversation
        RelationshipCarrier.responses_conversation 0 0
    ∷ evidence CarrierContainer.item_passthrough_metadata "turn_id" CarrierShape.scalar
        RelationshipCarrier.item_turn 0 0
    ∷ []
