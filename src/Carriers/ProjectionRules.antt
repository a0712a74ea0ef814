-- ===== src/Carriers/ProjectionRules.antt =====
-- src/core/codex/src/lifecycle_carrier_projection_rules.rs: the table `RULES`.
use mini_sub2api.Base.{List, [], none, some, ◌∷◌}
use Prim.Native.Nat.{bit_or}
use mini_sub2api.Carriers.Kinds.{CarrierAction, CarrierContainer, CarrierShape, RelationshipCarrier}
use mini_sub2api.Carriers.Rule.{
  CarrierRule, metadata, projection, header_visible, installation_header, normal_required,
  prewarm_required_bool, prewarm_required_string, turn_metadata_header, window_header,
}

unfoldable pub rules : List CarrierRule
rules =
    projection CarrierContainer.top_level "prompt_cache_key" CarrierShape.scalar
      (some RelationshipCarrier.session)
    ∷ projection CarrierContainer.header "session-id" CarrierShape.scalar
        (some RelationshipCarrier.session)
    ∷ projection CarrierContainer.header "thread-id" CarrierShape.scalar
        (some RelationshipCarrier.thread)
    ∷ projection CarrierContainer.header "x-client-request-id" CarrierShape.scalar
        (some RelationshipCarrier.thread)
    ∷ projection CarrierContainer.header window_header CarrierShape.window
        (some RelationshipCarrier.window)
    ∷ projection CarrierContainer.header "x-codex-parent-thread-id" CarrierShape.scalar
        (some RelationshipCarrier.parent_thread)
    ∷ projection CarrierContainer.header turn_metadata_header CarrierShape.serialized_turn_metadata
        none
    ∷ projection CarrierContainer.client_metadata "session_id" CarrierShape.scalar
        (some RelationshipCarrier.session)
    ∷ projection CarrierContainer.client_metadata "thread_id" CarrierShape.scalar
        (some RelationshipCarrier.thread)
    ∷ projection CarrierContainer.client_metadata installation_header CarrierShape.scalar
        (some RelationshipCarrier.installation)
    ∷ projection CarrierContainer.client_metadata window_header CarrierShape.window
        (some RelationshipCarrier.window)
    ∷ projection CarrierContainer.client_metadata "x-codex-parent-thread-id" CarrierShape.scalar
        (some RelationshipCarrier.parent_thread)
    ∷ projection CarrierContainer.client_metadata "parent_thread_id" CarrierShape.scalar
        (some RelationshipCarrier.parent_thread)
    ∷ projection CarrierContainer.client_metadata "forked_from_thread_id" CarrierShape.scalar
        (some RelationshipCarrier.forked_from_thread)
    ∷ projection CarrierContainer.client_metadata "turn_id" CarrierShape.scalar
        (some RelationshipCarrier.turn)
    ∷ projection CarrierContainer.client_metadata "root_turn_id" CarrierShape.scalar
        (some RelationshipCarrier.root_turn)
    ∷ projection CarrierContainer.client_metadata "parent_turn_id" CarrierShape.scalar
        (some RelationshipCarrier.parent_turn)
    ∷ projection CarrierContainer.client_metadata turn_metadata_header
        CarrierShape.serialized_turn_metadata none
    ∷ metadata "installation_id" (some RelationshipCarrier.installation)
        CarrierAction.relationship_projection
        (bit_or (bit_or header_visible normal_required) prewarm_required_string)
    ∷ metadata "session_id" (some RelationshipCarrier.session) CarrierAction.relationship_projection
        (bit_or (bit_or header_visible normal_required) prewarm_required_string)
    ∷ metadata "thread_id" (some RelationshipCarrier.thread) CarrierAction.relationship_projection
        (bit_or (bit_or header_visible normal_required) prewarm_required_string)
    ∷ metadata "agent_name" none CarrierAction.opaque
        (bit_or (bit_or header_visible normal_required) prewarm_required_string)
    ∷ metadata "turn_id" (some RelationshipCarrier.turn) CarrierAction.relationship_projection
        header_visible
    ∷ metadata "window_id" (some RelationshipCarrier.window) CarrierAction.relationship_projection
        (bit_or (bit_or header_visible normal_required) prewarm_required_string)
    ∷ metadata "window_number" none CarrierAction.opaque header_visible
    ∷ metadata "context_window_id" none CarrierAction.opaque header_visible
    ∷ metadata "request_kind" (some RelationshipCarrier.request_kind)
        CarrierAction.relationship_projection (bit_or header_visible normal_required)
    ∷ metadata "forked_from_thread_id" (some RelationshipCarrier.forked_from_thread)
        CarrierAction.relationship_projection header_visible
    ∷ metadata "forked_from_ordinal_exclusive" none CarrierAction.opaque header_visible
    ∷ metadata "parent_thread_id" (some RelationshipCarrier.parent_thread)
        CarrierAction.relationship_projection header_visible
    ∷ metadata "parent_turn_id" (some RelationshipCarrier.parent_turn)
        CarrierAction.relationship_projection header_visible
    ∷ metadata "root_turn_id" (some RelationshipCarrier.root_turn)
        CarrierAction.relationship_projection header_visible
    ∷ metadata "subagent_kind" (some RelationshipCarrier.subagent)
        CarrierAction.relationship_projection header_visible
    ∷ metadata "thread_source" none CarrierAction.opaque header_visible
    ∷ metadata "turn_trigger" none CarrierAction.opaque header_visible
    ∷ metadata "sandbox" none CarrierAction.opaque (bit_or header_visible prewarm_required_string)
    ∷ metadata "sandbox_mode" none CarrierAction.opaque
        (bit_or header_visible prewarm_required_string)
    ∷ metadata "auto_review_enabled" none CarrierAction.opaque
        (bit_or (bit_or header_visible normal_required) prewarm_required_bool)
    ∷ metadata "node_repl_auto_review_required" none CarrierAction.opaque
        (bit_or (bit_or header_visible normal_required) prewarm_required_bool)
    ∷ metadata "node_repl_disabled" none CarrierAction.opaque
        (bit_or (bit_or header_visible normal_required) prewarm_required_bool)
    ∷ metadata "workspaces" none CarrierAction.opaque header_visible
    ∷ metadata "tool_namespaces_info" none CarrierAction.opaque 0
    ∷ metadata "turn_started_at_unix_ms" (some RelationshipCarrier.turn_started_at)
        CarrierAction.relationship_projection (bit_or header_visible normal_required)
    ∷ metadata "history_ingest_requested" none CarrierAction.opaque header_visible
    ∷ metadata "analytics_enabled" none CarrierAction.opaque header_visible
    ∷ metadata "compaction" none CarrierAction.opaque header_visible
    ∷ []
