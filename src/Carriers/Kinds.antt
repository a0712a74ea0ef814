-- ===== src/Carriers/Kinds.antt =====
-- src/core/codex/src/lifecycle_carriers.rs: the enumerations by which a carrier rule is described.
pub data CarrierDirection : Type 0 where
  request response : CarrierDirection

pub data CarrierUse : Type 0 where
  evidence projection wire turn_metadata header_policy opaque_boundary : CarrierUse

pub data CarrierContainer : Type 0 where
  top_level response_object item caller safety_check client_metadata : CarrierContainer
  identity_metadata item_passthrough_metadata turn_metadata : CarrierContainer
  header_turn_metadata header : CarrierContainer

pub data CarrierShape : Type 0 where
  scalar conversation typed_item_id owned_response_id terminal_response_id window : CarrierShape
  serialized_turn_metadata item_object item_array response_object : CarrierShape
  identity_metadata_object item_passthrough_metadata_object caller_object : CarrierShape
  safety_check_array opaque : CarrierShape

pub data CarrierAction : Type 0 where
  relationship_projection reversible_wire_id opaque public_strip : CarrierAction
  gateway_request_alias : CarrierAction

pub data RequestWireMapping : Type 0 where
  allocate require_existing require_provider_existing contextual : RequestWireMapping

pub data RelationshipCarrier : Type 0 where
  installation session responses_conversation thread parent_thread : RelationshipCarrier
  forked_from_thread turn root_turn parent_turn window request_kind : RelationshipCarrier
  subagent turn_started_at item_turn client_request : RelationshipCarrier
