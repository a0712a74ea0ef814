-- ===== src/Tests/CarrierLaws.antt =====
-- The laws of the carrier tables at rules and headers of the tables.
use mini_sub2api.Base.{
  ◌≡◌, refl, ◌≢◌, ◌⊎◌, true, none, some, All, eq_ignore_ascii_case, lowercase, same_codes,
  get_elem?, In,
}
use mini_sub2api.RequestState.Types.{WireIdDomain}
use mini_sub2api.Carriers.Kinds.{
  CarrierDirection, CarrierUse, CarrierContainer, CarrierShape, CarrierAction, RequestWireMapping,
  RelationshipCarrier,
}
use mini_sub2api.Carriers.Rule.{CarrierRule, evidence, declared_wire_mapping, contextual_wire}
use mini_sub2api.Carriers.Query.{
  wire_rules, request_wire_mapping, evidence_rules, header_rules, response_header_action, tables,
}
use mini_sub2api.Carriers.Laws.{
  request_wire_mapping_resolved, response_header_action_safe, response_header_action_case,
  IsCoherent, wire_rules-All, evidence_rules_priority,
}

abbrev contextual_rule : CarrierRule
contextual_rule = record {
  direction = CarrierDirection.request;
  use_case = CarrierUse.wire;
  container = CarrierContainer.item;
  name = "call_id";
  shape = CarrierShape.scalar;
  action = CarrierAction.reversible_wire_id;
  domain = some WireIdDomain.call;
  relationship = none;
  priority = 0;
  flags = contextual_wire;
}

request_wire_mapping_resolved_example :
    (request_wire_mapping contextual_rule (some "function_call") ≢ RequestWireMapping.contextual)
    × ((declared_wire_mapping contextual_rule ≡ RequestWireMapping.contextual)
        ⊎ (request_wire_mapping contextual_rule (some "function_call")
            ≡ declared_wire_mapping contextual_rule))
request_wire_mapping_resolved_example =
    request_wire_mapping_resolved contextual_rule (some "function_call")

response_header_action_safe_example :
    (response_header_action "X-Request-Id" ≡ CarrierAction.public_strip)
    ⊎ ((rule : CarrierRule) × In rule header_rules
        × (response_header_action "X-Request-Id" ≡ rule.action)
        × (rule.domain ≡ none)
        × (eq_ignore_ascii_case rule.name "X-Request-Id" ≡ true))
response_header_action_safe_example = response_header_action_safe "X-Request-Id"

same_header : eq_ignore_ascii_case "Content-Type" "content-type" ≡ true
unfolding eq_ignore_ascii_case lowercase same_codes
same_header = refl

response_header_action_case_example :
    response_header_action "Content-Type" ≡ response_header_action "content-type"
response_header_action_case_example =
    response_header_action_case "Content-Type" "content-type" same_header

wire_rules-All_example :
    All IsCoherent (wire_rules CarrierDirection.response CarrierContainer.top_level)
wire_rules-All_example = wire_rules-All CarrierDirection.response CarrierContainer.top_level

abbrev installation_rule : CarrierRule
installation_rule =
    evidence CarrierContainer.turn_metadata "installation_id" CarrierShape.scalar
      RelationshipCarrier.installation 1 0

second_rule : get_elem? (evidence_rules RelationshipCarrier.installation) 1 ≡ some installation_rule
unfolding tables
second_rule = refl

evidence_rules_priority_example : installation_rule.priority ≡ 1
evidence_rules_priority_example =
    evidence_rules_priority RelationshipCarrier.installation 1 installation_rule second_rule
