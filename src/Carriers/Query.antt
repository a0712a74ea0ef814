-- ===== src/Carriers/Query.antt =====
-- src/core/codex/src/lifecycle_carriers.rs: the queries over all the rules, and the contextual
-- mapping of src/core/codex/src/lifecycle_carrier_request_wire_rules.rs.
use mini_sub2api.Base.{
  String, Bool, true, false, ◌&&◌, Option, none, some, List, [], ◌∷◌, ◌++◌, filter, find, any,
  str_eq, if◌then◌else◌, eq_ignore_ascii_case,
}
use mini_sub2api.Carriers.Kinds.{
  CarrierDirection, CarrierUse, CarrierContainer, CarrierAction, RequestWireMapping,
  RelationshipCarrier,
}
use mini_sub2api.Carriers.Rule.{CarrierRule, declared_wire_mapping}
use mini_sub2api.Carriers.EvidenceRules
use mini_sub2api.Carriers.ProjectionRules
use mini_sub2api.Carriers.RequestWireRules
use mini_sub2api.Carriers.ResponseWireRules
use mini_sub2api.Carriers.PolicyRules

-- Equality of enumerations, as the derived `PartialEq` computes it.
unfoldable pub CarrierDirection-discrete : Discrete CarrierDirection
CarrierDirection-discrete = hlevel

unfoldable pub CarrierUse-discrete : Discrete CarrierUse
CarrierUse-discrete = hlevel

unfoldable pub CarrierContainer-discrete : Discrete CarrierContainer
CarrierContainer-discrete = hlevel

unfoldable pub RelationshipCarrier-discrete : Discrete RelationshipCarrier
RelationshipCarrier-discrete = hlevel

abbrev pub same {ℓ} : {A : Type ℓ} → Discrete A → A → A → Bool
same d a b = elim (d a b) [ yes _ ↦ true | no _ ↦ false ]

unfoldable pub all_rules : List CarrierRule
all_rules =
    EvidenceRules.rules
    ++ (ProjectionRules.rules
        ++ (RequestWireRules.rules ++ (ResponseWireRules.rules ++ PolicyRules.rules)))

-- The test that `rules_for` filters by.
unfoldable pub stands_for : CarrierDirection → CarrierUse → CarrierContainer → CarrierRule → Bool
unfolding CarrierDirection-discrete CarrierUse-discrete CarrierContainer-discrete
stands_for direction use_case container rule =
    same CarrierDirection-discrete rule.direction direction
    && (same CarrierUse-discrete rule.use_case use_case
        && same CarrierContainer-discrete rule.container container)

unfoldable pub rules_for : CarrierDirection → CarrierUse → CarrierContainer → List CarrierRule
rules_for direction use_case container = filter (stands_for direction use_case container) all_rules

unfoldable pub wire_rules : CarrierDirection → CarrierContainer → List CarrierRule
wire_rules direction container = rules_for direction CarrierUse.wire container

abbrev pub call_types : List String
call_types =
    "function_call" ∷ "custom_tool_call" ∷ "computer_call" ∷ "local_shell_call" ∷ "shell_call"
    ∷ "apply_patch_call" ∷ "tool_search_call" ∷ "program" ∷ []

-- `item_type == Some(expected)`
abbrev pub is_type : Option String → String → Bool
is_type none expected = false
is_type (some kind) expected = str_eq kind expected

unfoldable pub contextual_mapping : String → Option String → RequestWireMapping
contextual_mapping name item_type =
    if str_eq name "id" && is_type item_type "item_reference"
    then RequestWireMapping.require_existing
    else if str_eq name "id"
    then RequestWireMapping.allocate
    else if str_eq name "call_id" && any (is_type item_type) call_types
    then RequestWireMapping.allocate
    else RequestWireMapping.require_existing

-- The free function of that name; the method of `CarrierRule` is `declared_wire_mapping`.
unfoldable pub request_wire_mapping : CarrierRule → Option String → RequestWireMapping
unfolding declared_wire_mapping contextual_mapping
request_wire_mapping rule item_type = elim (declared_wire_mapping rule) [
  | RequestWireMapping.contextual ↦ contextual_mapping rule.name item_type
  | mapping ↦ mapping
]

-- `rule.relationship == Some(relationship)`
abbrev pub relates : RelationshipCarrier → Option RelationshipCarrier → Bool
relates relationship none = false
relates relationship (some r) = same RelationshipCarrier-discrete r relationship

unfoldable pub evidence_rules : RelationshipCarrier → List CarrierRule
evidence_rules relationship =
    filter
      (λ rule.
        same CarrierUse-discrete rule.use_case CarrierUse.evidence
        && relates relationship rule.relationship)
      all_rules

unfoldable pub projection_rules : CarrierContainer → List CarrierRule
projection_rules container = rules_for CarrierDirection.request CarrierUse.projection container

unfoldable pub turn_metadata_rules : List CarrierRule
turn_metadata_rules =
    rules_for CarrierDirection.request CarrierUse.turn_metadata CarrierContainer.turn_metadata

unfoldable pub header_rules : List CarrierRule
header_rules = rules_for CarrierDirection.response CarrierUse.header_policy CarrierContainer.header

unfoldable pub response_header_action : String → CarrierAction
response_header_action name =
    elim (find (λ rule. eq_ignore_ascii_case rule.name name) header_rules) [
      | none ↦ CarrierAction.public_strip
      | some rule ↦ rule.action
    ]

-- A name for all that a query over the tables computes with.
unfoldable pub tables : Unit {0}
unfolding EvidenceRules.rules ProjectionRules.rules RequestWireRules.rules ResponseWireRules.rules
    PolicyRules.rules all_rules stands_for rules_for wire_rules evidence_rules projection_rules
    turn_metadata_rules header_rules RelationshipCarrier-discrete CarrierUse-discrete
tables = tt
