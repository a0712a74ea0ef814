-- ===== src/Carriers/Rule.antt =====
-- src/core/codex/src/lifecycle_carriers.rs: a carrier rule, its flags (a `u16`) and the builders of
-- the tables.
use Prim.Native.Nat.{bit_and}
use mini_sub2api.Base.{ℕ, String, Bool, not, Option, none, some, ◌==◌, if◌then◌else◌}
use mini_sub2api.RequestState.Types.{WireIdDomain}
use mini_sub2api.Carriers.Kinds.{
  CarrierDirection, CarrierUse, CarrierContainer, CarrierShape, CarrierAction, RequestWireMapping,
  RelationshipCarrier,
}

abbrev pub installation_header : String
installation_header = "x-codex-installation-id"

abbrev pub turn_metadata_header : String
turn_metadata_header = "x-codex-turn-metadata"

abbrev pub window_header : String
window_header = "x-codex-window-id"

abbrev pub allow_empty : ℕ
allow_empty = 1

abbrev pub skip_after_header_projection : ℕ
skip_after_header_projection = 2

abbrev pub header_visible : ℕ
header_visible = 4

abbrev pub normal_required : ℕ
normal_required = 8

abbrev pub prewarm_required_string : ℕ
prewarm_required_string = 16

abbrev pub prewarm_required_bool : ℕ
prewarm_required_bool = 32

abbrev pub require_existing_wire : ℕ
require_existing_wire = 64

abbrev pub require_provider_existing_wire : ℕ
require_provider_existing_wire = 128

abbrev pub contextual_wire : ℕ
contextual_wire = 256

pub record CarrierRule : Type 0 where
  pub direction : CarrierDirection
  pub use_case : CarrierUse
  pub container : CarrierContainer
  pub name : String
  pub shape : CarrierShape
  pub domain : Option WireIdDomain
  pub relationship : Option RelationshipCarrier
  pub action : CarrierAction
  pub priority : ℕ
  pub flags : ℕ

-- `self.flags & flag != 0`
abbrev pub has_flag : CarrierRule → ℕ → Bool
has_flag r flag = not (bit_and r.flags flag == 0)

-- `CarrierRule::request_wire_mapping`
unfoldable pub declared_wire_mapping : CarrierRule → RequestWireMapping
declared_wire_mapping r =
    if has_flag r contextual_wire
    then RequestWireMapping.contextual
    else if has_flag r require_provider_existing_wire
    then RequestWireMapping.require_provider_existing
    else if has_flag r require_existing_wire
    then RequestWireMapping.require_existing
    else RequestWireMapping.allocate

abbrev pub rule :
    CarrierDirection
    → CarrierUse
    → CarrierContainer
    → String
    → CarrierShape
    → Option WireIdDomain
    → Option RelationshipCarrier
    → CarrierAction
    → ℕ
    → ℕ
    → CarrierRule
rule direction use_case container name shape domain relationship action priority flags = record {
  direction = direction;
  use_case = use_case;
  container = container;
  name = name;
  shape = shape;
  domain = domain;
  relationship = relationship;
  action = action;
  priority = priority;
  flags = flags;
}

abbrev pub wire :
    CarrierDirection → CarrierContainer → String → CarrierShape → Option WireIdDomain → CarrierRule
wire direction container name shape domain =
    rule direction CarrierUse.wire container name shape domain none CarrierAction.reversible_wire_id
      0 0

abbrev pub wire_reference :
    CarrierContainer → String → CarrierShape → Option WireIdDomain → CarrierRule
wire_reference container name shape domain =
    rule CarrierDirection.request CarrierUse.wire container name shape domain none
      CarrierAction.reversible_wire_id 0 require_existing_wire

abbrev pub wire_provider_reference :
    CarrierContainer → String → CarrierShape → Option WireIdDomain → CarrierRule
wire_provider_reference container name shape domain =
    rule CarrierDirection.request CarrierUse.wire container name shape domain none
      CarrierAction.reversible_wire_id 0 require_provider_existing_wire

abbrev pub wire_contextual :
    CarrierContainer → String → CarrierShape → Option WireIdDomain → CarrierRule
wire_contextual container name shape domain =
    rule CarrierDirection.request CarrierUse.wire container name shape domain none
      CarrierAction.reversible_wire_id 0 contextual_wire

abbrev pub evidence :
    CarrierContainer → String → CarrierShape → RelationshipCarrier → ℕ → ℕ → CarrierRule
evidence container name shape relationship priority flags =
    rule CarrierDirection.request CarrierUse.evidence container name shape none (some relationship)
      CarrierAction.relationship_projection priority flags

abbrev pub projection :
    CarrierContainer → String → CarrierShape → Option RelationshipCarrier → CarrierRule
projection container name shape relationship =
    rule CarrierDirection.request CarrierUse.projection container name shape none relationship
      CarrierAction.relationship_projection 0 0

abbrev pub metadata : String → Option RelationshipCarrier → CarrierAction → ℕ → CarrierRule
metadata name relationship action flags =
    rule CarrierDirection.request CarrierUse.turn_metadata CarrierContainer.turn_metadata name
      CarrierShape.scalar none relationship action 0 flags

abbrev pub header : String → Option WireIdDomain → CarrierAction → CarrierRule
header name domain action =
    rule CarrierDirection.response CarrierUse.header_policy CarrierContainer.header name
      CarrierShape.scalar domain none action 0 0

abbrev pub opaque : CarrierDirection → CarrierContainer → String → CarrierRule
opaque direction container name =
    rule direction CarrierUse.opaque_boundary container name CarrierShape.opaque none none
      CarrierAction.opaque 0 0
