-- ===== src/Response/Delta.antt =====
-- src/core/codex/src/response_delta_ids.rs: the identifiers of a flat delta event.
use mini_sub2api.Base.{
  ℕ, String, Bool, false, not, Option, none, some, List, [], ◌∷◌, ◌++◌, any, length, ◌==◌, str_eq,
  if◌then◌else◌,
}
use mini_sub2api.Base.Json
use mini_sub2api.Base.Json.{Value, Fields, get_field, text_of, as_str, as_object}
use mini_sub2api.RequestState.Types.{WireIdDomain}
use mini_sub2api.RequestState.WireId.{is_valid_wire_id}
use mini_sub2api.Carriers.Kinds.{CarrierDirection, CarrierContainer, CarrierShape}
use mini_sub2api.Carriers.Rule.{CarrierRule}
use mini_sub2api.Carriers.Query.{wire_rules}

pub record DeltaId : Type 0 where
  pub field : String
  pub domain : WireIdDomain
  pub upstream : String

abbrev pub delta_types : List String
delta_types =
    "response.output_text.delta" ∷ "response.refusal.delta" ∷ "response.reasoning_text.delta"
    ∷ "response.reasoning_summary_text.delta" ∷ "response.reasoning.delta" ∷ []

unfoldable pub eligible : Value → Bool
eligible value = elim (text_of (Json.get value "type")) [
  | none ↦ false
  | some kind ↦ any (str_eq kind) delta_types
]

-- The outcome of one rule: refuse the event, skip the rule, or add an identifier.
pub data Finding : Type 0 where
  refuse skip : Finding
  found : DeltaId → Finding

-- The arm for identifier shapes, on the text of the field.
abbrev pub inspect_text : ℕ → CarrierRule → Option String → Finding
inspect_text count rule none = Finding.skip
inspect_text count rule (some raw) =
    if str_eq raw ""
    then Finding.skip
    else if not (is_valid_wire_id raw)
    then Finding.refuse
    else if count == 16
    then Finding.refuse
    else elim rule.domain [
      | none ↦ Finding.refuse
      | some domain ↦ Finding.found (record { field = rule.name; domain = domain; upstream = raw })
    ]

unfoldable pub inspect_rule : ℕ → CarrierRule → Option Value → Finding
inspect_rule count rule none = Finding.skip
inspect_rule count rule (some value) = elim rule.shape [
  | CarrierShape.scalar ↦ inspect_text count rule (as_str value)
  | CarrierShape.typed_item_id ↦ inspect_text count rule (as_str value)
  | CarrierShape.owned_response_id ↦ inspect_text count rule (as_str value)
  | CarrierShape.terminal_response_id ↦ Finding.skip
  | _ ↦ Finding.refuse
]

-- The loop over the rules; `fields` is what has been pushed so far.
unfoldable pub inspect_rules : Fields → List DeltaId → List CarrierRule → Option (List DeltaId)
unfolding inspect_rule
inspect_rules object fields [] = some fields
inspect_rules object fields (rule ∷ rules) =
    elim (inspect_rule (length fields) rule (get_field rule.name object)) [
      | Finding.refuse ↦ none
      | Finding.skip ↦ inspect_rules object fields rules
      | Finding.found id ↦ inspect_rules object (fields ++ id ∷ []) rules
    ]

unfoldable pub inspect : Value → Option (List DeltaId)
unfolding inspect_rules eligible
inspect value = if not (eligible value) then none else elim (as_object value) [
  | none ↦ none
  | some object ↦
      inspect_rules object [] (wire_rules CarrierDirection.response CarrierContainer.top_level)
]
