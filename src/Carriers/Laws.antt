-- ===== src/Carriers/Laws.antt =====
-- What the carrier tables guarantee to the code that walks them.
use mini_sub2api.Base.{
  ℕ, zero, suc, ◌+◌, ◌≡◌, refl, ◌∙◌, ◌≢◌, ◌⊎◌, inl, inr, String, Bool, true, false, ◌&&◌, Option,
  none, some, List, [], ◌∷◌, find, all, get_elem?, All, All-mono, All-of_all, find-All, find-congr,
  find-In, In, not, arith, Option-cases, Bool-cases, ◌==◌, if◌then◌else◌, eq_ignore_ascii_case,
  eq_ignore_ascii_case-congr,
}
use mini_sub2api.RequestState.Types.{WireIdDomain}
use mini_sub2api.Carriers.Kinds.{
  CarrierDirection, CarrierContainer, CarrierShape, CarrierAction, RequestWireMapping,
  RelationshipCarrier,
}
use mini_sub2api.Carriers.Rule.{CarrierRule, declared_wire_mapping}
use mini_sub2api.Carriers.Query.{
  wire_rules, contextual_mapping, request_wire_mapping, evidence_rules, header_rules,
  response_header_action, tables,
}

-- The mapping that the request translator acts on is never `Contextual`, whatever the rule and the
-- type of the item, and it is the mapping that the flags of the rule declare unless they declare
-- `Contextual`.
pub request_wire_mapping_resolved :
    (rule : CarrierRule) (item_type : Option String)
    → (request_wire_mapping rule item_type ≢ RequestWireMapping.contextual)
      × ((declared_wire_mapping rule ≡ RequestWireMapping.contextual)
          ⊎ (request_wire_mapping rule item_type ≡ declared_wire_mapping rule))
unfolding request_wire_mapping contextual_mapping
request_wire_mapping_resolved rule item_type =
    elim (declared_wire_mapping rule)
      as (λ m.
        (elim m as (λ _. RequestWireMapping) [
          | RequestWireMapping.contextual ↦ contextual_mapping rule.name item_type
          | mapping ↦ mapping
        ]
          ≢ RequestWireMapping.contextual)
        × ((m ≡ RequestWireMapping.contextual)
            ⊎ (elim m as (λ _. RequestWireMapping) [
              | RequestWireMapping.contextual ↦ contextual_mapping rule.name item_type
              | mapping ↦ mapping
            ]
                ≡ m))) [
                  | RequestWireMapping.contextual ↦ (ground arith, inl refl)
                  | RequestWireMapping.allocate ↦ (ground arith, inr refl)
                  | RequestWireMapping.require_existing ↦ (ground arith, inr refl)
                  | RequestWireMapping.require_provider_existing ↦ (ground arith, inr refl)
                ]

-- A header rule that does not strip carries no identity domain.
abbrev carries_no_identity : CarrierRule → Bool
carries_no_identity rule = elim rule.action [
  | CarrierAction.public_strip ↦ true
  | _ ↦ elim rule.domain [ none ↦ true | some _ ↦ false ]
]

no_identity_cases :
    (rule : CarrierRule)
    → carries_no_identity rule ≡ true
    → (rule.action ≡ CarrierAction.public_strip) ⊎ (rule.domain ≡ none)
no_identity_cases rule h = ground arith

header_rules_checked : all carries_no_identity header_rules ≡ true
unfolding tables
header_rules_checked = refl

-- Every header name is either stripped, or there is a rule in the table of header rules that
-- matches it up to the case of ASCII letters, whose action is the one taken and which has no
-- identity domain.
pub response_header_action_safe :
    (name : String)
    → (response_header_action name ≡ CarrierAction.public_strip)
      ⊎ ((rule : CarrierRule) × In rule header_rules
          × (response_header_action name ≡ rule.action)
          × (rule.domain ≡ none)
          × (eq_ignore_ascii_case rule.name name ≡ true))
unfolding response_header_action
response_header_action_safe name =
    elim (Option-cases (find (λ r. eq_ignore_ascii_case r.name name) header_rules)) [
      | inl e ↦ inl (rw (e, response_header_action))
      | inr (rule, e) ↦
          let f =
            find-All _ _ header_rules rule
              (All-of_all carries_no_identity header_rules header_rules_checked) e in
          let g : response_header_action name ≡ rule.action = rw (e, response_header_action) in
          elim (no_identity_cases rule f.0) [
            | inl strip ↦ inl (g ∙ strip)
            | inr free ↦ inr (rule, find-In _ header_rules rule e, g, free, f.1)
          ]
    ]

-- Header names that differ only in the case of ASCII letters get the same action.
pub response_header_action_case :
    (a b : String)
    → eq_ignore_ascii_case a b ≡ true
    → response_header_action a ≡ response_header_action b
unfolding response_header_action
response_header_action_case a b h = rw (
  find-congr (λ r. eq_ignore_ascii_case r.name a) (λ r. eq_ignore_ascii_case r.name b)
      (λ r. eq_ignore_ascii_case-congr r.name a b h) header_rules,
  response_header_action,
)

-- Whether a carrier of the shape owns an identifier, and is no object or list that is walked.
abbrev pub is_identifier : CarrierShape → Bool
is_identifier CarrierShape.scalar = true
is_identifier CarrierShape.conversation = true
is_identifier CarrierShape.typed_item_id = true
is_identifier CarrierShape.owned_response_id = true
is_identifier CarrierShape.terminal_response_id = true
is_identifier CarrierShape.window = true
is_identifier _ = false

abbrev has_domain : Option WireIdDomain → Bool
has_domain none = false
has_domain (some _) = true

abbrev is_reversible : CarrierAction → Bool
is_reversible CarrierAction.reversible_wire_id = true
is_reversible _ = false

abbrev is_coherent_wire_rule : CarrierRule → Bool
is_coherent_wire_rule rule =
    is_reversible rule.action
    && (if is_identifier rule.shape then has_domain rule.domain else not (has_domain rule.domain))

wire_rules_checked :
    (direction : CarrierDirection) (container : CarrierContainer)
    → all is_coherent_wire_rule (wire_rules direction container) ≡ true
unfolding tables
wire_rules_checked CarrierDirection.request CarrierContainer.top_level = refl
wire_rules_checked CarrierDirection.request _ = refl
wire_rules_checked CarrierDirection.response CarrierContainer.top_level = refl
wire_rules_checked CarrierDirection.response _ = refl

-- A wire rule is reversible, and owns an identifier and names its domain, or owns none and names
-- none.
abbrev pub IsCoherent : CarrierRule → Type 0
IsCoherent rule =
    (rule.action ≡ CarrierAction.reversible_wire_id)
    × (((is_identifier rule.shape ≡ true) × ((domain : WireIdDomain) × (rule.domain ≡ some domain)))
        ⊎ ((is_identifier rule.shape ≡ false) × (rule.domain ≡ none)))

domain_cases :
    (o : Option WireIdDomain)
    → ((domain : WireIdDomain) × (has_domain o ≡ true) × (o ≡ some domain))
      ⊎ ((has_domain o ≡ false) × (o ≡ none))
domain_cases none = inr (refl, refl)
domain_cases (some domain) = inl (domain, refl, refl)

reversible :
    (action : CarrierAction)
    → is_reversible action ≡ true
    → action ≡ CarrierAction.reversible_wire_id
reversible action h = ground arith

coherent : (rule : CarrierRule) → is_coherent_wire_rule rule ≡ true → IsCoherent rule
coherent rule h = elim (Bool-cases (is_identifier rule.shape)) [
  | inr other ↦ elim (domain_cases rule.domain) [
    | inl (domain, y, e) ↦ absurd (ground arith)
    | inr (n, e) ↦ (reversible rule.action (ground arith), inr (other, e))
  ]
  | inl identifier ↦ elim (domain_cases rule.domain) [
    | inl (domain, y, e) ↦ (reversible rule.action (ground arith), inl (identifier, (domain, e)))
    | inr (n, e) ↦ absurd (ground arith)
  ]
]

-- Every rule that the wire translators walk, in either direction and in every container, is
-- reversible, and names an identifier domain exactly if its shape owns an identifier: a scalar, a
-- conversation, an item's or a response's own id, a terminal response id or a window.
pub wire_rules-All :
    (direction : CarrierDirection) (container : CarrierContainer)
    → All IsCoherent (wire_rules direction container)
wire_rules-All direction container = All-mono _ _ coherent (wire_rules direction container) (
    All-of_all is_coherent_wire_rule (wire_rules direction container)
      (wire_rules_checked direction container))

-- Whether the priorities are `n, n + 1, …` in order.
abbrev counts_from : ℕ → List CarrierRule → Bool
counts_from n [] = true
counts_from n (rule ∷ rules) = (rule.priority == n) && counts_from (n + 1) rules

evidence_rules_checked :
    (relationship : RelationshipCarrier) → counts_from 0 (evidence_rules relationship) ≡ true
unfolding tables
evidence_rules_checked RelationshipCarrier.installation = refl
evidence_rules_checked _ = refl

counts_from-get_elem? :
    (n : ℕ) (rules : List CarrierRule) (i : ℕ) (rule : CarrierRule)
    → counts_from n rules ≡ true
    → get_elem? rules i ≡ some rule
    → rule.priority ≡ n + i
counts_from-get_elem? n [] i rule h e = cc
counts_from-get_elem? n (r ∷ rules) zero rule h e = ground arith
counts_from-get_elem? n (r ∷ rules) (suc i) rule h e =
    let rest : counts_from (n + 1) rules ≡ true = ground arith in
    omega (arith, counts_from-get_elem? (n + 1) rules i rule rest e)

-- For each relationship the evidence rules come in the order of their priorities, which are
-- 0, 1, 2, … with no gap and no tie: the rule at position i has priority i.
pub evidence_rules_priority :
    (relationship : RelationshipCarrier) (i : ℕ) (rule : CarrierRule)
    → get_elem? (evidence_rules relationship) i ≡ some rule
    → rule.priority ≡ i
evidence_rules_priority relationship i rule e = omega (
  arith,
  counts_from-get_elem? 0 (evidence_rules relationship) i rule (evidence_rules_checked relationship)
      e,
)
