-- ===== src/Response/Found.antt =====
-- What `DeltaIds::inspect` finds in an event.
use mathlib.Core.Option.{some-injective, none-ne-some}
use mini_sub2api.Base.{
  ℕ, ◌≤◌, ◌≡◌, refl, sym, ap, ◌∙◌, String, true, false, not, Option, none, some, List, [], ◌∷◌,
  ◌++◌, length, length-append, ◌==◌, str_eq, arith, Bool-cases, Option-cases, inl, inr, All,
  All-append, subst,
}
use mini_sub2api.Base.Json.{Value, Fields, get_field, as_str}
use mini_sub2api.RequestState.WireId.{is_valid_wire_id}
use mini_sub2api.Carriers.Kinds.{CarrierShape, CarrierDirection, CarrierContainer}
use mini_sub2api.Carriers.Rule.{CarrierRule}
use mini_sub2api.Carriers.Query.{wire_rules}
use mini_sub2api.Response.Delta.{
  DeltaId, Finding, inspect_text, inspect_rule, inspect_rules, inspect, eligible,
}

-- A finding of a rule on the text of its field.
abbrev FromText : ℕ → CarrierRule → Option String → Finding → Type 0
FromText count rule text Finding.refuse = Unit
FromText count rule text Finding.skip = Unit
FromText count rule text (Finding.found id) =
    (text ≡ some id.upstream)
    × (id.field ≡ rule.name)
    × (is_valid_wire_id id.upstream ≡ true)
    × ((count == 16) ≡ false)

inspect_text-FromText :
    (count : ℕ) (rule : CarrierRule) (text : Option String)
    → FromText count rule text (inspect_text count rule text)
inspect_text-FromText count rule none = tt
inspect_text-FromText count rule (some raw) = elim (Bool-cases (str_eq raw "")) [
  | inl blank ↦ rw blank tt
  | inr present ↦ elim (Bool-cases (is_valid_wire_id raw)) [
    | inr invalid ↦ rw (present, invalid) tt
    | inl valid ↦ elim (Bool-cases (count == 16)) [
      | inl full ↦ rw (present, valid, full) tt
      | inr room ↦ elim (Option-cases rule.domain) [
        | inl free ↦ rw (present, valid, room, free) tt
        | inr (domain, owned) ↦ rw (present, valid, room, owned) (refl, refl, valid, room)
      ]
    ]
  ]
]

-- An identifier of the event: its field holds it, and it is valid.
abbrev pub IsIn : Fields → DeltaId → Type 0
IsIn object id =
    (get_field id.field object ≡ some (Value.string id.upstream))
    × (is_valid_wire_id id.upstream ≡ true)

abbrev FromRule : ℕ → Fields → CarrierRule → Finding → Type 0
FromRule count object rule Finding.refuse = Unit
FromRule count object rule Finding.skip = Unit
FromRule count object rule (Finding.found id) = IsIn object id × ((count == 16) ≡ false)

text_field : (v : Value) (t : String) → as_str v ≡ some t → v ≡ Value.string t
text_field Value.null t h = absurd (none-ne-some t h)
text_field (Value.boolean b) t h = absurd (none-ne-some t h)
text_field (Value.number n) t h = absurd (none-ne-some t h)
text_field (Value.string s) t h = ap Value.string (some-injective s t h)
text_field (Value.array vs) t h = absurd (none-ne-some t h)
text_field (Value.object fs) t h = absurd (none-ne-some t h)

from_text :
    (count : ℕ) (object : Fields) (rule : CarrierRule) (value : Value) (f : Finding)
    → get_field rule.name object ≡ some value
    → FromText count rule (as_str value) f
    → FromRule count object rule f
from_text count object rule value Finding.refuse h k = tt
from_text count object rule value Finding.skip h k = tt
from_text count object rule value (Finding.found id) h (text, name, valid, room) = (
  (ap (λ n. get_field n object) name ∙ h ∙ ap some (text_field value id.upstream text), valid),
  room,
)

by_text :
    (count : ℕ) (object : Fields) (rule : CarrierRule) (value : Value)
    → get_field rule.name object ≡ some value
    → FromRule count object rule (inspect_text count rule (as_str value))
by_text count object rule value h =
    from_text count object rule value (inspect_text count rule (as_str value)) h
      (inspect_text-FromText count rule (as_str value))

shape_finding :
    (count : ℕ) (object : Fields) (rule : CarrierRule) (value : Value) (shape : CarrierShape)
    → rule.shape ≡ shape
    → get_field rule.name object ≡ some value
    → FromRule count object rule (inspect_rule count rule (some value))
unfolding inspect_rule
shape_finding count object rule value CarrierShape.scalar e h =
    rw (e, inspect_rule) (by_text count object rule value h)
shape_finding count object rule value CarrierShape.typed_item_id e h =
    rw (e, inspect_rule) (by_text count object rule value h)
shape_finding count object rule value CarrierShape.owned_response_id e h =
    rw (e, inspect_rule) (by_text count object rule value h)
shape_finding count object rule value _ e h = rw (e, inspect_rule) tt

rule_finding :
    (count : ℕ) (object : Fields) (rule : CarrierRule)
    → FromRule count object rule (inspect_rule count rule (get_field rule.name object))
unfolding inspect_rule
rule_finding count object rule = elim (Option-cases (get_field rule.name object)) [
  | inl absent ↦ subst (λ o. FromRule count object rule (inspect_rule count rule o)) (sym absent) tt
  | inr (value, there) ↦
      subst (λ o. FromRule count object rule (inspect_rule count rule o)) (sym there)
        (shape_finding count object rule value rule.shape refl there)
]

-- The identifiers of an event: at most 16, each in its field and valid.
abbrev pub AreIn : Fields → List DeltaId → Type 0
AreIn object ids = (length ids ≤ 16) × All (IsIn object) ids

push-AreIn :
    (object : Fields) (ids : List DeltaId) (id : DeltaId)
    → AreIn object ids
    → IsIn object id
    → (length ids == 16) ≡ false
    → AreIn object (ids ++ id ∷ [])
push-AreIn object ids id (few, each) h room = (
  ground (arith, length-append {0} ids (id ∷ [])),
  All-append (IsIn object) ids (id ∷ []) each (h, tt),
)

after_finding :
    (object : Fields) (ids : List DeltaId) (rule : CarrierRule) (rules : List CarrierRule)
    (found : List DeltaId) (f : Finding)
    → AreIn object ids
    → FromRule (length ids) object rule f
    → elim f [
      | Finding.refuse ↦ none
      | Finding.skip ↦ inspect_rules object ids rules
      | Finding.found id ↦ inspect_rules object (ids ++ id ∷ []) rules
    ]
      ≡ some found
    → ((ids' : List DeltaId)
        → AreIn object ids'
        → inspect_rules object ids' rules ≡ some found
        → AreIn object found)
    → AreIn object found
after_finding object ids rule rules found Finding.refuse h k e rec = absurd (none-ne-some found e)
after_finding object ids rule rules found Finding.skip h k e rec = rec ids h e
after_finding object ids rule rules found (Finding.found id) h (is, room) e rec =
    rec (ids ++ id ∷ []) (push-AreIn object ids id h is room) e

inspect_rules-AreIn :
    (object : Fields) (ids : List DeltaId) (rules : List CarrierRule) (found : List DeltaId)
    → AreIn object ids
    → inspect_rules object ids rules ≡ some found
    → AreIn object found
unfolding inspect_rules
inspect_rules-AreIn object ids [] found h e = subst (AreIn object) (some-injective ids found e) h
inspect_rules-AreIn object ids (rule ∷ rules) found h e =
    after_finding object ids rule rules found
      (inspect_rule (length ids) rule (get_field rule.name object)) h
      (rule_finding (length ids) object rule) e
      (λ ids' h' e'. inspect_rules-AreIn object ids' rules found h' e')

-- Whatever `inspect` finds in an event, the event is an object, there are at most 16 identifiers,
-- and each is valid and the text of its field.
pub inspect-AreIn :
    (value : Value) (ids : List DeltaId)
    → inspect value ≡ some ids
    → (object : Fields) × (value ≡ Value.object object) × AreIn object ids
unfolding inspect eligible
inspect-AreIn (Value.object fs) ids e = elim (Bool-cases (not (eligible (Value.object fs)))) [
  | inl other ↦
      let refused : inspect (Value.object fs) ≡ none = rw (other, inspect) in
      absurd (none-ne-some ids (sym refused ∙ e))
  | inr delta ↦
      let loop : inspect (Value.object fs)
          ≡ inspect_rules fs [] (wire_rules CarrierDirection.response CarrierContainer.top_level) =
        rw (delta, inspect) in
      (fs, refl, inspect_rules-AreIn fs [] _ ids (ground arith, tt) (sym loop ∙ e))
]
inspect-AreIn value ids e = absurd (none-ne-some ids e)
