-- ===== src/Sse/Classes.antt =====
-- The classifier looks at nothing but the fields that it knows, and sees output only in data.
use mini_sub2api.Base.{
  String, Bool, true, not, ◌≡◌, refl, sym, ◌∙◌, ◌⊎◌, inl, inr, ap, some, List, [], ◌∷◌, any,
  lowercase, arith,
}
use mini_sub2api.Base.Json.{Value, Fields}
use mini_sub2api.Sse.Progress.{
  EventFields, EventItem, Part, no_item, no_part, is_key, short_text, text_presence, visit_item,
  visit_part, item_of, part_of, visit_field, visit_map, no_fields, classify, classify_fields,
}

abbrev pub append_fields : Fields → Fields → Fields
append_fields Fields.end gs = gs
append_fields (Fields.field k v fs) gs = Fields.field k v (append_fields fs gs)

abbrev observed : List String
observed =
    "type" ∷ "delta" ∷ "text" ∷ "refusal" ∷ "arguments" ∷ "input" ∷ "code" ∷ "partial_image_b64"
    ∷ "item" ∷ "part" ∷ []

-- A key that in small letters is none of the names that the visitor knows.
abbrev pub is_foreign : String → Bool
is_foreign key = not (any (λ name. is_key name key) observed)

visit_field-foreign :
    (out : EventFields) (key : String) (v : Value)
    → is_foreign key ≡ true
    → visit_field out key v ≡ out
unfolding visit_field
visit_field-foreign out key v h = ground arith

visit_map-foreign :
    (out : EventFields) (key : String) (v : Value) (fs gs : Fields)
    → is_foreign key ≡ true
    → visit_map out (append_fields fs (Fields.field key v gs)) ≡ visit_map out (append_fields fs gs)
unfolding visit_map
visit_map-foreign out key v Fields.end gs h =
    ap (λ z. visit_map z gs) (visit_field-foreign out key v h)
visit_map-foreign out key v (Fields.field k w fs) gs h =
    visit_map-foreign (visit_field out k w) key v fs gs h

-- A field whose key, in small letters, is none of the ten names does not change the class of an
-- event, wherever it stands and whatever its value is.
pub classify-foreign :
    (key : String) (v : Value) (fs gs : Fields)
    → is_foreign key ≡ true
    → classify (some (Value.object (append_fields fs (Fields.field key v gs))))
      ≡ classify (some (Value.object (append_fields fs gs)))
unfolding classify
classify-foreign key v fs gs h = ap classify_fields (visit_map-foreign no_fields key v fs gs h)

-- Two lists of fields with the same values whose keys differ only in the case of letters.
abbrev pub SameInner : Fields → Fields → Type 0
SameInner Fields.end Fields.end = Unit
SameInner (Fields.field j v fs) (Fields.field k w gs) =
    (lowercase j ≡ lowercase k) × (v ≡ w) × SameInner fs gs
SameInner _ _ = ⊥

-- The same value, or two objects whose keys differ only in the case of letters.
abbrev pub SameValue : Value → Value → Type 0
SameValue v w =
    (v ≡ w)
    ⊎ ((fs : Fields) × (gs : Fields) × (v ≡ Value.object fs)
        × (w ≡ Value.object gs)
        × SameInner fs gs)

-- The fields of two events whose keys, and whose keys in the objects that are values, differ only
-- in the case of letters.
abbrev pub SameEvent : Fields → Fields → Type 0
SameEvent Fields.end Fields.end = Unit
SameEvent (Fields.field j v fs) (Fields.field k w gs) =
    (lowercase j ≡ lowercase k) × SameValue v w × SameEvent fs gs
SameEvent _ _ = ⊥

visit_item-case :
    (fs gs : Fields) (out : EventItem) → SameInner fs gs → visit_item out fs ≡ visit_item out gs
visit_item-case Fields.end Fields.end out h = refl
visit_item-case Fields.end (Fields.field k w gs) out h = elim h [ ]
visit_item-case (Fields.field j v fs) Fields.end out h = elim h [ ]
visit_item-case (Fields.field j v fs) (Fields.field k w gs) out (same, e, rest) =
    rw same (rw e (visit_item-case fs gs _ rest))

visit_part-case :
    (fs gs : Fields) (out : Part) → SameInner fs gs → visit_part out fs ≡ visit_part out gs
visit_part-case Fields.end Fields.end out h = refl
visit_part-case Fields.end (Fields.field k w gs) out h = elim h [ ]
visit_part-case (Fields.field j v fs) Fields.end out h = elim h [ ]
visit_part-case (Fields.field j v fs) (Fields.field k w gs) out (same, e, rest) =
    rw same (rw e (visit_part-case fs gs _ rest))

-- The field of an object with another spelling of its keys.
visit_field-inner :
    (out : EventFields) (k : String) (fs gs : Fields)
    → SameInner fs gs
    → visit_field out k (Value.object fs) ≡ visit_field out k (Value.object gs)
unfolding visit_field item_of part_of short_text text_presence
visit_field-inner out k fs gs h =
    rw (visit_item-case fs gs no_item h) (rw (visit_part-case fs gs no_part h) refl)

visit_field-case :
    (out : EventFields) (j k : String) (v w : Value)
    → lowercase j ≡ lowercase k
    → SameValue v w
    → visit_field out j v ≡ visit_field out k w
unfolding visit_field
visit_field-case out j k v w h (inl e) = rw h (rw e refl)
visit_field-case out j k v w h (inr (fs, gs, ev, ew, same)) =
    let spelled : visit_field out j v ≡ visit_field out k v = rw h refl in
    spelled
    ∙ ap (visit_field out k) ev
    ∙ visit_field-inner out k fs gs same
    ∙ ap (visit_field out k) (sym ew)

visit_map-case :
    (out : EventFields) (fs gs : Fields) → SameEvent fs gs → visit_map out fs ≡ visit_map out gs
unfolding visit_map
visit_map-case out Fields.end Fields.end h = refl
visit_map-case out Fields.end (Fields.field k w gs) h = elim h [ ]
visit_map-case out (Fields.field j v fs) Fields.end h = elim h [ ]
visit_map-case out (Fields.field j v fs) (Fields.field k w gs) (same, e, rest) =
    ap (λ o. visit_map o fs) (visit_field-case out j k v w same e)
    ∙ visit_map-case (visit_field out k w) fs gs rest

-- The class of an event does not depend on the case of the letters of its keys, nor of the keys of
-- the objects that are its values.
pub classify-case :
    (fs gs : Fields)
    → SameEvent fs gs
    → classify (some (Value.object fs)) ≡ classify (some (Value.object gs))
unfolding classify
classify-case fs gs h = ap classify_fields (visit_map-case no_fields fs gs h)
