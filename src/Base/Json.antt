-- ===== src/Base/Json.antt =====
-- JSON values as `serde_json` holds them: objects keep the order of their fields, and a number is
-- its text (features `preserve_order` and `arbitrary_precision`).
use Prim.Native.String.{String}
use mathlib.Core.Bool.{Bool}
use mathlib.Core.Option.{Option, none, some}
use mathlib.Core.List.{List, [], ◌∷◌}
use mathlib.Core.Path.{◌≡◌, refl}
use native.Mathlib.Omega.{arith}
use text.Mathlib.Text.{◌==◌ as str_eq}
use text.Mathlib.TextEquality.{eq_iff}
use mini_sub2api.Base.Tests.{if◌then◌else◌}

mutual
  pub data Value : Type 0 where
    null : Value
    boolean : Bool → Value
    number : String → Value
    string : String → Value
    array : Items → Value
    object : Fields → Value

  pub data Items : Type 0 where
    nil : Items
    cons : Value → Items → Items

  pub data Fields : Type 0 where
    end : Fields
    field : String → Value → Fields → Fields

-- `Map::get`
unfoldable pub get_field : String → Fields → Option Value
get_field k end = none
get_field k (field j v fs) = if str_eq j k then some v else get_field k fs

-- `Map::insert`: a key that is there keeps its place, a new key goes to the end.
unfoldable pub insert_field : String → Value → Fields → Fields
insert_field k v end = field k v end
insert_field k v (field j w fs) =
    if str_eq j k then field j v fs else field j w (insert_field k v fs)

-- `Value::get` with a text
abbrev pub get : Value → String → Option Value
get (object fs) k = get_field k fs
get _ k = none

abbrev pub as_str : Value → Option String
as_str (string s) = some s
as_str _ = none

abbrev pub as_object : Value → Option Fields
as_object (object fs) = some fs
as_object _ = none

-- `.and_then(Value::as_str)`
abbrev pub text_of : Option Value → Option String
text_of none = none
text_of (some v) = as_str v

-- `value[key] = v`: `none` is the panic on a value that is neither an object nor null.
unfoldable pub set_index : Value → String → Value → Option Value
set_index (object fs) k v = some (object (insert_field k v fs))
set_index null k v = some (object (field k v end))
set_index _ k v = none

pub get_field-insert_field :
    (k j : String) (v : Value) (fs : Fields)
    → get_field j (insert_field k v fs) ≡ (if str_eq k j then some v else get_field j fs)
unfolding get_field insert_field
get_field-insert_field k j v end = refl
get_field-insert_field k j v (field i w fs) =
    ground (arith, eq_iff k j, eq_iff i k, eq_iff i j, get_field-insert_field k j v fs)

-- The elements of an array, and the array of a list.
unfoldable pub elements : Items → List Value
elements nil = []
elements (cons v vs) = v ∷ elements vs

unfoldable pub items_of : List Value → Items
items_of [] = nil
items_of (v ∷ vs) = cons v (items_of vs)

pub elements-items_of : (vs : List Value) → elements (items_of vs) ≡ vs
unfolding elements items_of
elements-items_of [] = refl
elements-items_of (v ∷ vs) = rw (elements-items_of vs)

-- `Value::as_array`
unfoldable pub as_array : Value → Option (List Value)
as_array (array vs) = some (elements vs)
as_array _ = none

-- `value[key]`, which is null where there is no such field.
abbrev pub or_null : Option Value → Value
or_null none = null
or_null (some v) = v

abbrev pub index : Value → String → Value
index v k = or_null (get v k)
