-- ===== src/WebSocket/Routing.antt =====
-- src/core/codex/src/subscription_routing.rs: the routing token in an event, and its validation.
use Prim.Native.String.{len}
use mini_sub2api.Base.{
  ℕ, String, Bool, false, ◌&&◌, Option, none, some, leb, str_eq, eq_ignore_ascii_case,
  if◌then◌else◌,
}
use mini_sub2api.Base.Json.{Value, Items, Fields, get, text_of, as_object}
use mini_sub2api.WebSocket.Parts.{Parts}

abbrev pub max_routing_token_bytes : ℕ
max_routing_token_bytes = 65536

-- `iter().find(|(name, _)| name.eq_ignore_ascii_case(…))`
unfoldable pub find_header : String → Fields → Option Value
find_header name Fields.end = none
find_header name (Fields.field k v fs) =
    let rest = find_header name fs in if eq_ignore_ascii_case k name then some v else rest

-- The `loop`: a text, or that of the first value of an array.
unfoldable pub first_text : Value → Option String
first_text (Value.string token) = some token
first_text (Value.array (Items.cons v vs)) = first_text v
first_text (Value.array Items.nil) = none
first_text _ = none

abbrev pub text_in : Option Value → Option String
text_in none = none
text_in (some v) = first_text v

abbrev pub fields_of : Option Value → Option Fields
fields_of none = none
fields_of (some v) = as_object v

abbrev pub is_metadata : Option String → Bool
is_metadata none = false
is_metadata (some kind) = str_eq kind "response.metadata"

unfoldable pub metadata_token : Value → Option String
unfolding first_text find_header
metadata_token event =
    if is_metadata (text_of (get event "type"))
    then (elim (fields_of (get event "headers")) [
      | none ↦ none
      | some headers ↦ text_in (find_header "x-codex-turn-state" headers)
    ])
    else none

-- `validate_token(token).is_ok()`; `len` counts bytes.
unfoldable pub is_valid_token : Parts → String → Bool
is_valid_token parts token = leb (len token) max_routing_token_bytes && parts.is_header_text token
