-- ===== src/WebSocket/Interrupt.antt =====
-- src/core/codex/src/response_interrupt.rs: the interruption of the active response.
use mini_sub2api.Base.{
  String, Bool, true, false, not, ◌&&◌, ◌||◌, Option, none, some, List, [], ◌∷◌, str_eq,
  if◌then◌else◌,
}
use mini_sub2api.Base.Json.{Value, get, as_str, text_of}
use mini_sub2api.RequestState.WireId.{is_valid_wire_id}

-- `pointer("/response/id")` and the other pointers, field by field.
unfoldable pub pointer : List String → Value → Option Value
pointer [] v = some v
pointer (k ∷ ks) v = elim (get v k) [ none ↦ none | some w ↦ pointer ks w ]

-- `value == Some(text)`, and `value["key"] == "text"`.
abbrev pub is_text : Option String → String → Bool
is_text none t = false
is_text (some s) t = str_eq s t

abbrev pub has_type : Value → String → Bool
has_type event t = is_text (text_of (get event "type")) t

abbrev pub response_id_of : Value → Option String
response_id_of event = text_of (pointer ("response" ∷ "id" ∷ []) event)

unfoldable pub interrupted : Value → Bool
unfolding pointer
interrupted event =
    has_type event "response.incomplete"
    && (is_text (text_of (pointer ("response" ∷ "incomplete_details" ∷ "reason" ∷ []) event))
          "interrupted"
        && elim (pointer ("response" ∷ "status" ∷ []) event) [
          | none ↦ true
          | some status ↦ is_text (as_str status) "incomplete"
        ])

pub record InterruptState : Type 0 where
  pub response_id : Option String
  pub requested : Bool

abbrev pub no_interruption : InterruptState
no_interruption = record { response_id = none; requested = false }

-- `Err` is `none`. `InterruptState::request`
unfoldable pub request : String → InterruptState → Option InterruptState
request id i =
    if not i.requested && is_text i.response_id id
    then some (record i { requested = true })
    else none

-- `is_none_or(|known| known == id)`
abbrev none_or_text : Option String → String → Bool
none_or_text none t = true
none_or_text (some s) t = str_eq s t

-- `is_some_and(|id| event_id == Some(id))`
abbrev both_text : Option String → Option String → Bool
both_text none o = false
both_text (some id) o = is_text o id

unfoldable pub observe_created : Option String → InterruptState → Option InterruptState
observe_created none i = some i
observe_created (some id) i =
    if is_valid_wire_id id && none_or_text i.response_id id
    then some (record i { response_id = some id })
    else none

unfoldable pub observe : Value → InterruptState → Option InterruptState
unfolding observe_created pointer
observe event i =
    if has_type event "response.created"
    then observe_created (response_id_of event) i
    else if has_type event "response.interrupt.accepted"
        || has_type event "response.output_item.interrupted"
    then (if i.requested && both_text i.response_id (text_of (get event "response_id"))
        then some i
        else none)
    else some i

unfoldable pub completes : InterruptState → Value → Bool
unfolding interrupted
completes i event =
    i.requested && (interrupted event && both_text i.response_id (response_id_of event))
