-- ===== src/Sse/Progress.antt =====
-- src/protocol/v1/rust/src/sse_progress.rs: the class of an event. The text of the event has been
-- parsed into a tree, which keeps the order of the keys and repeated keys.
use Prim.Native.String.{len}
use mini_sub2api.Base.{
  String, Bool, true, false, not, ◌||◌, Option, some, List, [], ◌∷◌, any, leb, codes, lowercase,
  same_codes, str_eq, if◌then◌else◌,
}
use mini_sub2api.Base.Json.{Value, Fields}

pub data Class : Type 0 where
  status text reasoning tool media item terminal empty other invalid : Class

unfoldable pub is_output : Class → Bool
is_output Class.text = true
is_output Class.reasoning = true
is_output Class.tool = true
is_output Class.media = true
is_output Class.item = true
is_output _ = false

-- `Item`: its two texts.
pub record EventItem : Type 0 where
  pub kind : String
  pub status : String

pub record Part : Type 0 where
  pub text : Bool
  pub refusal : Bool

-- `Fields`
pub record EventFields : Type 0 where
  pub kind : String
  pub delta : Bool
  pub text : Bool
  pub refusal : Bool
  pub arguments : Bool
  pub input : Bool
  pub code : Bool
  pub image : Bool
  pub item : EventItem
  pub part : Part

abbrev pub no_item : EventItem
no_item = record { kind = ""; status = "" }

abbrev pub no_part : Part
no_part = record { text = false; refusal = false }

abbrev pub no_fields : EventFields
no_fields = record {
  kind = "";
  delta = false;
  text = false;
  refusal = false;
  arguments = false;
  input = false;
  code = false;
  image = false;
  item = no_item;
  part = no_part;
}

-- `ShortText`: a text of at most 128 bytes; everything else is the empty text.
unfoldable pub short_text : Value → String
short_text (Value.string s) = if leb (len s) 128 then s else ""
short_text _ = ""

-- `TextPresence`: whether there is a text that is not empty.
unfoldable pub text_presence : Value → Bool
text_presence (Value.string s) = not (str_eq s "")
text_presence _ = false

-- `key.to_ascii_lowercase()` against a name in small letters.
abbrev pub is_key : String → String → Bool
is_key name key = same_codes (lowercase key) (codes name)

abbrev pub visit_item : EventItem → Fields → EventItem
visit_item out Fields.end = out
visit_item out (Fields.field key v fs) =
    visit_item
      (if is_key "type" key
        then record out { kind = short_text v }
        else if is_key "status" key
        then record out { status = short_text v }
        else out)
      fs

-- `Item::object`; a value that is no object is the default.
unfoldable pub item_of : Value → EventItem
item_of (Value.object fs) = visit_item no_item fs
item_of _ = no_item

abbrev pub visit_part : Part → Fields → Part
visit_part out Fields.end = out
visit_part out (Fields.field key v fs) =
    visit_part
      (if is_key "text" key
        then record out { text = text_presence v }
        else if is_key "refusal" key
        then record out { refusal = text_presence v }
        else out)
      fs

-- `Part::object`
unfoldable pub part_of : Value → Part
part_of (Value.object fs) = visit_part no_part fs
part_of _ = no_part

-- The body of the loop of `visit_map`.
unfoldable pub visit_field : EventFields → String → Value → EventFields
visit_field out key v =
    if is_key "type" key
    then record out { kind = short_text v }
    else if is_key "delta" key
    then record out { delta = text_presence v }
    else if is_key "text" key
    then record out { text = text_presence v }
    else if is_key "refusal" key
    then record out { refusal = text_presence v }
    else if is_key "arguments" key
    then record out { arguments = text_presence v }
    else if is_key "input" key
    then record out { input = text_presence v }
    else if is_key "code" key
    then record out { code = text_presence v }
    else if is_key "partial_image_b64" key
    then record out { image = text_presence v }
    else if is_key "item" key
    then record out { item = item_of v }
    else if is_key "part" key
    then record out { part = part_of v }
    else out

unfoldable pub visit_map : EventFields → Fields → EventFields
visit_map out Fields.end = out
visit_map out (Fields.field key v fs) = visit_map (visit_field out key v) fs

-- The names in the `match` of `classify`, arm by arm.
abbrev pub terminal_kinds : List String
terminal_kinds = "response.completed" ∷ "response.failed" ∷ "response.incomplete" ∷ []

abbrev pub status_kinds : List String
status_kinds =
    "error" ∷ "response.created" ∷ "response.in_progress" ∷ "response.queued" ∷ "response.metadata"
    ∷ "codex.response.metadata" ∷ "responsesapi.websocket_timing" ∷ "ping" ∷ "heartbeat"
    ∷ "keepalive" ∷ "response.output_item.added" ∷ "response.web_search_call.in_progress"
    ∷ "response.web_search_call.searching" ∷ "response.file_search_call.in_progress"
    ∷ "response.file_search_call.searching" ∷ "response.code_interpreter_call.in_progress"
    ∷ "response.code_interpreter_call.interpreting" ∷ "response.image_generation_call.in_progress"
    ∷ "response.image_generation_call.generating" ∷ []

abbrev pub unfinished : List String
unfinished =
    "in_progress" ∷ "incomplete" ∷ "queued" ∷ "searching" ∷ "generating" ∷ "interpreting" ∷ []

abbrev pub tool_calls : List String
tool_calls =
    "function_call" ∷ "custom_tool_call" ∷ "local_shell_call" ∷ "shell_call"
    ∷ "code_interpreter_call" ∷ "web_search_call" ∷ "file_search_call" ∷ "tool_search_call" ∷ []

abbrev pub one_of : List String → String → Bool
one_of names kind = any (str_eq kind) names

abbrev pub payload : Class → Bool → Class
payload class present = if present then class else Class.empty

-- The arm of `response.output_item.done`.
unfoldable pub classify_item : EventItem → Class
classify_item value =
    if str_eq value.kind "" || one_of unfinished value.status
    then Class.empty
    else if str_eq value.kind "reasoning"
    then Class.reasoning
    else if one_of tool_calls value.kind
    then Class.tool
    else if str_eq value.kind "image_generation_call"
    then Class.media
    else Class.item

unfoldable pub classify_fields : EventFields → Class
unfolding classify_item
classify_fields event =
    if one_of terminal_kinds event.kind
    then Class.terminal
    else if one_of status_kinds event.kind
    then Class.status
    else if one_of ("response.output_text.delta" ∷ "response.refusal.delta" ∷ []) event.kind
    then payload Class.text event.delta
    else if str_eq event.kind "response.output_text.done"
    then payload Class.text event.text
    else if str_eq event.kind "response.refusal.done"
    then payload Class.text event.refusal
    else if one_of
        ("response.reasoning_text.delta" ∷ "response.reasoning_summary_text.delta"
          ∷ "response.reasoning.delta" ∷ [])
        event.kind
    then payload Class.reasoning event.delta
    else if one_of ("response.reasoning_text.done" ∷ "response.reasoning_summary_text.done" ∷ [])
        event.kind
    then payload Class.reasoning event.text
    else if one_of
        ("response.function_call_arguments.delta" ∷ "response.custom_tool_call_input.delta"
          ∷ "response.code_interpreter_call_code.delta" ∷ [])
        event.kind
    then payload Class.tool event.delta
    else if str_eq event.kind "response.function_call_arguments.done"
    then payload Class.tool event.arguments
    else if str_eq event.kind "response.custom_tool_call_input.done"
    then payload Class.tool event.input
    else if str_eq event.kind "response.code_interpreter_call_code.done"
    then payload Class.tool event.code
    else if one_of ("response.audio.delta" ∷ "response.output_audio.delta" ∷ []) event.kind
    then payload Class.media event.delta
    else if str_eq event.kind "response.image_generation_call.partial_image"
    then payload Class.media event.image
    else if one_of ("response.content_part.added" ∷ "response.content_part.done" ∷ []) event.kind
    then payload Class.text (event.part.text || event.part.refusal)
    else if one_of
        ("response.reasoning_summary_part.added" ∷ "response.reasoning_summary_part.done" ∷ [])
        event.kind
    then payload Class.reasoning event.part.text
    else if str_eq event.kind "response.output_item.done"
    then classify_item event.item
    else Class.other

-- `none` is a text that is no JSON; what is not an object is refused by the visitor.
unfoldable pub classify : Option Value → Class
unfolding classify_fields visit_map
classify (some (Value.object fs)) = classify_fields (visit_map no_fields fs)
classify _ = Class.invalid
