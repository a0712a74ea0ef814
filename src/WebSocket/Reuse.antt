-- ===== src/WebSocket/Reuse.antt =====
-- src/core/codex/src/responses_websocket_reuse.rs, and `project_properties`, `reusable_item` and the
-- encoded lengths of src/core/codex/src/responses_websocket_projection.rs.
use mini_sub2api.Base.{
  ℕ, ◌+◌, ◌-◌, String, Bool, true, false, not, ◌&&◌, Option, none, some, List, [], ◌∷◌, ◌++◌,
  length, take, drop, any, all, str_eq, leb, if◌then◌else◌,
}
use mini_sub2api.Base.TextMap.{has_text}
use mini_sub2api.Base.Json.{Value, Fields, get, as_object, as_array, text_of}
use mini_sub2api.WebSocket.Interrupt.{is_text}
use mini_sub2api.WebSocket.Parts.{Parts}
use mini_sub2api.WebSocket.Equivalence.{equivalent_items_for_reuse}

abbrev reuse_properties : List String
reuse_properties =
    "model" ∷ "instructions" ∷ "tools" ∷ "tool_choice" ∷ "parallel_tool_calls" ∷ "reasoning"
    ∷ "store" ∷ "stream" ∷ "include" ∷ "service_tier" ∷ "prompt_cache_key" ∷ "text" ∷ []

abbrev reusable_item_types : List String
reusable_item_types =
    "additional_tools" ∷ "agent_message" ∷ "apply_patch_call" ∷ "apply_patch_call_output"
    ∷ "code_interpreter_call" ∷ "compaction" ∷ "compaction_trigger" ∷ "configuration_update"
    ∷ "computer_call" ∷ "computer_call_output" ∷ "context_compaction" ∷ "custom_tool_call"
    ∷ "custom_tool_call_output" ∷ "file_search_call" ∷ "function_call" ∷ "function_call_output"
    ∷ "image_generation_call" ∷ "local_shell_call" ∷ "local_shell_call_output"
    ∷ "mcp_approval_request" ∷ "mcp_approval_response" ∷ "mcp_call" ∷ "mcp_list_tools" ∷ "message"
    ∷ "other" ∷ "program" ∷ "program_output" ∷ "reasoning" ∷ "shell_call" ∷ "shell_call_output"
    ∷ "tool_search_call" ∷ "tool_search_output" ∷ "web_search_call" ∷ []

unfoldable pub project_properties : Fields → Fields
project_properties Fields.end = Fields.end
project_properties (Fields.field name value fs) =
    let rest = project_properties fs in
    if has_text name reuse_properties then Fields.field name value rest else rest

abbrev listed : List String → Option String → Bool
listed ts none = false
listed ts (some t) = has_text t ts

unfoldable pub reusable_item : Value → Bool
reusable_item item = listed reusable_item_types (text_of (get item "type"))

abbrev explicit_state_carriers : List String
explicit_state_carriers = "previous_response_id" ∷ "conversation" ∷ "generate" ∷ "stream_id" ∷ []

-- `object.contains_key(field)`
abbrev has_field : Value → String → Bool
has_field request name = elim (get request name) [ none ↦ false | some _ ↦ true ]

unfoldable pub has_explicit_state_carrier : Value → Bool
has_explicit_state_carrier request = any (has_field request) explicit_state_carriers

pub record RequestSnapshot : Type 0 where
  pub properties : Fields
  pub input : List Value
  pub comparison_input : List Value
  pub thread_id : Option String

pub record ReuseBaseline : Type 0 where
  pub request : RequestSnapshot
  pub response_id : String
  pub output : List Value

-- `value?.as_array()?`
abbrev pub array_of : Option Value → Option (List Value)
array_of none = none
array_of (some v) = as_array v

abbrev thread_of : Value → Option String
thread_of request = elim (get request "client_metadata") [
  | none ↦ none
  | some m ↦ text_of (get m "thread_id")
]

unfoldable snapshot_of : Fields → Option String → Option (List Value) → Option RequestSnapshot
snapshot_of fields thread none = none
snapshot_of fields thread (some input) =
    if all reusable_item input
    then some (record {
      properties = project_properties fields;
      input = input;
      comparison_input = input;
      thread_id = thread;
    })
    else none

unfoldable pub request_snapshot : Value → Option RequestSnapshot
unfolding snapshot_of
request_snapshot request = elim (as_object request) [
  | none ↦ none
  | some fields ↦
      if is_text (text_of (get request "type")) "response.create"
      then snapshot_of fields (thread_of request) (array_of (get request "input"))
      else none
]

-- The items from the front that are messages of the developer.
unfoldable developer_messages : List Value → List Value
developer_messages [] = []
developer_messages (item ∷ items) =
    let rest = developer_messages items in
    if is_text (text_of (get item "type")) "message"
      && is_text (text_of (get item "role")) "developer"
    then item ∷ rest
    else []

unfoldable pub lite_prewarm_prefix : List Value → List Value
unfolding developer_messages
lite_prewarm_prefix [] = []
lite_prewarm_prefix (item ∷ items) =
    if is_text (text_of (get item "type")) "additional_tools"
    then item ∷ developer_messages items
    else developer_messages (item ∷ items)

-- `left == right` on optional texts.
abbrev pub same_text : Option String → Option String → Bool
same_text none none = true
same_text none (some t) = false
same_text (some s) none = false
same_text (some s) (some t) = str_eq s t

module _ (parts : Parts) where
  -- `encoded_len_within`: the counter refuses what would exceed the maximum.
  unfoldable pub encoded_len_within : Value → ℕ → Option ℕ
  encoded_len_within v maximum =
      if leb (parts.encoded_len v) maximum then some (parts.encoded_len v) else none

  unfoldable output_len_from : List Value → ℕ → ℕ → Option ℕ
  unfolding encoded_len_within
  output_len_from [] maximum total = some total
  output_len_from (item ∷ items) maximum total = elim (encoded_len_within item (maximum - total)) [
    | none ↦ none
    | some n ↦ output_len_from items maximum (total + n)
  ]

  unfoldable pub output_encoded_len : List Value → ℕ → Option ℕ
  unfolding output_len_from
  output_encoded_len output maximum = output_len_from output maximum 0

  -- Whether the cached request and its output are the front of the current request.
  abbrev pub prefix_len : ReuseBaseline → ℕ
  prefix_len baseline = length baseline.request.comparison_input + length baseline.output

  unfoldable pub continues : ReuseBaseline → RequestSnapshot → Bool
  continues baseline current =
      same_text baseline.request.thread_id current.thread_id
      && (parts.same_value (Value.object baseline.request.properties)
            (Value.object current.properties)
          && (not (str_eq baseline.response_id "")
              && (leb (prefix_len baseline) (length current.comparison_input)
                  && (equivalent_items_for_reuse parts
                        (baseline.request.comparison_input ++ baseline.output)
                        (take (prefix_len baseline) current.comparison_input)
                      && leb (prefix_len baseline) (length current.input)))))

  unfoldable pub incremental_input : ReuseBaseline → RequestSnapshot → Option (List Value)
  unfolding continues
  incremental_input baseline current =
      if continues baseline current then some (drop (prefix_len baseline) current.input) else none
