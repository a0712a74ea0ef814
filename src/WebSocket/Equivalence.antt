-- ===== src/WebSocket/Equivalence.antt =====
-- src/core/codex/src/responses_websocket_projection.rs: when two lists of items are the same.
use mini_sub2api.Base.{
  ℕ, ◌+◌, String, Bool, true, false, ◌&&◌, Option, none, some, List, [], ◌∷◌, length, ◌==◌, str_eq,
  if◌then◌else◌,
}
use mini_sub2api.Base.Json.{Value, Fields, get, as_array}
use mini_sub2api.WebSocket.Parts.{Parts}

abbrev pub passthrough : String
passthrough = "internal_chat_message_metadata_passthrough"

-- `Map::remove`
unfoldable pub remove_field : String → Fields → Fields
remove_field name Fields.end = Fields.end
remove_field name (Fields.field k v fs) =
    let rest = remove_field name fs in if str_eq k name then rest else Fields.field k v rest

unfoldable pub project_item : Value → Value
unfolding remove_field
project_item (Value.object fs) = Value.object (remove_field passthrough fs)
project_item v = v

-- `iter().zip(right).all(…)`
unfoldable pub zip_all : (Value → Value → Bool) → List Value → List Value → Bool
zip_all test (v ∷ vs) (w ∷ ws) = let rest = zip_all test vs ws in test v w && rest
zip_all test _ _ = true

-- The index, the name, the arguments and the evidence of a tool call.
pub record ToolResult : Type 0 where
  pub place : ℕ
  pub name : Option Value
  pub arguments : Option Value
  pub metadata : Value

abbrev pub array_in : Option Value → List Value
array_in none = []
array_in (some v) = elim (as_array v) [ none ↦ [] | some vs ↦ vs ]

abbrev pub executed_tool_calls : Value → List Value
executed_tool_calls item = elim (get item passthrough) [
  | none ↦ []
  | some metadata ↦ array_in (get metadata "executed_tool_calls")
]

-- The calls from a place on that have evidence.
unfoldable pub results_from : ℕ → List Value → List ToolResult
results_from n [] = []
results_from n (call ∷ calls) =
    let rest = results_from (n + 1) calls in
    elim (get call "tool_result_metadata") [
      | none ↦ rest
      | some metadata ↦
          record {
            place = n;
            name = get call "name";
            arguments = get call "arguments";
            metadata = metadata;
          }
          ∷ rest
    ]

unfoldable pub tool_result_metadata : Value → List ToolResult
unfolding results_from
tool_result_metadata item = results_from 0 (executed_tool_calls item)

module _ (parts : Parts) where
  abbrev pub same_option : Option Value → Option Value → Bool
  same_option none none = true
  same_option (some v) (some w) = parts.same_value v w
  same_option _ _ = false

  abbrev pub same_result : ToolResult → ToolResult → Bool
  same_result a b =
      (a.place == b.place)
      && (same_option a.name b.name
          && (same_option a.arguments b.arguments && parts.same_value a.metadata b.metadata))

  -- `Iterator::eq`
  unfoldable pub same_results : List ToolResult → List ToolResult → Bool
  same_results [] [] = true
  same_results (a ∷ rs) (b ∷ bs) = let rest = same_results rs bs in same_result a b && rest
  same_results _ _ = false

  unfoldable pub equivalent_items : List Value → List Value → Bool
  unfolding project_item zip_all
  equivalent_items left right =
      (length left == length right)
      && zip_all (λ v w. parts.same_value (project_item v) (project_item w)) left right

  unfoldable pub equivalent_items_for_reuse : List Value → List Value → Bool
  unfolding equivalent_items zip_all tool_result_metadata same_results
  equivalent_items_for_reuse left right =
      equivalent_items left right
      && zip_all (λ v w. same_results (tool_result_metadata v) (tool_result_metadata w)) left right
