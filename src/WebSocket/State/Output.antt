-- ===== src/WebSocket/State/Output.antt =====
-- src/core/codex/src/responses_websocket_state_output.rs: what is kept of the output of a response.
use mini_sub2api.Base.{
  ℕ, ◌+◌, ◌-◌, String, Bool, true, false, not, ◌&&◌, Option, none, some, List, [], ◌∷◌, map, length,
  all, leb, ltb, ◌==◌, if◌then◌else◌, str_eq,
}
use mini_sub2api.Base.Json.{Value, get, index}
use mini_sub2api.WebSocket.Types.{OperationPhase}
use mini_sub2api.WebSocket.Interrupt.{completes, response_id_of}
use mini_sub2api.WebSocket.Parts.{Parts}
use mini_sub2api.WebSocket.Equivalence.{equivalent_items}
use mini_sub2api.WebSocket.Reuse.{
  RequestSnapshot, ReuseBaseline, reusable_item, array_of, encoded_len_within, output_encoded_len,
}
use mini_sub2api.WebSocket.State.{
  ActiveOperation, SocketState, abandon_output, fail_active, set_phase,
}

-- `BTreeMap::get` and `BTreeMap::insert` under an index that is not there.
unfoldable pub output_at : ℕ → List (ℕ × Value) → Option Value
output_at i [] = none
output_at i ((j, v) ∷ m) = if j == i then some v else output_at i m

unfoldable pub insert_output : ℕ → Value → List (ℕ × Value) → List (ℕ × Value)
insert_output i v [] = (i, v) ∷ []
insert_output i v ((j, w) ∷ m) =
    let rest = insert_output i v m in if ltb i j then (i, v) ∷ (j, w) ∷ m else (j, w) ∷ rest

-- `unwrap_or(active.output.len())`
abbrev or_length : Option ℕ → ℕ → ℕ
or_length none n = n
or_length (some i) n = i

-- What the response lists as its output, if that is not empty: `response_output::populated`.
abbrev populated : Option (List Value) → Option (List Value)
populated none = none
populated (some []) = none
populated (some (v ∷ vs)) = some (v ∷ vs)

abbrev listed_output : Value → Option (List Value)
listed_output event =
    populated (elim (get event "response") [ none ↦ none | some r ↦ array_of (get r "output") ])

abbrev is_some : Option ℕ → Bool
is_some none = false
is_some (some _) = true

abbrev is_empty : List (ℕ × Value) → Bool
is_empty [] = true
is_empty (_ ∷ _) = false

-- `event.get("response").unwrap_or(event)`
abbrev response_or_event : Value → Value
response_or_event event = elim (get event "response") [ none ↦ event | some r ↦ r ]

abbrev non_empty_text : Option String → Option String
non_empty_text none = none
non_empty_text (some id) = if str_eq id "" then none else some id

unfoldable pub new_baseline :
    Bool → Option RequestSnapshot → Option String → List Value → Option ReuseBaseline
new_baseline true (some request) (some response_id) output =
    some (record { request = request; response_id = response_id; output = output })
new_baseline true (some request) none output = none
new_baseline true none response_id output = none
new_baseline false request response_id output = none

module _ {parts : Parts} where
  abbrev pub index_of : Value → ActiveOperation parts → ℕ
  index_of event a =
      or_length (elim (get event "output_index") [ none ↦ none | some v ↦ parts.as_u64 v ])
        (length a.output)

  -- An item that may be kept, of the encoded length.
  unfoldable pub keep_item : ℕ → ℕ → Value → ℕ → ActiveOperation parts → ActiveOperation parts
  unfolding output_at insert_output abandon_output
  keep_item max_items i item encoded a =
      if leb max_items i then abandon_output a else elim (output_at i a.output) [
        | some previous ↦
            if equivalent_items parts (previous ∷ []) (item ∷ []) then a else abandon_output a
        | none ↦ record a {
          output = insert_output i item a.output;
          output_bytes = a.output_bytes + encoded;
        }
      ]

  unfoldable pub measure_item :
      ℕ → ℕ → Value → Value → ActiveOperation parts → ActiveOperation parts
  unfolding keep_item abandon_output
  measure_item max_items max_bytes event item a =
      elim (encoded_len_within parts item (max_bytes - a.output_bytes)) [
        | none ↦ abandon_output a
        | some encoded ↦ keep_item max_items (index_of event a) item encoded a
      ]

  -- `active.compaction_output.observe(item)`
  abbrev pub observed_compaction : Option Value → ActiveOperation parts → ActiveOperation parts
  observed_compaction none a = a
  observed_compaction (some item) a = record a {
    compaction_output = parts.observe_compaction item a.compaction_output;
  }

  unfoldable pub take_item :
      ℕ → ℕ → Value → Option Value → ActiveOperation parts → ActiveOperation parts
  unfolding measure_item abandon_output
  take_item max_items max_bytes event none a = if a.reusable then abandon_output a else a
  take_item max_items max_bytes event (some item) a =
      if a.reusable
      then (if reusable_item item
          then measure_item max_items max_bytes event item a
          else abandon_output a)
      else a

  unfoldable pub observe_output_item : ℕ → ℕ → Value → ActiveOperation parts → ActiveOperation parts
  unfolding take_item
  observe_output_item max_items max_bytes event a =
      take_item max_items max_bytes event (get event "item")
        (observed_compaction (get event "item") a)

  -- `validate_interrupted` or `validate_completed`
  unfoldable pub is_valid_end : Value → ActiveOperation parts → Bool
  is_valid_end event a =
      if completes a.interruption event
      then parts.is_valid_interrupted a.output_lifecycle (index event "response") a.output
      else parts.is_valid_completed a.output_lifecycle (index event "response")

  abbrev collected_of : ActiveOperation parts → List Value
  collected_of a = map (λ e. e.1) a.output

  -- The operation and the collected output after the comparison with the listed output.
  unfoldable pub reconcile :
      ℕ → ℕ → Option (List Value) → ActiveOperation parts → ActiveOperation parts × List Value
  unfolding abandon_output
  reconcile max_items max_bytes none a = (a, collected_of a)
  reconcile max_items max_bytes (some output) a =
      if all reusable_item output
        && (leb (length output) max_items && is_some (output_encoded_len parts output max_bytes))
      then (if is_empty a.output
          then (a, output)
          else if equivalent_items parts (collected_of a) output
          then (a, collected_of a)
          else (abandon_output a, collected_of a))
      else (abandon_output a, collected_of a)

  abbrev refuses : Value → ActiveOperation parts → Bool
  refuses event a = elim a.pending_compaction [
    | none ↦ false
    | some pending ↦
        not (parts.accepts_response pending (response_or_event event) a.compaction_output)
  ]

  -- `complete_active` on the active operation, which it takes out of the state.
  unfoldable pub complete :
      Value → ActiveOperation parts → SocketState parts → Option parts.Pending × SocketState parts
  unfolding is_valid_end reconcile new_baseline fail_active set_phase
  complete event a s =
      let r = reconcile s.max_output_items s.max_output_bytes (listed_output event) a in
      if is_valid_end event a
      then (
        a.pending_compaction,
        set_phase a.kind OperationPhase.completed (record s {
          active = none;
          baseline =
              new_baseline (r.0.reusable && not (refuses event r.0)) r.0.request
                (non_empty_text (response_id_of event)) r.1;
        }),
      )
      else (none, fail_active a.kind (record s { active = none }))
