-- ===== src/Tests/Sockets.antt =====
-- A connection on which the theorems on its state are run.
use mini_sub2api.Base.{ℕ, ◌≡◌, refl, true, false, none, some, [], ◌∷◌}
use mini_sub2api.Base.Json.{Value, Fields, Items, get_field, elements, as_array}
use mini_sub2api.WebSocket.Types.{
  CallerKind, UpstreamProfile, OperationKind, is_bare, uses_subscription_transport,
}
use mini_sub2api.WebSocket.Parts.{Parts}
use mini_sub2api.WebSocket.Reuse.{
  ReuseBaseline, request_snapshot, reusable_item, has_explicit_state_carrier, incremental_input,
}
use mini_sub2api.WebSocket.State.{SocketState, new_state, automatic_reuse_enabled}
use mini_sub2api.WebSocket.State.Plan.{
  pending_kind, ordered, plan_public_create, plan_public_from, abandon_pending_operation,
  choose_mode, choose_automatic, continue_with, activate,
}
use mini_sub2api.WebSocket.State.Observe.{observe_server_event}
use mini_sub2api.WebSocket.State.Moves.{Moves, Reached}
use mini_sub2api.WebSocket.State.Orderly.{IsOrderly}
use mini_sub2api.WebSocket.State.Reached.{Reached-IsOrderly}
use mini_sub2api.WebSocket.State.Limits.{IsBounded, Reached-IsBounded}
use mini_sub2api.WebSocket.State.Continued.{
  is_incremental, ContinuesWith, plan_public_create-ContinuesWith,
}
use mini_sub2api.WebSocket.Types.{PrewarmMode}
use mini_sub2api.WebSocket.Interrupt
use mini_sub2api.WebSocket.Equivalence.{equivalent_items, equivalent_items_for_reuse}
use mini_sub2api.WebSocket.State.Plan.{plan_hidden_setup}

-- Every item has two bytes, and all values are the same.
abbrev plain_parts : Parts
plain_parts = record {
  Pending = ℕ;
  Compaction = ℕ;
  Lifecycle = ℕ;
  same_value = λ v w. true;
  encoded_len = λ v. 2;
  as_u64 = λ v. none;
  ordinary_prewarm_prefix = λ v. [];
  finalize_wire_order = λ v. v;
  is_header_text = λ t. true;
  no_compaction = 0;
  observe_compaction = λ v n. n;
  accepts_response = λ pending v n. true;
  no_output = 0;
  is_valid_done = λ v. true;
  observe_with_interrupt = λ v items requested n. some n;
  is_valid_interrupted = λ n v output. true;
  is_valid_completed = λ n v. true;
}

abbrev message : Value
message = Value.object (Fields.field "type" (Value.string "message") Fields.end)

abbrev create_request : Value
create_request = Value.object (
    Fields.field "type" (Value.string "response.create") (
      Fields.field "input" (Value.array (Items.cons message (Items.cons message Items.nil)))
        Fields.end))

abbrev done_event : Value
done_event = Value.object (
    Fields.field "type" (Value.string "response.output_item.done")
      (Fields.field "item" message Fields.end))

abbrev fresh_socket : SocketState plain_parts
fresh_socket = new_state CallerKind.bare UpstreamProfile.codex_subscription 10 100

abbrev planned_socket : SocketState plain_parts
planned_socket = (plan_public_create create_request none fresh_socket).2

abbrev active_socket : SocketState plain_parts
active_socket = (activate OperationKind.public_create planned_socket).1

abbrev observed_socket : SocketState plain_parts
observed_socket = (observe_server_event done_event active_socket).2

observed_socket-Reached : Reached observed_socket
observed_socket-Reached =
    Reached.then
      (Reached.then
        (Reached.then (Reached.fresh CallerKind.bare UpstreamProfile.codex_subscription 10 100)
          (Moves.create create_request none fresh_socket))
        (Moves.attempt OperationKind.public_create planned_socket))
      (Moves.observe done_event active_socket)

Reached-IsOrderly_example : IsOrderly observed_socket
Reached-IsOrderly_example = Reached-IsOrderly observed_socket observed_socket-Reached

Reached-IsBounded_example : IsBounded observed_socket
Reached-IsBounded_example = Reached-IsBounded observed_socket observed_socket-Reached

abbrev cached : ReuseBaseline
cached = record {
  request = record {
    properties = Fields.end;
    input = message ∷ [];
    comparison_input = message ∷ [];
    thread_id = none;
  };
  response_id = "resp_1";
  output = [];
}

abbrev cached_socket : SocketState plain_parts
cached_socket = record fresh_socket { baseline = some cached }

create_request-incremental :
    is_incremental (plan_public_create create_request none cached_socket).0 ≡ true
unfolding equivalent_items_for_reuse equivalent_items plan_public_create plan_public_from
    abandon_pending_operation choose_mode choose_automatic continue_with is_incremental new_state
    has_explicit_state_carrier get_field automatic_reuse_enabled is_bare uses_subscription_transport
    request_snapshot as_array elements reusable_item incremental_input
create_request-incremental = refl

plan_public_create-ContinuesWith_example :
    (pending_kind cached_socket ≡ none)
    × (automatic_reuse_enabled cached_socket ≡ true)
    × (has_explicit_state_carrier create_request ≡ false)
    × (frame : Value) × ((plan_public_create create_request none cached_socket).1
        ≡ ordered plain_parts.finalize_wire_order frame)
    × ContinuesWith plain_parts cached_socket.baseline
        (request_snapshot create_request)
        create_request
        frame
        (plan_public_create create_request none cached_socket).2.baseline
plan_public_create-ContinuesWith_example =
    plan_public_create-ContinuesWith create_request none cached_socket create_request-incremental

abbrev token_event : Value
token_event = Value.object (
    Fields.field "type" (Value.string "response.metadata") (
      Fields.field "headers"
        (Value.object (
          Fields.field "X-Codex-Turn-State"
            (Value.array (Items.cons (Value.string "tok") Items.nil)) Fields.end))
        Fields.end))

abbrev completed_event : Value
completed_event = Value.object (Fields.field "type" (Value.string "response.completed") Fields.end)

abbrev setup_planned : SocketState plain_parts
setup_planned = (plan_hidden_setup create_request PrewarmMode.ordinary fresh_socket).1

abbrev setup_active : SocketState plain_parts
setup_active = (activate OperationKind.hidden_setup setup_planned).1

abbrev setup_noted : SocketState plain_parts
setup_noted = (observe_server_event token_event setup_active).2

abbrev setup_done : SocketState plain_parts
setup_done = (observe_server_event completed_event setup_noted).2
