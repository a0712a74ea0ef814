-- ===== src/WebSocket/Parts.antt =====
-- What the connection state of src/core/codex/src/responses_websocket_state.rs calls: the JSON library
-- (equality of values, their encoded length, numbers), the test of header values, the hash in an item's identifier, and the modules
-- that follow the output of a response and its compaction.
use mini_sub2api.Base.{ℕ, String, Bool, Option, List}
use mini_sub2api.Base.Json.{Value}

pub record Parts : Type 1 where
  -- `PendingCompaction`, `CompactionOutput` and `OutputLifecycle`
  pub Pending : Type 0
  pub Compaction : Type 0
  pub Lifecycle : Type 0
  -- `==` on `serde_json::Value`, `serde_json::to_vec(value).len()` and `Value::as_u64`
  pub same_value : Value → Value → Bool
  pub encoded_len : Value → ℕ
  pub as_u64 : Value → Option ℕ
  -- `ordinary_prewarm_prefix`, and `request_normalizer::finalize_wire_order` for a WebSocket
  pub ordinary_prewarm_prefix : Value → List Value
  pub finalize_wire_order : Value → Value
  -- Whether `HeaderValue::from_bytes` and `to_str` of the `http` crate succeed on a text.
  pub is_header_text : String → Bool
  -- request_compaction.rs
  pub no_compaction : Compaction
  pub observe_compaction : Value → Compaction → Compaction
  pub accepts_response : Pending → Value → Compaction → Bool
  -- response_output.rs and response_output_lifecycle.rs
  pub no_output : Lifecycle
  pub is_valid_done : Value → Bool
  pub observe_with_interrupt : Value → ℕ → Bool → Lifecycle → Option Lifecycle
  pub is_valid_interrupted : Lifecycle → Value → List (ℕ × Value) → Bool
  pub is_valid_completed : Lifecycle → Value → Bool
