-- ===== src/WebSocket/Types.antt =====
-- src/core/codex/src/responses_websocket_state_types.rs, and the caller and the profile of
-- src/core/codex/src/request_profile.rs.
use mini_sub2api.Base.{Bool, true, false}

pub data CallerKind : Type 0 where
  bare codex : CallerKind

pub data UpstreamProfile : Type 0 where
  api_key_passthrough codex_subscription : UpstreamProfile

unfoldable pub is_bare : CallerKind → Bool
is_bare CallerKind.bare = true
is_bare CallerKind.codex = false

unfoldable pub emulates_codex : UpstreamProfile → Bool
emulates_codex UpstreamProfile.api_key_passthrough = false
emulates_codex UpstreamProfile.codex_subscription = true

unfoldable pub uses_subscription_transport : UpstreamProfile → Bool
uses_subscription_transport UpstreamProfile.api_key_passthrough = false
uses_subscription_transport UpstreamProfile.codex_subscription = true

pub data PrewarmMode : Type 0 where
  ordinary responses_lite : PrewarmMode

pub data PublicCreateMode : Type 0 where
  passthrough explicit_state full incremental : PublicCreateMode

pub data OperationKind : Type 0 where
  hidden_setup public_create : OperationKind

pub data OperationPhase : Type 0 where
  idle planned attempted response_observed completed failed : OperationPhase

pub data EventDisposition : Type 0 where
  unassociated consume_hidden_setup forward_public : EventDisposition

-- The derived equality of kinds.
unfoldable pub same_kind : OperationKind → OperationKind → Bool
same_kind OperationKind.hidden_setup OperationKind.hidden_setup = true
same_kind OperationKind.hidden_setup OperationKind.public_create = false
same_kind OperationKind.public_create OperationKind.hidden_setup = false
same_kind OperationKind.public_create OperationKind.public_create = true

-- `phase == OperationPhase::Idle`, and so on.
unfoldable pub is_idle : OperationPhase → Bool
is_idle OperationPhase.idle = true
is_idle _ = false

unfoldable pub is_completed : OperationPhase → Bool
is_completed OperationPhase.completed = true
is_completed _ = false
