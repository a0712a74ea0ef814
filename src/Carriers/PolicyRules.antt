-- ===== src/Carriers/PolicyRules.antt =====
-- src/core/codex/src/lifecycle_carrier_policy_rules.rs: the table `RULES`.
use mini_sub2api.Base.{List, [], none, some, ◌∷◌}
use mini_sub2api.RequestState.Types.{WireIdDomain}
use mini_sub2api.Carriers.Kinds.{CarrierAction, CarrierContainer, CarrierDirection}
use mini_sub2api.Carriers.Rule.{
  CarrierRule, header, opaque, installation_header, turn_metadata_header, window_header,
}

unfoldable pub rules : List CarrierRule
rules =
    header "content-type" none CarrierAction.opaque
    ∷ header "content-encoding" none CarrierAction.opaque
    ∷ header "cache-control" none CarrierAction.opaque
    ∷ header "retry-after" none CarrierAction.opaque
    ∷ header "retry-after-ms" none CarrierAction.opaque
    ∷ header "x-retry-metadata" none CarrierAction.opaque
    ∷ header "server-timing" none CarrierAction.opaque
    ∷ header "openai-model" none CarrierAction.opaque
    ∷ header "x-openai-model" none CarrierAction.opaque
    ∷ header "openai-processing-ms" none CarrierAction.opaque
    ∷ header "openai-version" none CarrierAction.opaque
    ∷ header "x-models-etag" none CarrierAction.opaque
    ∷ header "x-reasoning-included" none CarrierAction.opaque
    ∷ header "x-codex-turn-state" none CarrierAction.opaque
    ∷ header "x-codex-safety-buffering-enabled" none CarrierAction.opaque
    ∷ header "x-codex-safety-buffering-faster-model" none CarrierAction.opaque
    ∷ header "x-ratelimit-limit-requests" none CarrierAction.opaque
    ∷ header "x-ratelimit-remaining-requests" none CarrierAction.opaque
    ∷ header "x-ratelimit-reset-requests" none CarrierAction.opaque
    ∷ header "x-ratelimit-limit-tokens" none CarrierAction.opaque
    ∷ header "x-ratelimit-remaining-tokens" none CarrierAction.opaque
    ∷ header "x-ratelimit-reset-tokens" none CarrierAction.opaque
    ∷ header "x-request-id" none CarrierAction.gateway_request_alias
    ∷ header "openai-request-id" none CarrierAction.gateway_request_alias
    ∷ header "request-id" none CarrierAction.gateway_request_alias
    ∷ header installation_header (some WireIdDomain.installation) CarrierAction.public_strip
    ∷ header turn_metadata_header none CarrierAction.public_strip
    ∷ header window_header (some WireIdDomain.thread) CarrierAction.public_strip
    ∷ header "session-id" (some WireIdDomain.session) CarrierAction.public_strip
    ∷ header "thread-id" (some WireIdDomain.thread) CarrierAction.public_strip
    ∷ header "x-client-request-id" (some WireIdDomain.thread) CarrierAction.public_strip
    ∷ header "x-codex-parent-thread-id" (some WireIdDomain.thread) CarrierAction.public_strip
    ∷ header "session_id" (some WireIdDomain.session) CarrierAction.public_strip
    ∷ header "conversation_id" (some WireIdDomain.session) CarrierAction.public_strip
    ∷ header "x-openai-subagent" none CarrierAction.public_strip
    ∷ opaque CarrierDirection.request CarrierContainer.top_level "tools"
    ∷ opaque CarrierDirection.request CarrierContainer.top_level "metadata"
    ∷ opaque CarrierDirection.request CarrierContainer.top_level "text"
    ∷ opaque CarrierDirection.request CarrierContainer.item "content"
    ∷ opaque CarrierDirection.request CarrierContainer.item "arguments"
    ∷ opaque CarrierDirection.request CarrierContainer.item "output"
    ∷ opaque CarrierDirection.request CarrierContainer.item "encrypted_content"
    ∷ opaque CarrierDirection.response CarrierContainer.top_level "metadata"
    ∷ opaque CarrierDirection.response CarrierContainer.item "content"
    ∷ opaque CarrierDirection.response CarrierContainer.item "arguments"
    ∷ opaque CarrierDirection.response CarrierContainer.item "output"
    ∷ opaque CarrierDirection.response CarrierContainer.item "encrypted_content"
    ∷ []
