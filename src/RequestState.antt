-- ===== src/RequestState.antt =====
-- src/core/codex/src/request_state_types.rs and its operations: the ledger of identities.
pub mod Types
pub mod WireId
pub mod Prune
