-- ===== src/WebSocket.antt =====
-- src/core/codex/src/responses_websocket_state.rs and what it is made of.
pub mod Types
pub mod Interrupt
pub mod Parts
pub mod Routing
pub mod Equivalence
pub mod Reuse
pub mod State
