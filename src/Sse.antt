-- ===== src/Sse.antt =====
-- src/core/codex/src/response_sse_reader.rs and src/protocol/v1/rust/src/sse_progress.rs: the
-- server-sent events of a response.
pub mod Progress
pub mod Payload
pub mod Frame
pub mod Reader
pub mod Stream
pub mod Outlook
pub mod Rounds
pub mod Reading
pub mod Events
pub mod Classes
pub mod Tail
pub mod Drain
