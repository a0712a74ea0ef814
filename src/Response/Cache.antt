-- ===== src/Response/Cache.antt =====
-- src/core/codex/src/response_id_cache.rs: the bounded cache of translated identifiers.
pub mod State
pub mod Translate
pub mod Remember
pub mod Slots
pub mod Accounting
pub mod Eviction
pub mod Bounds
pub mod Run
pub mod Coherence
pub mod Correct
