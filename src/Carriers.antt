-- ===== src/Carriers.antt =====
-- src/core/codex/src/lifecycle_carriers.rs and its rule tables: which JSON fields and headers carry
-- identities, and what may be done with each.
pub mod Kinds
pub mod Rule
pub mod EvidenceRules
pub mod ProjectionRules
pub mod RequestWireRules
pub mod ResponseWireRules
pub mod PolicyRules
pub mod Query
pub mod Laws
