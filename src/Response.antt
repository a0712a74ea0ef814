-- ===== src/Response.antt =====
-- The response side: the cache of translated identifiers.
pub mod Delta
pub mod Cache
pub mod Found
