-- ===== src/Subscription.antt =====
-- src/core/codex/src/subscription_index.rs: the prefix index over histories, and history blocks.
pub mod Radix
pub mod History
