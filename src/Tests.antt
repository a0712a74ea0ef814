-- ===== src/Tests.antt =====
-- The theorems applied at concrete inputs.
pub mod CarrierLaws
pub mod Indexes
pub mod Ledger
pub mod Sockets
pub mod Caches
pub mod Readers
pub mod Texts
