-- ===== src/Transfers.antt =====
-- The transfers of the API server, pkg/transfer.
pub mod Types
pub mod Cache
pub mod Checks
pub mod Service
pub mod Lists
pub mod Once
pub mod Bounded
pub mod Claims
mod Examples
