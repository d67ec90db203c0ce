-- ===== src/Relayer.antt =====
-- The bridge relayer: pkg/relayer.
pub mod Types
pub mod World
pub mod Store
pub mod Clients
pub mod Source
pub mod Destination
pub mod Engine
pub mod Processor
mod Examples
