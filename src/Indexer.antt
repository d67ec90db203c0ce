-- ===== src/Indexer.antt =====
-- The token indexer: pkg/indexer.
pub mod Types
pub mod Store
pub mod Processor
pub mod Decoder
pub mod Effects
pub mod Batches
pub mod Decoded
pub mod Credit
pub mod Resume
mod Examples
