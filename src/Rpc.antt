-- ===== src/Rpc.antt =====
-- The Ethereum JSON-RPC facade: pkg/ethrpc.
mod Examples
pub mod Types
pub mod Store
pub mod Miner
pub mod Submitter
pub mod Service
pub mod Runs
pub mod Block
pub mod Ids
pub mod Lifecycle
pub mod Reach
pub mod Composed
pub mod Drained
pub mod Outcomes
pub mod Order
pub mod Sent
pub mod Receipts
pub mod Confirmed
