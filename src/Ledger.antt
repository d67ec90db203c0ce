-- ===== src/Ledger.antt =====
-- The Canton ledger as the middleware sees it: pkg/cantonsdk/values and pkg/cantonsdk/streaming.
pub mod Values
pub mod Event
pub mod Encode
pub mod RoundTrip
mod Examples
