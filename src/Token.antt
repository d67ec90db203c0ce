-- ===== src/Token.antt =====
-- The token service, pkg/token.
mod Examples
pub mod Service
pub mod Pages
pub mod Walk
