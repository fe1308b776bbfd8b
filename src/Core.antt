-- ===== src/Core.antt =====
-- The framework-free domain core, packages/core/src.
pub mod Authorize
pub mod Rollup
pub mod Uptime
pub mod Protection
pub mod Diff
pub mod Audit
pub mod Ticker
pub mod Base32
pub mod Totp
pub mod Envelope
mod Tests
