-- ===== src/Tests.antt =====
-- The theorems at small concrete data.
pub mod Data
pub mod Readings
pub mod Requests
pub mod Services
pub mod Hooks
pub mod Outbox
pub mod Schema
pub mod Views
pub mod Cursors
pub mod Tokens
pub mod Traces
