-- ===== src/Core.antt =====
-- The shared services of apps/api/app/core, one module to a file.
pub mod StateMachine
pub mod Auth
pub mod ImagePolicy
pub mod RateLimit
pub mod Events
pub mod Audit
pub mod Idempotency
pub mod Quotas
pub mod Pagination
pub mod Crypto
pub mod Telemetry
pub mod Config
