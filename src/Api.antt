-- ===== src/Api.antt =====
-- The handlers of apps/api/app/api/v1, one module to a router. A handler is an action of the session
-- from its validated request; each identifier that it draws has a number of its own.
pub mod Jobs
pub mod Apps
pub mod Webhooks
pub mod Workspaces
pub mod Secrets
pub mod Repositories
pub mod Operations
pub mod Quotas
pub mod Audit
pub mod Metrics
