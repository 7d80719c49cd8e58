-- ===== src/Main.antt =====
-- apps/api/app/main.py: the service's start and stop, its error handlers, its middleware, its
-- probes, its metrics and the specification that it serves.
pub mod Errors
pub mod Lifespan
pub mod Metrics
pub mod OpenApi
pub mod Probes
pub mod Reported
pub mod Tracing
