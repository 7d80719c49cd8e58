-- ===== src/Workers.antt =====
-- apps/api/app/workers: the dispatcher that moves outbox events to the message broker.
pub mod Outbox
