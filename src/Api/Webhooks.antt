-- ===== src/Api/Webhooks.antt =====
-- apps/api/app/api/v1/webhooks.py: deliveries of GitHub's webhooks.
pub mod Rows
pub mod Pushes
pub mod Handler
pub mod Staged
pub mod Once
pub mod Answered
pub mod Built
