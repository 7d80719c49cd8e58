-- ===== src/Migrations.antt =====
-- migrations/versions: what the schema's changes install in the database, and what they do to rows.
pub mod Checks
pub mod DeadLetters
pub mod Intents
