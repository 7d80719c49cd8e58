-- ===== src/Lib.antt =====
-- The control plane of hamicloud (apps/api/app): the handlers that change workspaces, jobs,
-- applications and secrets, the services that they share, and the worker that publishes events.
--
-- A handler authorizes its caller (core/auth.py), looks for an answer stored under the request's
-- Idempotency-Key (core/idempotency.py), passes the rate limit and the quota (core/rate_limit.py,
-- core/quotas.py), stages its rows with an audit event (core/audit.py) and an outbox event
-- (core/events.py), and commits all of them at once. workers/outbox_dispatcher.py publishes the
-- outbox later.
--
-- Files, with the code of apps/api/app that each models:
--   Prelude       tests, list and text functions, sorting; no code of the program
--   Models        models/*.py as records and enumerations; Models.Db has the tables, the changes
--                 that a session stages and the unique constraints of migrations/
--   Schemas       schemas/*.py, the requests after validation
--   Env           core/config.py (the settings that are read), the clock, fresh UUIDs, and the
--                 answers of libraries and services, as parameters
--   Session       db/session.py: a monad over the session's transaction. `query` reads the
--                 database, `stage` is an add, delete or assignment, `commit` writes what is staged
--                 to the database as the other transactions have left it, `raise` is HTTPException
--   Session.Atomic, Session.Effect   what an action has done to the database when it ends
--   Core          core/auth.py, state_machine.py, audit.py, events.py, image_policy.py,
--                 rate_limit.py, idempotency.py, quotas.py, pagination.py, crypto.py, telemetry.py
--                 and config.py (its derived settings), a module each; Core.Auth.Tokens has
--                 get_caller, Core.Pagination.Cursors the text of a cursor
--   Api           api/v1/*.py, a module per router and a function per handler: jobs, workspaces,
--                 secrets, apps, webhooks, repositories, operations, quotas, audit and metrics
--   Main          main.py: the handlers that turn exceptions into error responses, the middleware
--                 that sets the trace context, the probes, `/metrics`, the served specification
--                 and the lifespan
--   Workers       workers/outbox_dispatcher.py: batches, purge, requeue, the messages, and the loop,
--                 whose rounds take the times, the broker's answers and the errors as data
--   Migrations    migrations/versions (at the repository's root): the trigger and the backfill of
--                 0007_add_dead_letter_records.py, the rows of execution_intents in
--                 0002_close_schema_gaps.py, and the checks of the enumerated columns, with SqlEnum
--                 of db/base.py
--   Tests         a small database and the theorems at it
--
-- Choices of the model. UUIDs and times (microseconds since the epoch) are natural numbers; one
-- request reads one time, and its nth UUID is a function of n. A handler reads the database as it
-- was when the request came; the other transactions' changes until its commit are a function
-- (`others`) that the theorems quantify over, or the identity where a theorem says that no other
-- transaction runs beside. Row locks and the advisory lock have no step of their own. A commit
-- checks the unique constraints in the order of staging, and the lengths of the columns whose
-- texts no schema of a request bounds; the uniqueness of fresh identifiers and the foreign keys are
-- not checked. JSON columns are records with a field for each key that the
-- code writes, and `none` for a missing key. The dispatcher's rounds without a wait run on fuel, for
-- which one more than the PENDING rows, with those that come in, is enough
-- (Workers.Outbox.Backlog.Emptied); the other loops
-- are folds over rows. The client that walks through the pages of a listing
-- (Core.Pagination.Walk) has as many pages as its fuel; one more than the rows is enough. Lists of
-- rows carry no order of their own; queries sort them.
--
-- Libraries are parameters: PyJWT with its JWKS client (Core.Auth.Tokens), AES-GCM, base64, UTF-8
-- and SHA-256 (Core.Crypto, Core.Pagination.Cursors, with their laws in Core.Crypto.Sealed and
-- Core.Pagination.Restored), ISO dates and UUIDs in a cursor (Core.Pagination.Cursors), HMAC and
-- the JSON parser (Api.Webhooks.Rows), urlsplit (Api.Repositories.Urls), str.lower and the text of
-- UUIDs.
--
-- Python's roundings of floating-point numbers (Core.Telemetry.Summary) and its texts of numbers
-- (Core.Telemetry.Exposition) are parameters too.
--
-- Not modelled: the tables and indexes of the schema, which are calls of Alembic, the demonstration
-- scripts, which drive a deployment, the connections to PostgreSQL, Redis and NATS (their answers
-- are parameters), the headers that an HTTPException carries, and the
-- runtime and the web application, which are other programs.
pub mod Prelude
pub mod Models
pub mod Session
pub mod Schemas
pub mod Env
pub mod Core
pub mod Api
pub mod Main
pub mod Workers
pub mod Migrations
pub mod Tests
