-- ===== src/Workers/Outbox.antt =====
-- apps/api/app/workers/outbox_dispatcher.py. The broker's answer to a publication, the rows that
-- other dispatchers hold locked and the clock are parameters. The rows that a batch selects are
-- written back when its transaction commits.
pub mod Backlog
pub mod Delivery
pub mod Lasting
pub mod Loop
pub mod Messages
pub mod Upkeep
use hamicloud.Prelude.{
  [], ◌∷◌, map, is_some, select, ◌*◌, none, delete, ◌^◌, update, not, ltb, leb, ◌==◌, if◌then◌else◌,
  take, true, false, any, ◌||◌, ◌&&◌, count, min, List, ℕ, contains_text, order_by, ◌+◌, String,
  Option, Bool, some,
}
use hamicloud.Models.Records.{OutboxEvent, OutboxStatus, pending, published}
use hamicloud.Models.Tenancy.{Uuid, Time, seconds}

-- What `publish` raises: the classes that the handler tells apart, or another with its text.
pub data PublishError : Type 0 where
  value_error type_error no_stream_response : PublishError
  other_error : String → PublishError

-- The broker's acknowledgement (none), or the exception.
abbrev pub Broker : Type 0
Broker = OutboxEvent → Option PublishError

-- Whether the error concerns the event, not the connection; the text is lowered by `str.lower`.
unfoldable pub is_permanent : (String → String) → PublishError → Bool
unfolding contains_text
is_permanent lower (other_error message) =
    let err = lower message in
    contains_text "no stream" err
    || (contains_text "no responders" err && contains_text "stream" err)
is_permanent lower _ = true

unfoldable pub backoff_seconds : ℕ → ℕ
backoff_seconds retry_count = min 300 (2 ^ min retry_count 8)

abbrev pub retried : Time → OutboxEvent → OutboxEvent
retried now e = record e {
  status = pending;
  retry_count = e.retry_count + 1;
  next_attempt_at = some (now + seconds (backoff_seconds (e.retry_count + 1)));
}

-- The row after one attempt to publish it.
unfoldable pub settle_reply :
    (String → String) → Time → OutboxEvent → Option PublishError → OutboxEvent
unfolding is_permanent backoff_seconds
settle_reply lower now e none = record e { status = published; published_at = some now }
settle_reply lower now e (some exc) =
    if is_permanent lower exc then record e { status = OutboxStatus.failed } else retried now e

unfoldable pub settle : (String → String) → Broker → Time → OutboxEvent → OutboxEvent
unfolding settle_reply
settle lower publish now e = settle_reply lower now e (publish e)

abbrev pub is_pending : OutboxStatus → Bool
is_pending pending = true
is_pending _ = false

abbrev pub is_published : OutboxStatus → Bool
is_published published = true
is_published _ = false

abbrev pub is_failed : OutboxStatus → Bool
is_failed OutboxStatus.failed = true
is_failed _ = false

abbrev pub attempt_due : Time → Option Time → Bool
attempt_due now none = true
attempt_due now (some at) = leb at now

abbrev pub is_due : Time → OutboxEvent → Bool
is_due now e = is_pending e.status && attempt_due now e.next_attempt_at

-- The rows of a batch, oldest first, without those that are locked.
unfoldable pub batch_of : Time → ℕ → (OutboxEvent → Bool) → List OutboxEvent → List OutboxEvent
unfolding order_by
batch_of now limit locked events = take limit (
    order_by (λ (a b : OutboxEvent). ltb a.created_at b.created_at)
      (select (λ e. is_due now e && not (locked e)) events))

abbrev pub in_batch : List OutboxEvent → OutboxEvent → Bool
in_batch batch e = any (λ (b : OutboxEvent). b.id == e.id) batch

abbrev pub drain_row :
    (String → String) → Broker → Time → List OutboxEvent → OutboxEvent → OutboxEvent
drain_row lower publish now batch e = if in_batch batch e then settle lower publish now e else e

-- The number of acknowledged events, and the table.
unfoldable pub drain_batch :
    (String → String)
    → Broker
    → Time
    → ℕ
    → (OutboxEvent → Bool)
    → List OutboxEvent
    → ℕ × List OutboxEvent
unfolding batch_of settle
drain_batch lower publish now limit locked events =
    let batch = batch_of now limit locked events in
    (count (λ e. not (is_some (publish e))) batch, map (drain_row lower publish now batch) events)

-- `published_at < now - retention_days`
abbrev pub is_older : Time → ℕ → Option Time → Bool
is_older now days none = false
is_older now days (some at) = ltb (at + seconds (days * 86400)) now

abbrev pub is_expired : Time → ℕ → OutboxEvent → Bool
is_expired now days e = is_published e.status && is_older now days e.published_at

unfoldable pub purge_expired_outbox_events : Time → ℕ → List OutboxEvent → ℕ × List OutboxEvent
purge_expired_outbox_events now days events =
    (count (is_expired now days) events, delete (is_expired now days) events)

-- An empty list of identifiers names all events.
abbrev pub is_named : List Uuid → OutboxEvent → Bool
is_named [] e = true
is_named (i ∷ is) e = any (λ id. e.event_id == id) (i ∷ is)

abbrev pub requeued : Time → OutboxEvent → OutboxEvent
requeued now e = record e { status = pending; retry_count = 0; next_attempt_at = some now }

unfoldable pub requeue_failed_outbox_events :
    Time → List Uuid → List OutboxEvent → ℕ × List OutboxEvent
requeue_failed_outbox_events now ids events =
    let chosen = λ (e : OutboxEvent). is_failed e.status && is_named ids e in
    (count chosen events, update chosen (requeued now) events)
