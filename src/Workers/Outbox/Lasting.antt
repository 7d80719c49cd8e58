-- ===== src/Workers/Outbox/Lasting.antt =====
-- What the outbox keeps while requests, dispatchers, purges and requeues change it: ADR-0002's
-- promise for apps/api/app/workers/outbox_dispatcher.py.
use hamicloud.Workers.Outbox.{
  requeued, is_named, is_expired, is_failed, drain_row, requeue_failed_outbox_events, batch_of,
  purge_expired_outbox_events, is_published, Broker, settle_reply, settle, drain_batch,
}
use hamicloud.Prelude.{
  delete, count-pos, ◌&&◌, ◌==◌, Option-cases, true, is_some, ℕ, inr, false, inl, refl, [],
  Bool-cases, if◌then◌else◌, String, ◌≤◌, arith, some, update, ◌∷◌, first, ◌≡◌, count, List, Bool,
}
use hamicloud.Models.Tenancy.{Time, Uuid}
use hamicloud.Models.Records.{OutboxEvent}
use hamicloud.Prelude.Counted.{first-delete, count-delete-le, count_key-map}
use hamicloud.Workers.Outbox.Delivery.{settle_id, first-map-drain_row, has_id}
use hamicloud.Workers.Outbox.Backlog.{row_id}

-- The changes of the table between commits, of any number of processes, in which the broker does
-- not acknowledge the event `event_id`.
pub data Step (event_id : Uuid) : List OutboxEvent → List OutboxEvent → Type 0 where
  inserted :
      (e : OutboxEvent) {events : List OutboxEvent}
      → count (has_id e.id) events ≡ 0
      → Step event_id events (e ∷ events)
  drained :
      (lower : String → String) (publish : Broker) (now : Time) (limit : ℕ)
      (locked : OutboxEvent → Bool) {events : List OutboxEvent}
      → ((e : OutboxEvent) → e.event_id ≡ event_id → is_some (publish e) ≡ true)
      → Step event_id events (drain_batch lower publish now limit locked events).1
  purged :
      (now : Time) (days : ℕ) {events : List OutboxEvent}
      → Step event_id events (purge_expired_outbox_events now days events).1
  requeued_failed :
      (now : Time) (ids : List Uuid) {events : List OutboxEvent}
      → Step event_id events (requeue_failed_outbox_events now ids events).1

pub data Reach (event_id : Uuid) (start : List OutboxEvent) : List OutboxEvent → Type 0 where
  here : Reach event_id start start
  next :
      {events later : List OutboxEvent}
      → Reach event_id start events
      → Step event_id events later
      → Reach event_id start later

-- The row of an event, still to be published, with the content that it was written with.
pub record IsHeld (e : OutboxEvent) (events : List OutboxEvent) : Type 0 where
  pub row : OutboxEvent
  pub found : first (has_id e.id) events ≡ some row
  pub same_id : row.id ≡ e.id
  pub unique : count (has_id e.id) events ≤ 1
  pub unpublished : is_published row.status ≡ false
  pub same_event : row.event_id ≡ e.event_id
  pub same_workspace : row.workspace_id ≡ e.workspace_id
  pub same_topic : row.topic ≡ e.topic
  pub same_payload : row.payload_json ≡ e.payload_json
  pub same_headers : row.headers_json ≡ e.headers_json

first-update :
    {A : Type 0} (p q : A → Bool) (f : A → A) (xs : List A) (a : A)
    → ((x : A) → p (f x) ≡ p x)
    → first p xs ≡ some a
    → first p (update q f xs) ≡ some (if q a then f a else a)
first-update p q f [] a keeps h = cc
first-update p q f (x ∷ xs) a keeps h = elim (Bool-cases (p x)) [
  | inl hit ↦ let same : x ≡ a = ground arith in ground (arith, keeps x)
  | inr miss ↦ ground (arith, keeps x, first-update p q f xs a keeps)
]

count-update_kept :
    {A : Type 0} (p q : A → Bool) (f : A → A) (xs : List A)
    → ((x : A) → p (f x) ≡ p x)
    → count p (update q f xs) ≡ count p xs
count-update_kept p q f [] keeps = refl
count-update_kept p q f (x ∷ xs) keeps = ground (arith, keeps x, count-update_kept p q f xs keeps)

-- A failed attempt to publish leaves the content, and the row is not PUBLISHED.
module _ (e : OutboxEvent) {events : List OutboxEvent} (held : IsHeld e events) where
  drained-IsHeld :
      (lower : String → String) (publish : Broker) (now : Time) (limit : ℕ)
      (locked : OutboxEvent → Bool)
      → ((x : OutboxEvent) → x.event_id ≡ e.event_id → is_some (publish x) ≡ true)
      → IsHeld e (drain_batch lower publish now limit locked events).1
  unfolding drain_batch settle settle_reply
  drained-IsHeld lower publish now limit locked refused =
      let batch = batch_of now limit locked events in
      let row = held.row in
      let after = drain_row lower publish now batch in
      let no_ack : is_some (publish row) ≡ true = refused row held.same_event in
      let here' = first-map-drain_row lower publish now batch e.id events row held.found in
      let ids =
        count_key-map row_id after e.id events
          (λ x. ground (arith, settle_id lower publish now x)) in
      elim (Option-cases (publish row)) [
        | inl ack ↦ absurd (ground arith)
        | inr (exc, raised) ↦ record {
          row = after row;
          found = here';
          same_id = ground (arith, held.same_id, settle_id lower publish now row);
          unique = omega (arith, held.unique, ids);
          unpublished = ground (arith, held.unpublished);
          same_event = ground (arith, held.same_event);
          same_workspace = ground (arith, held.same_workspace);
          same_topic = ground (arith, held.same_topic);
          same_payload = ground (arith, held.same_payload);
          same_headers = ground (arith, held.same_headers);
        }
      ]

  same_row :
      (later : List OutboxEvent)
      → first (has_id e.id) later ≡ some held.row
      → count (has_id e.id) later ≤ 1
      → IsHeld e later
  same_row later found unique = record {
    row = held.row;
    found = found;
    same_id = held.same_id;
    unique = unique;
    unpublished = held.unpublished;
    same_event = held.same_event;
    same_workspace = held.same_workspace;
    same_topic = held.same_topic;
    same_payload = held.same_payload;
    same_headers = held.same_headers;
  }

  purged-IsHeld : (now : Time) (days : ℕ) → IsHeld e (purge_expired_outbox_events now days events).1
  unfolding purge_expired_outbox_events
  purged-IsHeld now days =
      same_row (delete (is_expired now days) events)
        (first-delete (has_id e.id) (is_expired now days) events held.row held.found
          (ground (arith, held.unpublished)))
        (omega (arith, held.unique, count-delete-le (has_id e.id) (is_expired now days) events))

  requeued-IsHeld :
      (now : Time) (ids : List Uuid) → IsHeld e (requeue_failed_outbox_events now ids events).1
  unfolding requeue_failed_outbox_events
  requeued-IsHeld now ids =
      let chosen : OutboxEvent → Bool = λ x. is_failed x.status && is_named ids x in
      let row = held.row in
      record {
        row = if chosen row then requeued now row else row;
        found = first-update (has_id e.id) chosen (requeued now) events row (λ x. refl) held.found;
        same_id = ground (arith, held.same_id);
        unique = omega (
          arith,
          held.unique,
          count-update_kept (has_id e.id) chosen (requeued now) events (λ x. refl),
        );
        unpublished = ground (arith, held.unpublished);
        same_event = ground (arith, held.same_event);
        same_workspace = ground (arith, held.same_workspace);
        same_topic = ground (arith, held.same_topic);
        same_payload = ground (arith, held.same_payload);
        same_headers = ground (arith, held.same_headers);
      }

  inserted-IsHeld : (x : OutboxEvent) → count (has_id x.id) events ≡ 0 → IsHeld e (x ∷ events)
  inserted-IsHeld x fresh =
      let other : (x.id == e.id) ≡ false = elim (Bool-cases (x.id == e.id)) [
        | inl same ↦
            let e' : x.id ≡ e.id = ground arith in
            absurd (ground (arith, e', count-pos (has_id x.id) events held.row (rw e' held.found)))
        | inr differs ↦ differs
      ] in
      same_row (x ∷ events) (ground (arith, held.found)) (ground (arith, held.unique))

Step-IsHeld :
    (e : OutboxEvent) {events later : List OutboxEvent}
    → Step e.event_id events later
    → IsHeld e events
    → IsHeld e later
Step-IsHeld e (inserted x fresh) held = inserted-IsHeld e held x fresh
Step-IsHeld e (drained lower publish now limit locked refused) held =
    drained-IsHeld e held lower publish now limit locked refused
Step-IsHeld e (purged now days) held = purged-IsHeld e held now days
Step-IsHeld e (requeued_failed now ids) held = requeued-IsHeld e held now ids

-- An event that was written and not published, and that the broker never acknowledges, is never
-- lost: after any changes of the outbox by new events of other identifiers, batches of any
-- dispatchers, purges of any retention and requeues, its row is still there, once and not PUBLISHED,
-- with its content.
pub Reach-IsHeld :
    (e : OutboxEvent) {start events : List OutboxEvent}
    → IsHeld e start
    → Reach e.event_id start events
    → IsHeld e events
Reach-IsHeld e held here = held
Reach-IsHeld e held (next before step) = Step-IsHeld e step (Reach-IsHeld e held before)
