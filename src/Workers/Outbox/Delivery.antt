-- ===== src/Workers/Outbox/Delivery.antt =====
-- What the dispatcher of apps/api/app/workers/outbox_dispatcher.py does to the outbox.
use hamicloud.Prelude.{
  inr, is_some, [], inl, Bool-cases, count_all, ◌∷◌, map, Option, none, length, ◌⊎◌, any, ap,
  length-select, length-order_by, any-take, any-order_by, take_all, any-select, select, ◌∙◌,
  order_by, take, any_at_key, ltb, sym, not, ◌&&◌, true, first, count, List, ◌==◌, Bool, some, ◌≡◌,
  arith, String, ◌≤◌, ℕ,
}
use hamicloud.Workers.Outbox.{
  Broker, settle, settle_reply, is_due, batch_of, in_batch, drain_row, drain_batch,
}
use hamicloud.Models.Records.{OutboxEvent, published}
use hamicloud.Models.Tenancy.{Uuid, Time}

abbrev pub has_id : Uuid → OutboxEvent → Bool
has_id id e = e.id == id

pub settle_id :
    (lower : String → String) (publish : Broker) (now : Time) (e : OutboxEvent)
    → (settle lower publish now e).id ≡ e.id
unfolding settle settle_reply
settle_id lower publish now e = ground arith

pub first-map-drain_row :
    (lower : String → String) (publish : Broker) (now : Time) (batch : List OutboxEvent) (id : Uuid)
    (events : List OutboxEvent) (e : OutboxEvent)
    → first (has_id id) events ≡ some e
    → first (has_id id) (map (drain_row lower publish now batch) events)
      ≡ some (drain_row lower publish now batch e)
first-map-drain_row lower publish now batch id [] e h = cc
first-map-drain_row lower publish now batch id (x ∷ xs) e h =
    ground
      (arith, settle_id lower publish now x, first-map-drain_row lower publish now batch id xs e)

module _ (now : Time) (limit : ℕ) (locked : OutboxEvent → Bool) (events : List OutboxEvent) where
  -- A batch takes a row only if it is due and not locked.
  pub batch_due :
      (e : OutboxEvent)
      → first (has_id e.id) events ≡ some e
      → count (has_id e.id) events ≤ 1
      → in_batch (batch_of now limit locked events) e ≡ true
      → (is_due now e && not (locked e)) ≡ true
  unfolding batch_of
  batch_due e found unique h =
      sym (any_at_key (has_id e.id) (λ b. is_due now b && not (locked b)) events e found unique)
      ∙ sym (any-select (has_id e.id) (λ b. is_due now b && not (locked b)) events)
      ∙ sym (
          any-order_by (has_id e.id) (λ (a b : OutboxEvent). ltb a.created_at b.created_at)
            (select (λ b. is_due now b && not (locked b)) events))
      ∙ any-take (has_id e.id) limit
          (order_by (λ (a b : OutboxEvent). ltb a.created_at b.created_at)
            (select (λ b. is_due now b && not (locked b)) events))
          h

  -- A batch with room takes every row that is due and not locked.
  batch_takes :
      (e : OutboxEvent)
      → count (λ b. is_due now b && not (locked b)) events ≤ limit
      → first (has_id e.id) events ≡ some e
      → count (has_id e.id) events ≤ 1
      → (is_due now e && not (locked e)) ≡ true
      → in_batch (batch_of now limit locked events) e ≡ true
  unfolding batch_of
  batch_takes e room found unique h =
      let due : OutboxEvent → Bool = λ b. is_due now b && not (locked b) in
      let older : OutboxEvent → OutboxEvent → Bool = λ a b. ltb a.created_at b.created_at in
      let all : take limit (order_by older (select due events))
          ≡ order_by older (select due events) =
        take_all limit (order_by older (select due events))
          (omega (arith, length-order_by older (select due events), length-select due events)) in
      ap (any (has_id e.id)) all
      ∙ any-order_by (has_id e.id) older (select due events)
      ∙ any-select (has_id e.id) due events
      ∙ any_at_key (has_id e.id) due events e found unique
      ∙ h

pub batch_size :
    (now : Time) (limit : ℕ) (locked : OutboxEvent → Bool) (events : List OutboxEvent)
    → count (λ b. is_due now b && not (locked b)) events ≤ limit
    → length (batch_of now limit locked events) ≡ count (λ b. is_due now b && not (locked b)) events
unfolding batch_of
batch_size now limit locked events room =
    let due : OutboxEvent → Bool = λ b. is_due now b && not (locked b) in
    let older : OutboxEvent → OutboxEvent → Bool = λ a b. ltb a.created_at b.created_at in
    rw
      (take_all limit (order_by older (select due events))
        (omega (arith, length-order_by older (select due events), length-select due events)))
      (length-order_by older (select due events) ∙ length-select due events)

module _ (lower : String → String) (publish : Broker) where
  -- The row of the identifier `id` before and after a batch.
  abbrev pub row_after :
      Time → ℕ → (OutboxEvent → Bool) → List OutboxEvent → Uuid → Option OutboxEvent
  row_after now limit locked events id =
      first (has_id id) (drain_batch lower publish now limit locked events).1

  -- A batch of any size changes a row only by one attempt to publish it, and only if the row is
  -- PENDING, its next attempt is due and no other dispatcher holds it; no row is lost. Identifiers
  -- are unique.
  pub drain_touches_due :
      (now : Time) (limit : ℕ) (locked : OutboxEvent → Bool) (events : List OutboxEvent)
      (e : OutboxEvent)
      → first (has_id e.id) events ≡ some e
      → count (has_id e.id) events ≤ 1
      → (row_after now limit locked events e.id ≡ some e)
        ⊎ ((row_after now limit locked events e.id ≡ some (settle lower publish now e))
            × ((is_due now e && not (locked e)) ≡ true))
  unfolding drain_batch
  drain_touches_due now limit locked events e found unique =
      let batch = batch_of now limit locked events in
      let after = first-map-drain_row lower publish now batch e.id events e found in
      elim (Bool-cases (in_batch batch e)) [
        | inl taken ↦ inr (ground arith, batch_due now limit locked events e found unique taken)
        | inr left ↦ inl (ground arith)
      ]

  -- A batch with room for all the rows that are due and not held by another dispatcher publishes
  -- each of them, if the broker acknowledges every event, and counts them. The row's identifier is
  -- unique.
  pub drain_publishes :
      (now : Time) (limit : ℕ) (locked : OutboxEvent → Bool) (events : List OutboxEvent)
      (e : OutboxEvent)
      → ((x : OutboxEvent) → publish x ≡ none)
      → count (λ b. is_due now b && not (locked b)) events ≤ limit
      → first (has_id e.id) events ≡ some e
      → count (has_id e.id) events ≤ 1
      → (is_due now e && not (locked e)) ≡ true
      → ((drain_batch lower publish now limit locked events).0
          ≡ count (λ b. is_due now b && not (locked b)) events)
        × (row_after now limit locked events e.id
            ≡ some (record e { status = published; published_at = some now }))
  unfolding drain_batch settle settle_reply
  drain_publishes now limit locked events e acks room found unique due = (
    count_all (λ x. not (is_some (publish x))) (batch_of now limit locked events) (λ x. rw (acks x))
        ∙ batch_size now limit locked events room,
    let batch = batch_of now limit locked events in
        let after = first-map-drain_row lower publish now batch e.id events e found in
        let taken = batch_takes now limit locked events e room found unique due in
        ground (arith, acks e),
  )
