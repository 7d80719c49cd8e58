-- ===== src/Workers/Outbox/Backlog.antt =====
-- What a batch of the dispatcher of apps/api/app/workers/outbox_dispatcher.py takes off the backlog.
pub mod Emptied
use hamicloud.Models.Tenancy.{Time}
use hamicloud.Workers.Outbox.{
  is_due, in_batch, settle_reply, drain_batch, settle, is_pending, drain_row, batch_of, Broker,
}
use hamicloud.Models.Records.{OutboxEvent}
use hamicloud.Prelude.{
  ◌<◌, count, any-take, any-order_by, ◌∙◌, any-select, sym, select, order_by, ltb, inr,
  Option-cases, arith, inl, Bool-cases, false, ◌&&◌, [], ◌∷◌, ◌≤◌, true, is_some, All, not, ◌≡◌,
  Bool, any, ℕ, List, String,
}
use hamicloud.Prelude.Counted.{
  Shrinks, count-map-le, count-map-lt, any_mono, All-every, All-map2, any-count, DistinctKeys,
  Located, DistinctKeys-Located, DistinctKeys-map, DistinctKeys-delete, count-delete-le,
}
use hamicloud.Workers.Outbox.Delivery.{batch_due, settle_id, batch_size, has_id}

abbrev pub row_id : OutboxEvent → ℕ
row_id e = e.id

abbrev pub waits : OutboxEvent → Bool
waits e = is_pending e.status

abbrev acked : Broker → OutboxEvent → Bool
acked publish e = not (is_some (publish e))

All-in_batch :
    (batch xs : List OutboxEvent)
    → ((x : OutboxEvent) → any (has_id x.id) xs ≡ true → any (has_id x.id) batch ≡ true)
    → All (λ x. in_batch batch x ≡ true) xs
All-in_batch batch [] f = tt
All-in_batch batch (x ∷ xs) f =
    (f x (ground arith), All-in_batch batch xs (λ y h. f y (ground arith)))

-- A row that waits after a batch waited before.
module _ (lower : String → String) (publish : Broker) (now : Time) (limit : ℕ)
    (locked : OutboxEvent → Bool) (events : List OutboxEvent) where
  abbrev batch : List OutboxEvent
  batch = batch_of now limit locked events

  abbrev after : OutboxEvent → OutboxEvent
  after = drain_row lower publish now batch

  row_shrinks :
      (x : OutboxEvent) → Located row_id events x → waits (after x) ≡ true → waits x ≡ true
  row_shrinks x (found, unique) h = elim (Bool-cases (in_batch batch x)) [
    | inl taken ↦ ground (arith, batch_due now limit locked events x found unique taken)
    | inr left ↦ ground arith
  ]

  shrinks : (xs : List OutboxEvent) → All (Located row_id events) xs → Shrinks waits after xs
  shrinks [] h = tt
  shrinks (x ∷ xs) (h, hs) = (row_shrinks x h, shrinks xs hs)

  settled_acked :
      (x : OutboxEvent) → acked publish x ≡ true → waits (settle lower publish now x) ≡ false
  unfolding settle settle_reply
  settled_acked x h = elim (Option-cases (publish x)) [
    | inl ack ↦ ground arith
    | inr (exc, raised) ↦ ground arith
  ]

  -- Some row that waited was published.
  published_one :
      1 ≤ (drain_batch lower publish now limit locked events).0
      → any (λ x. waits x && not (waits (after x))) events ≡ true
  unfolding drain_batch batch_of
  published_one some_acked =
      let due : OutboxEvent → Bool = λ b. is_due now b && not (locked b) in
      let older : OutboxEvent → OutboxEvent → Bool = λ a b. ltb a.created_at b.created_at in
      let sorted = order_by older (select due events) in
      let mine : OutboxEvent → Bool = λ x. acked publish x && in_batch batch x in
      let in_batch' : any mine batch ≡ true =
        any_mono (acked publish) mine batch
          (All-map2 (λ x. in_batch batch x ≡ true) (λ x. acked publish x ≡ true → mine x ≡ true)
            batch (λ x i a. ground arith) (All-in_batch batch batch (λ x i. i)))
          (any-count (acked publish) batch some_acked) in
      let in_table : any (λ x. due x && mine x) events ≡ true =
        sym (any-select mine due events)
        ∙ sym (any-order_by mine older (select due events))
        ∙ any-take mine limit sorted in_batch' in
      any_mono (λ x. due x && mine x) (λ x. waits x && not (waits (after x))) events
        (All-every _ events (λ x h. ground (arith, settled_acked x))) in_table

  pub batch_drains :
      DistinctKeys row_id events
      → 1 ≤ (drain_batch lower publish now limit locked events).0
      → count waits (drain_batch lower publish now limit locked events).1 < count waits events
  unfolding drain_batch
  batch_drains distinct some_acked =
      count-map-lt waits after events (shrinks events (DistinctKeys-Located row_id events distinct))
        (published_one some_acked)

  pub batch-Distinct :
      DistinctKeys row_id events
      → DistinctKeys row_id (drain_batch lower publish now limit locked events).1
  unfolding drain_batch
  batch-Distinct distinct = DistinctKeys-map row_id after events keeps_id distinct
    where
      keeps_id : (x : OutboxEvent) → (after x).id ≡ x.id
      keeps_id x = ground (arith, settle_id lower publish now x)
