-- ===== src/Workers/Outbox/Upkeep.antt =====
-- The purge and the requeue of apps/api/app/workers/outbox_dispatcher.py.
use hamicloud.Models.Records.{OutboxEvent}
use hamicloud.Prelude.{
  refl, true, leb, arith, count, ◌∷◌, false, length, ◌&&◌, ◌+◌, [], not, select, ◌≡◌, any, Bool,
  List, ℕ,
}
use hamicloud.Workers.Outbox.{
  is_due, is_older, is_published, is_failed, requeue_failed_outbox_events,
  purge_expired_outbox_events,
}
use hamicloud.Models.Tenancy.{Time}

-- A row that a purge must leave: not published, or published no longer ago than the retention.
abbrev pub is_kept : Time → ℕ → OutboxEvent → Bool
is_kept now days e = not (is_published e.status && is_older now days e.published_at)

-- A purge leaves exactly the rows that are not published or were published within the retention, in
-- their order, and counts the others.
pub purge_keeps :
    (now : Time) (days : ℕ) (events : List OutboxEvent)
    → ((purge_expired_outbox_events now days events).1 ≡ select (is_kept now days) events)
      × ((purge_expired_outbox_events now days events).0
            + length (purge_expired_outbox_events now days events).1
          ≡ length events)
unfolding purge_expired_outbox_events
purge_keeps now days [] = (refl, refl)
purge_keeps now days (e ∷ es) = let ih = purge_keeps now days es in (ground arith, ground arith)

-- A requeue without a list of events leaves no FAILED row, and makes as many rows due as it counts.
pub requeue_revives :
    (now : Time) (events : List OutboxEvent)
    → (any (λ e. is_failed e.status) (requeue_failed_outbox_events now [] events).1 ≡ false)
      × (count (is_due now) (requeue_failed_outbox_events now [] events).1
          ≡ count (is_due now) events + (requeue_failed_outbox_events now [] events).0)
unfolding requeue_failed_outbox_events
requeue_revives now [] = (refl, refl)
requeue_revives now (e ∷ es) =
    let ih = requeue_revives now es in
    let reflexive : leb now now ≡ true = ground arith in (ground arith, ground arith)
