-- ===== src/Workers/Outbox/Loop/Kept.antt =====
-- The loop of apps/api/app/workers/outbox_dispatcher.py as changes of the outbox.
use hamicloud.Models.Records.{OutboxEvent}
use hamicloud.Prelude.{
  [], not, inr, ◌&&◌, true, inl, ◌∷◌, All, Bool-cases, is_some, ◌≡◌, List, ℕ, String,
}
use hamicloud.Models.Tenancy.{Uuid}
use hamicloud.Workers.Outbox.Loop.{
  Dispatcher, Round, run_rounds, run_round, scheduled_purge, attempt_batch, purge_due,
}
use hamicloud.Workers.Outbox.Lasting.{Reach, here, next, drained, purged, IsHeld, Reach-IsHeld}

-- The broker does not acknowledge the event in this round.
abbrev pub Refuses : Uuid → Round → Type 0
Refuses event_id r = (e : OutboxEvent) → e.event_id ≡ event_id → is_some (r.publish e) ≡ true

module _ (lower : String → String) (limit : ℕ) (event_id : Uuid) {start : List OutboxEvent} where
  purge-Reach :
      (r : Round) (d : Dispatcher)
      → Reach event_id start d.events
      → Reach event_id start (scheduled_purge r d).events
  unfolding scheduled_purge
  purge-Reach r d before =
      elim (Bool-cases (purge_due r.now d.last_purge_at && not r.purge_raises)) [
        | inl purges ↦ rw purges (next before (purged r.purge_now 7))
        | inr keeps ↦ rw keeps before
      ]

  round-Reach :
      (r : Round) (d : Dispatcher)
      → Refuses event_id r
      → Reach event_id start d.events
      → Reach event_id start (run_round lower limit r d).1.events
  unfolding run_round attempt_batch
  round-Reach r d refuses before =
      let kept = purge-Reach r d before in
      elim (Bool-cases r.batch_raises) [
        | inl raises ↦ rw raises kept
        | inr passes ↦
            rw passes (next kept (drained lower r.publish r.batch_now limit r.locked refuses))
      ]

  run-Reach :
      (rounds : List Round) (d : Dispatcher)
      → All (Refuses event_id) rounds
      → Reach event_id start d.events
      → Reach event_id start (run_rounds lower limit rounds d).events
  unfolding run_rounds
  run-Reach [] d refuse before = before
  run-Reach (r ∷ rs) d (refuses, refuse) before = elim (Bool-cases r.stopped) [
    | inl stops ↦ rw stops before
    | inr goes ↦
        rw goes (run-Reach rs (run_round lower limit r d).1 refuse (round-Reach r d refuses before))
  ]

-- However the rounds of the loop go, purges and batches that raise included, an event that was
-- written and not published, and that the broker acknowledges in none of them, has its row
-- afterwards, once, with its content and not PUBLISHED.
pub run-IsHeld :
    (lower : String → String) (limit : ℕ) (e : OutboxEvent) (rounds : List Round) (d : Dispatcher)
    → All (Refuses e.event_id) rounds
    → IsHeld e d.events
    → IsHeld e (run_rounds lower limit rounds d).events
run-IsHeld lower limit e rounds d refuse held =
    Reach-IsHeld e held (run-Reach lower limit e.event_id rounds d refuse here)
