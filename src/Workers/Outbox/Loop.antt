-- ===== src/Workers/Outbox/Loop.antt =====
-- `OutboxDispatcher.run` of apps/api/app/workers/outbox_dispatcher.py, after its connection stands.
-- The wait between two rounds changes no state and is left out.
pub mod Kept
use hamicloud.Models.Records.{OutboxEvent}
use hamicloud.Models.Tenancy.{seconds, Time}
use hamicloud.Prelude.{
  zero, ◌==◌, leb, ◌+◌, some, true, [], suc, Bool, none, ◌∷◌, not, ◌&&◌, ℕ, Option, List,
  if◌then◌else◌, String,
}
use hamicloud.Workers.Outbox.{purge_expired_outbox_events, drain_batch, Broker}

-- The dispatcher between two rounds: the table and the time of the last purge.
pub record Dispatcher : Type 0 where
  pub events : List OutboxEvent
  pub last_purge_at : Option Time

-- What happens around a round: the times that are read, the broker's answers, the rows that other
-- dispatchers hold, whether the purge or the batch raises, which rolls its transaction back, and
-- whether the stop event is set when the round begins.
pub record Round : Type 0 where
  pub now : Time
  pub purge_now : Time
  pub batch_now : Time
  pub publish : Broker
  pub locked : OutboxEvent → Bool
  pub purge_raises : Bool
  pub batch_raises : Bool
  pub stopped : Bool

abbrev pub purge_due : Time → Option Time → Bool
purge_due now none = true
purge_due now (some at) = leb (at + seconds 86400) now

-- The daily purge; after an error the next round tries again.
unfoldable pub scheduled_purge : Round → Dispatcher → Dispatcher
unfolding purge_expired_outbox_events
scheduled_purge r d =
    if purge_due r.now d.last_purge_at && not r.purge_raises
    then record {
      events = (purge_expired_outbox_events r.purge_now 7 d.events).1;
      last_purge_at = some r.now;
    }
    else d

unfoldable pub attempt_batch :
    (String → String) → ℕ → Round → List OutboxEvent → ℕ × List OutboxEvent
unfolding drain_batch
attempt_batch lower limit r events =
    if r.batch_raises
    then (0, events)
    else drain_batch lower r.publish r.batch_now limit r.locked events

-- One round: the purge, then a batch; the number of events that it published.
unfoldable pub run_round : (String → String) → ℕ → Round → Dispatcher → ℕ × Dispatcher
unfolding scheduled_purge attempt_batch
run_round lower limit r d =
    let kept = scheduled_purge r d in
    let (n, events) = attempt_batch lower limit r kept.events in
    (n, record kept { events = events })

-- The loop over the rounds that the environment brings. Nothing else writes between them here.
unfoldable pub run_rounds : (String → String) → ℕ → List Round → Dispatcher → Dispatcher
unfolding run_round
run_rounds lower limit [] d = d
run_rounds lower limit (r ∷ rs) d =
    let rest = run_rounds lower limit rs (run_round lower limit r d).1 in
    if r.stopped then d else rest

-- The rounds that follow each other without a wait, from the ith on: before each the stop event is
-- tested, and `others` is what requests, requeues and other dispatchers have done to the table since
-- the one before. They end with the number of the round that found the stop event set or that
-- published nothing, and the state then. None: out of fuel.
unfoldable pub run_busy :
    (String → String)
    → ℕ
    → (ℕ → Round)
    → (ℕ → List OutboxEvent → List OutboxEvent)
    → ℕ
    → ℕ
    → Dispatcher
    → Option (ℕ × Dispatcher)
unfolding run_round
run_busy lower limit rounds others zero i d = none
run_busy lower limit rounds others (suc fuel) i d =
    let changed = record d { events = others i d.events } in
    let (drained, after) = run_round lower limit (rounds i) changed in
    let rest = run_busy lower limit rounds others fuel (i + 1) after in
    if (rounds i).stopped then some (i, d) else if drained == 0 then some (i, after) else rest
