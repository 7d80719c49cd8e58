-- ===== src/Tests/Outbox.antt =====
-- The theorems on the dispatcher's rounds and messages, at small concrete data.
use hamicloud.Workers.Outbox.Messages.Traced.{event-Traced}
use hamicloud.Core.Events.{create_outbox_event}
use hamicloud.Env.{Env}
use hamicloud.Workers.Outbox.Messages.{header_of, nats_message}
use hamicloud.Main.Errors.{RequestState}
use hamicloud.Main.Tracing.{trace_context_of}
use hamicloud.Workers.Outbox.Backlog.Emptied.{Arrivals, total, backlog_emptied, busy_ends}
use hamicloud.Workers.Outbox.Backlog.{waits, row_id}
use hamicloud.Models.Records.{cancellation, job_submitted, OutboxEvent}
use hamicloud.Workers.Outbox.Lasting.{drained, purged, here, next, Reach-IsHeld, Reach, IsHeld}
use hamicloud.Workers.Outbox.Loop.{run_busy, Round, Dispatcher}
use hamicloud.Prelude.{
  zero, inr, inl, ◌==◌, if◌then◌else◌, Bool-cases, ◌⊎◌, suc, true, count, arith, false, ◌<◌, List,
  none, [], ◌≡◌, ◌∷◌, ◌+◌, some, ℕ, refl,
}
use hamicloud.Prelude.Counted.{DistinctKeys}
use hamicloud.Tests.Data.{waiting, test_env}
use hamicloud.Workers.Outbox.{is_due, purge_expired_outbox_events, drain_batch, other_error}

abbrev later : OutboxEvent
later = record waiting { id = 41; event_id = 61; created_at = 3 }

abbrev outbox : Dispatcher
outbox = record { events = waiting ∷ later ∷ []; last_purge_at = none }

-- Rounds with a broker that acknowledges everything.
abbrev good_round : ℕ → Round
good_round k = record {
  now = 9_000_000 + k;
  purge_now = 9_000_000 + k;
  batch_now = 9_000_000 + k;
  publish = λ e. none;
  locked = λ e. false;
  purge_raises = false;
  batch_raises = false;
  stopped = false;
}

-- A round whose broker is away.
abbrev bad_round : Round
bad_round = record (good_round 0) { publish = λ e. some (other_error "connection lost") }

outbox-Distinct : DistinctKeys row_id (outbox.events)
outbox-Distinct = (refl, (refl, tt))

-- One request commits an event between the rounds 0 and 1.
abbrev newest : OutboxEvent
newest = record waiting { id = 42; event_id = 62; created_at = 4 }

abbrev one_comes : ℕ → List OutboxEvent → List OutboxEvent
one_comes (suc zero) xs = if count (λ x. row_id x == 42) xs == 0 then newest ∷ xs else xs
one_comes k xs = xs

abbrev one_more : ℕ → ℕ
one_more (suc zero) = 1
one_more k = 0

one_comes-Arrivals : Arrivals one_comes one_more
one_comes-Arrivals zero xs h = (h, omega arith)
one_comes-Arrivals (suc zero) xs h = elim (Bool-cases (count (λ x. row_id x == 42) xs == 0)) [
  | inl free ↦ rw free ((ground arith, h), omega arith)
  | inr taken ↦ rw taken (h, omega arith)
]
one_comes-Arrivals (suc (suc k)) xs h = (h, omega arith)

within : count waits (outbox.events) + total one_more 0 4 < 4
unfolding total
within = omega arith

busy_ends_example :
    (j : ℕ) × (d : Dispatcher) × (run_busy (λ s. s) 1 good_round one_comes 4 0 outbox ≡ some (j, d))
    × (j < 0 + 4)
busy_ends_example =
    busy_ends (λ s. s) 1 good_round one_comes one_more 4 0 outbox one_comes-Arrivals outbox-Distinct
      within

backlog_emptied_example :
    (j : ℕ) × (d : Dispatcher) × (run_busy (λ s. s) 1 good_round one_comes 4 0 outbox ≡ some (j, d))
    × (((good_round j).stopped ≡ true) ⊎ (count (is_due (good_round j).batch_now) d.events ≡ 0))
backlog_emptied_example =
    backlog_emptied (λ s. s) 1 good_round one_comes one_more 4 0 outbox one_comes-Arrivals
      outbox-Distinct within (omega arith) (λ k x. refl) (λ k x. refl) (λ k. refl)

waiting-IsHeld : IsHeld waiting (waiting ∷ later ∷ [])
waiting-IsHeld = record {
  row = waiting;
  found = refl;
  same_id = refl;
  unique = omega arith;
  unpublished = refl;
  same_event = refl;
  same_workspace = refl;
  same_topic = refl;
  same_payload = refl;
  same_headers = refl;
}

-- A purge, then a batch that the broker does not take.
unfoldable two_steps : List OutboxEvent
unfolding drain_batch purge_expired_outbox_events
two_steps =
    (drain_batch (λ s. s) bad_round.publish 9_000_000 50 (λ e. false)
      (purge_expired_outbox_events 9_000_000 7 (waiting ∷ later ∷ [])).1).1

outbox-Reach : Reach 41 (waiting ∷ later ∷ []) two_steps
unfolding two_steps
outbox-Reach =
    next (next here (purged 9_000_000 7))
      (drained (λ s. s) bad_round.publish 9_000_000 50 (λ e. false) (λ e h. refl))

Reach-IsHeld_example : IsHeld waiting two_steps
Reach-IsHeld_example = Reach-IsHeld waiting waiting-IsHeld outbox-Reach

abbrev request : RequestState
request = record { correlation_id = "req_1"; trace_id = "abc"; traceparent = "00-abc-d-01" }

abbrev traced_env : Env
unfolding trace_context_of
traced_env = record test_env { trace_context = trace_context_of request }

event-Traced_example :
    let m =
      nats_message
        (λ id. "id")
        (λ n. "1")
        (create_outbox_event traced_env 0 1 job_submitted
          (cancellation 20)
          (("idempotency_key", "k") ∷ [])
          7) in
    (header_of "Nats-Msg-Id" m.headers ≡ some "id")
    × (header_of "correlation_id" m.headers ≡ some "req_1")
    × (header_of "trace_id" m.headers ≡ some "abc")
    × (header_of "traceparent" m.headers ≡ some "00-abc-d-01")
unfolding trace_context_of
event-Traced_example =
    event-Traced (λ id. "id") (λ n. "1") traced_env 0 1 job_submitted (cancellation 20)
      (("idempotency_key", "k") ∷ []) 7 request refl (refl, refl, refl, refl)
