-- ===== src/Workers/Outbox/Backlog/Emptied.antt =====
-- How long the dispatcher of apps/api/app/workers/outbox_dispatcher.py goes on without a wait.
use hamicloud.Models.Tenancy.{Time}
use hamicloud.Models.Records.{OutboxEvent}
use hamicloud.Workers.Outbox.{
  drain_row, is_due, Broker, batch_of, drain_batch, is_expired, purge_expired_outbox_events,
}
use hamicloud.Prelude.{
  ◌⊎◌, true, refl, length-order_by, length-select, count-congr, ◌∙◌, is_some, count_all, sym,
  select, ltb, order_by, ap, map, [], ◌∷◌, take, length, List, Bool, false, none, zero, ◌==◌, suc,
  ◌+◌, not, some, ◌&&◌, ◌≡◌, inr, ◌<◌, inl, arith, count, Bool-cases, ◌≤◌, ℕ, String,
}
use hamicloud.Prelude.Counted.{DistinctKeys, DistinctKeys-delete, count-delete-le}
use hamicloud.Workers.Outbox.Backlog.{batch_drains, batch-Distinct, row_id, waits}
use hamicloud.Workers.Outbox.Loop.{
  purge_due, Round, Dispatcher, run_round, run_busy, scheduled_purge, attempt_batch,
}

-- What other transactions do between the rounds keeps identifiers unique, and brings at most so many
-- PENDING rows before the kth.
abbrev pub Arrivals : (ℕ → List OutboxEvent → List OutboxEvent) → (ℕ → ℕ) → Type 0
Arrivals others adds =
    (k : ℕ) (xs : List OutboxEvent)
    → DistinctKeys row_id xs
    → DistinctKeys row_id (others k xs) × (count waits (others k xs) ≤ count waits xs + adds k)

-- The PENDING rows that come in before so many rounds, from the ith on.
unfoldable pub total : (ℕ → ℕ) → ℕ → ℕ → ℕ
total adds i zero = 0
total adds i (suc rounds) = adds i + total adds (i + 1) rounds

module _ (lower : String → String) (limit : ℕ) where
  purged-Distinct :
      (r : Round) (d : Dispatcher)
      → DistinctKeys row_id d.events
      → DistinctKeys row_id (scheduled_purge r d).events
  unfolding scheduled_purge purge_expired_outbox_events
  purged-Distinct r d distinct =
      elim (Bool-cases (purge_due r.now d.last_purge_at && not r.purge_raises)) [
        | inl purges ↦
            rw purges (DistinctKeys-delete row_id (is_expired r.purge_now 7) d.events distinct)
        | inr keeps ↦ rw keeps distinct
      ]

  purged_waits :
      (r : Round) (d : Dispatcher) → count waits (scheduled_purge r d).events ≤ count waits d.events
  unfolding scheduled_purge purge_expired_outbox_events
  purged_waits r d = ground (arith, count-delete-le waits (is_expired r.purge_now 7) d.events)

  round-Distinct :
      (r : Round) (d : Dispatcher)
      → DistinctKeys row_id d.events
      → DistinctKeys row_id (run_round lower limit r d).1.events
  unfolding run_round attempt_batch
  round-Distinct r d distinct =
      let kept = purged-Distinct r d distinct in
      elim (Bool-cases r.batch_raises) [
        | inl raises ↦ rw raises kept
        | inr passes ↦ rw passes (
            batch-Distinct lower r.publish r.batch_now limit r.locked (scheduled_purge r d).events
              kept)
      ]

  round_drains :
      (r : Round) (d : Dispatcher)
      → DistinctKeys row_id d.events
      → 1 ≤ (run_round lower limit r d).0
      → count waits (run_round lower limit r d).1.events < count waits d.events
  unfolding run_round attempt_batch
  round_drains r d distinct drained = elim (Bool-cases r.batch_raises) [
    | inl raises ↦ absurd (ground arith)
    | inr passes ↦ ground (
      arith,
      purged_waits r d,
      batch_drains lower r.publish r.batch_now limit r.locked (scheduled_purge r d).events
          (purged-Distinct r d distinct),
    )
  ]

  -- Where rows' identifiers are unique, whatever the brokers answer, the clocks say, other
  -- dispatchers hold and errors come up, the rounds that follow each other without a wait end, by a
  -- stop or by a round that publishes nothing, within a number of rounds that is greater than the
  -- PENDING rows at their start with those that come in before so many rounds.
  pub busy_ends :
      (rounds : ℕ → Round) (others : ℕ → List OutboxEvent → List OutboxEvent) (adds : ℕ → ℕ)
      (fuel i : ℕ) (d : Dispatcher)
      → Arrivals others adds
      → DistinctKeys row_id d.events
      → count waits d.events + total adds i fuel < fuel
      → (j : ℕ) × (d' : Dispatcher) × (run_busy lower limit rounds others fuel i d ≡ some (j, d'))
        × (j < i + fuel)
  unfolding run_busy total
  busy_ends rounds others adds zero i d come distinct enough = absurd (omega arith)
  busy_ends rounds others adds (suc fuel) i d come distinct enough =
      let changed : Dispatcher = record d { events = others i d.events } in
      let (distinct', more_waits) = come i d.events distinct in
      let after = (run_round lower limit (rounds i) changed).1 in
      elim (Bool-cases (rounds i).stopped) [
        | inl stops ↦ (i, d, ground arith, omega arith)
        | inr goes ↦ elim (Bool-cases ((run_round lower limit (rounds i) changed).0 == 0)) [
          | inl idle ↦ (i, after, ground arith, omega arith)
          | inr more ↦
              let fewer = round_drains (rounds i) changed distinct' (ground arith) in
              let (j, d', ended, within) =
                busy_ends rounds others adds fuel (i + 1) after come
                  (round-Distinct (rounds i) changed distinct') (omega arith) in
              (j, d', ground arith, omega arith)
        ]
      ]

  idle_empties :
      (publish : Broker) (now : Time) (locked : OutboxEvent → Bool) (events : List OutboxEvent)
      → 1 ≤ limit
      → ((x : OutboxEvent) → publish x ≡ none)
      → ((x : OutboxEvent) → locked x ≡ false)
      → (drain_batch lower publish now limit locked events).0 ≡ 0
      → (count (is_due now) events ≡ 0)
        × ((drain_batch lower publish now limit locked events).1 ≡ events)
  unfolding drain_batch batch_of
  idle_empties publish now locked events room acks free idle =
      let due : OutboxEvent → Bool = λ b. is_due now b && not (locked b) in
      let sorted =
        order_by (λ (a b : OutboxEvent). ltb a.created_at b.created_at) (select due events) in
      let no_batch : length (take limit sorted) ≡ 0 =
        sym (count_all (λ x. not (is_some (publish x))) (take limit sorted) (λ x. rw (acks x)))
        ∙ idle in
      let none_due : count (is_due now) events ≡ 0 =
        count-congr (is_due now) due events (λ x. ground (arith, free x))
        ∙ sym (length-select due events)
        ∙ sym (
            length-order_by (λ (a b : OutboxEvent). ltb a.created_at b.created_at)
              (select due events))
        ∙ take_nothing limit sorted room no_batch in
      (none_due, rw (length-eq_zero (take limit sorted) no_batch) (map_same events))
    where
      take_nothing :
          (n : ℕ) (xs : List OutboxEvent) → 1 ≤ n → length (take n xs) ≡ 0 → length xs ≡ 0
      take_nothing zero xs h e = absurd (omega arith)
      take_nothing (suc n) [] h e = refl
      take_nothing (suc n) (x ∷ xs) h e = absurd (omega arith)

      length-eq_zero : (xs : List OutboxEvent) → length xs ≡ 0 → xs ≡ []
      length-eq_zero [] h = refl
      length-eq_zero (x ∷ xs) h = absurd (omega arith)

      map_same : (xs : List OutboxEvent) → map (drain_row lower publish now []) xs ≡ xs
      map_same [] = refl
      map_same (x ∷ xs) = ap (λ l. x ∷ l) (map_same xs)

  round_empties :
      (r : Round) (d : Dispatcher)
      → 1 ≤ limit
      → ((x : OutboxEvent) → r.publish x ≡ none)
      → ((x : OutboxEvent) → r.locked x ≡ false)
      → r.batch_raises ≡ false
      → (run_round lower limit r d).0 ≡ 0
      → count (is_due r.batch_now) (run_round lower limit r d).1.events ≡ 0
  unfolding run_round attempt_batch
  round_empties r d room acks free fine idle =
      let events = (scheduled_purge r d).events in
      let idle' : (drain_batch lower r.publish r.batch_now limit r.locked events).0 ≡ 0 =
        ground arith in
      let (none_due, same) =
        idle_empties r.publish r.batch_now r.locked events room acks free idle' in
      rw fine (rw same none_due)

  -- Where rows' identifiers are unique, a batch takes at least one row, the broker acknowledges every
  -- event, no other dispatcher holds a row and no batch raises, the rounds without a wait, whatever
  -- the clocks say and however the purges end, empty the backlog unless a stop is asked for: after
  -- the last one no row is due at the time of its batch. The PENDING rows at the start, with those that
  -- come in meanwhile, are fewer than the rounds that are given.
  pub backlog_emptied :
      (rounds : ℕ → Round) (others : ℕ → List OutboxEvent → List OutboxEvent) (adds : ℕ → ℕ)
      (fuel i : ℕ) (d : Dispatcher)
      → Arrivals others adds
      → DistinctKeys row_id d.events
      → count waits d.events + total adds i fuel < fuel
      → 1 ≤ limit
      → ((k : ℕ) (x : OutboxEvent) → (rounds k).publish x ≡ none)
      → ((k : ℕ) (x : OutboxEvent) → (rounds k).locked x ≡ false)
      → ((k : ℕ) → (rounds k).batch_raises ≡ false)
      → (j : ℕ) × (d' : Dispatcher) × (run_busy lower limit rounds others fuel i d ≡ some (j, d'))
        × (((rounds j).stopped ≡ true) ⊎ (count (is_due (rounds j).batch_now) d'.events ≡ 0))
  unfolding run_busy total
  backlog_emptied rounds others adds zero i d come distinct enough room acks free fine =
      absurd (omega arith)
  backlog_emptied rounds others adds (suc fuel) i d come distinct enough room acks free fine =
      let changed : Dispatcher = record d { events = others i d.events } in
      let (distinct', more_waits) = come i d.events distinct in
      let after = (run_round lower limit (rounds i) changed).1 in
      elim (Bool-cases (rounds i).stopped) [
        | inl stops ↦ (i, d, ground arith, inl stops)
        | inr goes ↦ elim (Bool-cases ((run_round lower limit (rounds i) changed).0 == 0)) [
          | inl idle ↦ (
            i,
            after,
            ground arith,
            inr (round_empties (rounds i) changed room (acks i) (free i) (fine i) (ground arith)),
          )
          | inr more ↦
              let fewer = round_drains (rounds i) changed distinct' (ground arith) in
              let (j, d', ended, empty) =
                backlog_emptied rounds others adds fuel (i + 1) after come
                  (round-Distinct (rounds i) changed distinct') (omega arith) room acks free fine in
              (j, d', ground arith, empty)
        ]
      ]
