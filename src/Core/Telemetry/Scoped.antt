-- ===== src/Core/Telemetry/Scoped.antt =====
-- What a workspace's gauges of apps/api/app/core/telemetry.py count.
use hamicloud.Core.StateMachine.{state_in}
use hamicloud.Models.Apps.{Release}
use hamicloud.Models.Jobs.{
  running, starting, admitted, queued, DeadLetterRecord, JobAttempt, Job, ExecutionIntent,
}
use hamicloud.Models.Records.{OutboxEvent}
use hamicloud.Core.Telemetry.{
  is_unpublished, is_healthy, is_claimed, requests_total, TelemetryCollector, count_status,
  record_request, collect_metrics,
}
use hamicloud.Prelude.{
  zero, suc, take, ltb, length, refl, ◌+◌, [], arith, ◌≤◌, true, none, ◌∷◌, ◌≡◌, ◌==◌, some, ◌&&◌,
  count, ℕ, List, select, Bool,
}
use hamicloud.Models.Tenancy.{Time, Uuid}
use hamicloud.Models.Db.{Db}

-- A database with the rows of one workspace alone.
abbrev pub of_workspace : Uuid → Db → Db
of_workspace ws d = record d {
  outbox = select (λ (e : OutboxEvent). e.workspace_id == ws) d.outbox;
  intents = select (λ (i : ExecutionIntent). i.workspace_id == ws) d.intents;
  jobs = select (λ (j : Job). j.workspace_id == ws) d.jobs;
  releases = select (λ (r : Release). r.workspace_id == ws) d.releases;
  attempts = select (λ (a : JobAttempt). a.workspace_id == ws) d.attempts;
  dead_letters = select (λ (r : DeadLetterRecord). r.workspace_id == ws) d.dead_letters;
}

count-select :
    {A : Type 0} (own p : A → Bool) (xs : List A)
    → count (λ x. own x && p x) xs ≡ count p (select own xs)
count-select own p [] = refl
count-select own p (x ∷ xs) = ground (arith, count-select own p xs)

count_own :
    {A : Type 0} (own : A → Bool) (xs : List A) → count own xs ≡ count (λ x. true) (select own xs)
count_own own [] = refl
count_own own (x ∷ xs) = ground (arith, count_own own xs)

select_both :
    {A : Type 0} (own p : A → Bool) (xs : List A)
    → select (λ x. own x && p x) xs ≡ select p (select own xs)
select_both own p [] = refl
select_both own p (x ∷ xs) = ground (arith, select_both own p xs)

-- The gauges of a workspace are those of a platform that has the workspace's rows alone: no row of
-- another workspace is counted, and no row of its own is left out.
pub metrics_scoped :
    (now : Time) (ws : Uuid) (d : Db)
    → collect_metrics now (some ws) d ≡ collect_metrics now none (of_workspace ws d)
unfolding collect_metrics
metrics_scoped now ws d = rw (
  count-select (λ (e : OutboxEvent). e.workspace_id == ws) (λ e. is_unpublished e.status) d.outbox,
  count-select (λ (i : ExecutionIntent). i.workspace_id == ws) (λ i. is_claimed i.status) d.intents,
  select_both (λ (j : Job). j.workspace_id == ws) (λ j. state_in j.state (queued ∷ [])) d.jobs,
  count-select (λ (j : Job). j.workspace_id == ws)
      (λ j. state_in j.state (admitted ∷ starting ∷ running ∷ [])) d.jobs,
  count-select (λ (r : Release). r.workspace_id == ws) (λ r. is_healthy r.status) d.releases,
  count_own (λ (a : JobAttempt). a.workspace_id == ws) d.attempts,
  count-select (λ (a : JobAttempt). a.workspace_id == ws) (λ a. ltb 1 a.attempt_number) d.attempts,
  count_own (λ (r : DeadLetterRecord). r.workspace_id == ws) d.dead_letters,
)

length-take : (n : ℕ) (xs : List ℕ) → length (take n xs) ≤ n
length-take zero xs = omega arith
length-take (suc n) [] = omega arith
length-take (suc n) (x ∷ xs) = ground (arith, length-take n xs)

-- Each recorded answer of 200 or more is counted once, and no more than the bound of durations is kept.
pub requests_recorded :
    (code duration : ℕ) (c : TelemetryCollector)
    → 200 ≤ code
    → (requests_total (record_request code duration c) ≡ requests_total c + 1)
      × (length (record_request code duration c).durations ≤ c.max_samples)
unfolding record_request count_status
requests_recorded code duration c h = (total, length-take c.max_samples (duration ∷ c.durations))
  where
    total : requests_total (record_request code duration c) ≡ requests_total c + 1
    total = ground arith
