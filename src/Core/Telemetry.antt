-- ===== src/Core/Telemetry.antt =====
-- apps/api/app/core/telemetry.py: the gauges over the database, and the counters of the requests. The
-- ratio of retries is kept as its numerator and denominator, and the age in the clock's unit, without
-- their rounding; Summary has the summary of the requests.
pub mod Scoped
pub mod Summary
pub mod Exposition
pub mod Trace
pub mod Traced
pub mod Hops
use hamicloud.Core.StateMachine.{state_in}
use hamicloud.Models.Jobs.{
  DeadLetterRecord, JobAttempt, running, starting, admitted, queued, claimed, ExecutionIntent, Job,
  IntentStatus,
}
use hamicloud.Models.Apps.{Release, healthy, ReleaseStatus}
use hamicloud.Models.Records.{OutboxEvent, OutboxStatus}
use hamicloud.Models.Tenancy.{Uuid, Time}
use hamicloud.Prelude.{
  length, [], ltb, ◌==◌, false, ◌&&◌, min, none, true, ◌-◌, count, ◌∷◌, select, leb, take, Bool,
  some, ◌+◌, if◌then◌else◌, Option, List, ℕ,
}
use hamicloud.Models.Db.{Db}

-- `where workspace_id = ...`, where a workspace is given.
abbrev pub in_scope : Option Uuid → Uuid → Bool
in_scope none ws = true
in_scope (some w) ws = ws == w

abbrev pub is_unpublished : OutboxStatus → Bool
is_unpublished OutboxStatus.pending = true
is_unpublished _ = false

abbrev pub is_claimed : IntentStatus → Bool
is_claimed claimed = true
is_claimed _ = false

abbrev pub is_healthy : ReleaseStatus → Bool
is_healthy healthy = true
is_healthy _ = false

-- `func.min(Job.created_at)`
unfoldable pub oldest : List Job → Option Time
oldest [] = none
oldest (j ∷ js) = elim (oldest js) [ none ↦ some j.created_at | some t ↦ some (min j.created_at t) ]

-- `max(0.0, now - oldest_created_at)`, or 0 where no job is queued.
abbrev pub age : Time → Option Time → ℕ
age now none = 0
age now (some t) = now - t

pub record Metrics : Type 0 where
  pub outbox_pending_total : ℕ
  pub active_leases_total : ℕ
  pub queued_jobs_total : ℕ
  pub oldest_queued_job_age : ℕ
  pub running_jobs_total : ℕ
  pub healthy_services_total : ℕ
  pub attempts_total : ℕ
  pub retry_attempts_total : ℕ
  pub dead_letter_total : ℕ

abbrev pub queued_jobs : Option Uuid → Db → List Job
queued_jobs scope d =
    select (λ (j : Job). in_scope scope j.workspace_id && state_in j.state (queued ∷ [])) d.jobs

unfoldable pub collect_metrics : Time → Option Uuid → Db → Metrics
unfolding oldest
collect_metrics now scope d = record {
  outbox_pending_total =
      count (λ (e : OutboxEvent). in_scope scope e.workspace_id && is_unpublished e.status)
        d.outbox;
  active_leases_total =
      count (λ (i : ExecutionIntent). in_scope scope i.workspace_id && is_claimed i.status)
        d.intents;
  queued_jobs_total = length (queued_jobs scope d);
  oldest_queued_job_age = age now (oldest (queued_jobs scope d));
  running_jobs_total =
      count
        (λ (j : Job).
          in_scope scope j.workspace_id && state_in j.state (admitted ∷ starting ∷ running ∷ []))
        d.jobs;
  healthy_services_total =
      count (λ (r : Release). in_scope scope r.workspace_id && is_healthy r.status) d.releases;
  attempts_total = count (λ (a : JobAttempt). in_scope scope a.workspace_id) d.attempts;
  retry_attempts_total =
      count (λ (a : JobAttempt). in_scope scope a.workspace_id && ltb 1 a.attempt_number)
        d.attempts;
  dead_letter_total =
      count (λ (r : DeadLetterRecord). in_scope scope r.workspace_id) d.dead_letters;
}

-- The collector: the newest `max_samples` durations, and the answers by class.
pub record TelemetryCollector : Type 0 where
  pub max_samples : ℕ
  pub durations : List ℕ
  pub status_2xx : ℕ
  pub status_3xx : ℕ
  pub status_4xx : ℕ
  pub status_5xx : ℕ

-- `deque.append` of a bounded deque; the newest comes first.
abbrev pub push_sample : ℕ → ℕ → List ℕ → List ℕ
push_sample max_samples duration durations = take max_samples (duration ∷ durations)

unfoldable pub count_status : ℕ → TelemetryCollector → TelemetryCollector
count_status code c =
    if leb 200 code && ltb code 300
    then record c { status_2xx = c.status_2xx + 1 }
    else if leb 300 code && ltb code 400
    then record c { status_3xx = c.status_3xx + 1 }
    else if leb 400 code && ltb code 500
    then record c { status_4xx = c.status_4xx + 1 }
    else if leb 500 code
    then record c { status_5xx = c.status_5xx + 1 }
    else c

-- A duration is in whole units here, so it is not negative.
unfoldable pub record_request : ℕ → ℕ → TelemetryCollector → TelemetryCollector
unfolding count_status
record_request code duration c =
    let counted = count_status code c in
    record counted { durations = push_sample c.max_samples duration c.durations }

abbrev pub requests_total : TelemetryCollector → ℕ
requests_total c = c.status_2xx + (c.status_3xx + (c.status_4xx + c.status_5xx))
