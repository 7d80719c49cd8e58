-- ===== src/Tests/Schema.antt =====
-- The theorems on the schema's trigger, the probes and the service's views, at small concrete data.
use hamicloud.Models.Jobs.{running, JobState, Job}
use hamicloud.Prelude.{
  min, select, ◌≡◌, ◌/◌, false, ◌==◌, ◌^◌, ◌+◌, ℕ, arith, none, some, String, ◌≤◌, ◌*◌, refl, [],
  ◌∷◌,
}
use hamicloud.Tests.Data.{done_job}
use hamicloud.Migrations.DeadLetters.{backfill_failed}
use hamicloud.Migrations.DeadLetters.Kept.{failures-IsRecorded, IsRecorded, Change, apply_changes}
use hamicloud.Core.Telemetry.{TelemetryCollector}
use hamicloud.Core.Telemetry.Summary.{Rounding, get_http_summary}
use hamicloud.Core.Telemetry.Summary.Bounded.{Monotone, summary_bounded}
use hamicloud.Models.Json.{Json, Fields, field, end, dict, array, cons, nil}
use hamicloud.Main.OpenApi.{custom_openapi}
use hamicloud.Main.OpenApi.Hidden.{parameters_of, is_shown, served_parameters}
use hamicloud.Main.Probes.{readyz, scalar, pong, probe_answer}
use hamicloud.Migrations.Intents.{OldIntent, upgrade_intents}
use hamicloud.Migrations.Intents.Restored.{then_downgrade, intents-Restored}
use hamicloud.Migrations.Checks.{
  IntentResourceType, intent_type_members, head_checks, job_state_members, release_status_members,
  outbox_status_members, intent_status_members, quota_class_members, quota_status_members,
  role_members, workload_type_members, downgrade_job_states, downgrade_release_statuses,
  downgrade_roles,
}
use hamicloud.Migrations.Checks.Agreed.{Agrees, columns_agree}
use hamicloud.Migrations.Checks.Undone.{downgrades_checked}
use hamicloud.Models.Records.{OutboxStatus, QuotaResourceClass, QuotaStatus}
use hamicloud.Models.Tenancy.{WorkspaceRole}
use hamicloud.Models.Apps.{ReleaseStatus, WorkloadType}
use hamicloud.Models.Jobs.{IntentStatus}
use hamicloud.Api.Operations.{release_status_value}
use hamicloud.Main.Probes.Ready.{Tells, readyz-Tells}

abbrev failing_job : Job
failing_job = record done_job { id = 21; state = running }

abbrev broken_job : Job
broken_job = record done_job { id = 22; state = JobState.failed }

abbrev first_fails : Change
first_fails = record {
  fresh = λ id. id + 100;
  at = 50;
  chosen = λ (j : Job). j.id == 21;
  change = λ (j : Job). record j { state = JobState.failed };
}

failures-IsRecorded_example : IsRecorded (
    apply_changes (first_fails ∷ []) (record {
      jobs = failing_job ∷ broken_job ∷ [];
      attempts = [];
      dead_letters =
          backfill_failed
            (λ id. id + 200)
            (λ (j : Job). j.created_at)
            []
            (failing_job ∷ broken_job ∷ [])
            [];
    }))
failures-IsRecorded_example =
    failures-IsRecorded (λ id. id + 200) (λ (j : Job). j.created_at) []
      (failing_job ∷ broken_job ∷ []) (first_fails ∷ []) ((λ j. refl), tt)

-- Roundings on whole numbers.
abbrev pub whole : Rounding
whole = record {
  index = λ p m. p * m / 100;
  milliseconds = λ d. d;
  ratio = λ places a b. min (10 ^ places) a;
}

index_mono : (p q m : ℕ) → p ≤ q → p * m / 100 ≤ q * m / 100
index_mono p q m h = grind arith

whole-Monotone : Monotone whole
whole-Monotone = record {
  index_mono = index_mono;
  milliseconds_mono = λ a b h. h;
  ratio_one = λ places a b h. omega arith;
}

abbrev pub seen : TelemetryCollector
seen = record {
  max_samples = 5000;
  durations = 30 ∷ 10 ∷ 20 ∷ [];
  status_2xx = 2;
  status_3xx = 0;
  status_4xx = 0;
  status_5xx = 1;
}

summary_bounded_example :
    let s = get_http_summary whole seen in
    (s.latency_p50_ms ≤ s.latency_p95_ms)
    × (s.latency_p95_ms ≤ s.latency_p99_ms)
    × (s.latency_p99_ms ≤ 30)
    × (s.error_rate_5xx ≤ 10 ^ 6)
    × (s.status_2xx + s.status_4xx + s.status_5xx ≤ s.requests_total)
summary_bounded_example =
    summary_bounded whole seen 30 whole-Monotone (omega arith, (omega arith, (omega arith, tt)))

readyz-Tells_example : Tells (scalar (some 1)) (pong false) (
    probe_answer
      (λ j. "")
      (record { correlation_id = "req_1"; trace_id = ""; traceparent = "" })
      (readyz 5 (scalar (some 1)) (pong false)))
readyz-Tells_example =
    readyz-Tells (λ j. "") (record { correlation_id = "req_1"; trace_id = ""; traceparent = "" }) 5
      (scalar (some 1)) (pong false)

abbrev named : String → Json
named s = dict (field "name" (Json.text s) end)

abbrev made_schema : Fields
made_schema =
    field "paths"
      (dict (
        field "/jobs"
          (dict (
            field "get"
              (dict (
                field "parameters" (array (cons (named "limit") (cons (named "Authorization") nil)))
                  end))
              end))
          end))
      end

served_parameters_example :
    parameters_of (custom_openapi made_schema none).0 ≡ select is_shown (parameters_of made_schema)
served_parameters_example = served_parameters made_schema

-- Intents of both types, with their names as what the two forms share.
abbrev attempt_intent : OldIntent String
attempt_intent = record {
  shared = "a";
  resource_type = "JOB_ATTEMPT";
  resource_id = 5;
  target_generation = 1;
  status = "PENDING";
}

abbrev release_intent : OldIntent String
release_intent = record {
  shared = "r";
  resource_type = "SERVICE_RELEASE";
  resource_id = 6;
  target_generation = 1;
  status = "APPLIED";
}

intents-Restored_example :
    then_downgrade (upgrade_intents (5 ∷ []) (6 ∷ []) (attempt_intent ∷ release_intent ∷ []))
    ≡ some (attempt_intent ∷ release_intent ∷ [])
intents-Restored_example = intents-Restored (5 ∷ []) (6 ∷ []) (attempt_intent ∷ release_intent ∷ [])

columns_agree_example :
    Agrees head_checks.jobs_state job_state_members "RECOVERY_PENDING" JobState.queued "QUEUED"
    × Agrees head_checks.job_attempts_state job_state_members "RECOVERY_PENDING" JobState.queued
        "QUEUED"
    × Agrees head_checks.releases_status release_status_members "RECOVERY_PENDING"
        ReleaseStatus.superseded "SUPERSEDED"
    × Agrees head_checks.outbox_status outbox_status_members "RECOVERY_PENDING" OutboxStatus.pending
        "PENDING"
    × Agrees head_checks.intents_resource_type intent_type_members "RECOVERY_PENDING"
        IntentResourceType.service_release "SERVICE_RELEASE"
    × Agrees head_checks.intents_status intent_status_members "RECOVERY_PENDING"
        IntentStatus.claimed "CLAIMED"
    × Agrees head_checks.quota_class quota_class_members "RECOVERY_PENDING"
        QuotaResourceClass.concurrent_job "CONCURRENT_JOB"
    × Agrees head_checks.quota_status quota_status_members "RECOVERY_PENDING" QuotaStatus.active
        "ACTIVE"
    × Agrees head_checks.memberships_role role_members "RECOVERY_PENDING" WorkspaceRole.admin
        "ADMIN"
    × Agrees head_checks.workload_type workload_type_members "RECOVERY_PENDING"
        WorkloadType.http_service "HTTP_SERVICE"
unfolding release_status_value
columns_agree_example =
    columns_agree "RECOVERY_PENDING" JobState.queued ReleaseStatus.superseded OutboxStatus.pending
      IntentResourceType.service_release IntentStatus.claimed QuotaResourceClass.concurrent_job
      QuotaStatus.active WorkspaceRole.admin WorkloadType.http_service

downgrades_checked_example :
    (downgrade_job_states ("QUEUED" ∷ []) ("RECOVERY_PENDING" ∷ []) ≡ none)
    × (downgrade_release_statuses ("HEALTHY" ∷ []) ≡ some ("HEALTHY" ∷ []))
    × (downgrade_roles ("OWNER" ∷ "ADMIN" ∷ []) ≡ some ("OWNER" ∷ []))
downgrades_checked_example =
    downgrades_checked ("QUEUED" ∷ []) ("RECOVERY_PENDING" ∷ []) ("HEALTHY" ∷ [])
      ("OWNER" ∷ "ADMIN" ∷ []) (refl, tt) (refl, tt) (refl, tt) (refl, (refl, tt))
