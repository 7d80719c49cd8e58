-- ===== src/Core/Quotas.antt =====
-- apps/api/app/core/quotas.py: what a workspace uses, and the admission of one more operation. The
-- advisory lock makes admissions of one workspace follow one another, so it has no step here.
pub mod Admission
use hamicloud.Prelude.{
  not, is_some, some, false, ◌&&◌, select, [], if◌then◌else◌, map, ◌==◌, none, ◌∷◌, length, max,
  leb, ltb, true, ◌==◌, ◌∷◌, List, distinct, count, ◌+◌, order_by, Bool, String, ℕ, Option,
}
use hamicloud.Models.Tenancy.{Uuid, Time, seconds}
use hamicloud.Models.Jobs.{
  Job, JobState, queued, admitted, starting, running, retry_wait, recovery_pending,
}
use hamicloud.Models.Apps.{
  Release, ReleaseStatus, requested, building, image_ready, deploying, healthy,
}
use hamicloud.Models.Records.{
  QuotaReservation, QuotaResourceClass, concurrent_job, concurrent_build, deployed_service, active,
}
use hamicloud.Models.Db.{Db, QuotaStatus-is_active, expire_reservations, insert_reservation}
use hamicloud.Session.{M, ◌>>=◌, ◌>>◌, pure, query, raise_if, stage, quota_exceeded}
use hamicloud.Core.StateMachine.{state_in}
use hamicloud.Env.{Env, Settings}

-- ACTIVE_JOB_STATES
abbrev pub active_job_states : List JobState
active_job_states = admitted ∷ starting ∷ running ∷ []

-- PENDING_JOB_STATES
abbrev pub pending_job_states : List JobState
pending_job_states = queued ∷ admitted ∷ starting ∷ running ∷ retry_wait ∷ recovery_pending ∷ []

-- ACTIVE_SERVICE_RELEASE_STATUSES
abbrev pub is_active_service : ReleaseStatus → Bool
is_active_service image_ready = true
is_active_service deploying = true
is_active_service healthy = true
is_active_service _ = false

abbrev pub is_open_build : ReleaseStatus → Bool
is_open_build requested = true
is_open_build building = true
is_open_build _ = false

-- `status = ACTIVE and expires_at > now`
abbrev pub is_active_reservation : Uuid → Time → QuotaReservation → Bool
is_active_reservation ws now r =
    (r.workspace_id == ws && QuotaStatus-is_active r.status) && ltb now r.expires_at

abbrev pub same_class : QuotaResourceClass → QuotaResourceClass → Bool
same_class concurrent_job concurrent_job = true
same_class concurrent_build concurrent_build = true
same_class deployed_service deployed_service = true
same_class _ _ = false

-- `res_units`, at one class.
unfoldable pub reserved_units : QuotaResourceClass → List QuotaReservation → ℕ
reserved_units c [] = 0
reserved_units c (r ∷ rs) =
    let rest = reserved_units c rs in if same_class c r.resource_class then r.units + rest else rest

unfoldable pub jobs_in : List JobState → Uuid → Db → ℕ
jobs_in states ws d = count (λ (j : Job). j.workspace_id == ws && state_in j.state states) d.jobs

unfoldable pub active_builds : Uuid → Db → ℕ
active_builds ws d =
    count
      (λ (r : Release). (r.workspace_id == ws && is_some r.repository_id) && is_open_build r.status)
      d.releases

abbrev pub is_deployed : Uuid → Release → Bool
is_deployed ws r = r.workspace_id == ws && is_active_service r.status

-- The applications with a live release, and those other than one of them.
unfoldable pub deployed_services : Uuid → Db → ℕ
unfolding distinct
deployed_services ws d =
    length (distinct (map (λ (r : Release). r.application_id) (select (is_deployed ws) d.releases)))

unfoldable pub other_deployed_services : Uuid → Uuid → Db → ℕ
unfolding distinct
other_deployed_services ws app d = length (
    distinct (
      map (λ (r : Release). r.application_id)
        (select (λ r. is_deployed ws r && not (r.application_id == app)) d.releases)))

pub record Usage : Type 0 where
  pub effective_jobs : ℕ
  pub effective_builds : ℕ
  pub effective_services : ℕ
  pub effective_pending : ℕ
  pub active_reservations : List QuotaReservation

abbrev pub live_reservations : Uuid → Time → Db → List QuotaReservation
live_reservations ws now d =
    order_by (λ (r s : QuotaReservation). ltb s.created_at r.created_at)
      (select (is_active_reservation ws now) d.reservations)

unfoldable pub usage_of : Uuid → Time → Db → Usage
unfolding reserved_units jobs_in active_builds deployed_services order_by
usage_of ws now d =
    let live = live_reservations ws now d in
    record {
      effective_jobs = max (jobs_in active_job_states ws d) (reserved_units concurrent_job live);
      effective_builds = max (active_builds ws d) (reserved_units concurrent_build live);
      effective_services = max (deployed_services ws d) (reserved_units deployed_service live);
      effective_pending = jobs_in pending_job_states ws d + active_builds ws d;
      active_reservations = live;
    }

-- `expire_stale_reservations`, then the counts.
unfoldable pub get_workspace_quota_summary : Env → Uuid → M Usage
get_workspace_quota_summary env ws = do
  stage (expire_reservations ws env.now)
  query (usage_of ws env.now)

abbrev pub with_others : Usage → ℕ → Usage
with_others u n = record u { effective_services = n }

abbrev admission_usage : Uuid → Option Uuid → Usage → Db → Usage
admission_usage ws none u d = u
admission_usage ws (some app) u d = with_others u (other_deployed_services ws app d)

-- `get_workspace_quota_usage_for_admission`: an application that is deployed again is not counted.
unfoldable pub usage_for_admission : Env → Uuid → Option Uuid → M Usage
unfolding get_workspace_quota_summary
usage_for_admission env ws app = do
  u ← get_workspace_quota_summary env ws
  query (admission_usage ws app u)

abbrev pub class_usage : QuotaResourceClass → Usage → ℕ
class_usage concurrent_job u = u.effective_jobs
class_usage concurrent_build u = u.effective_builds
class_usage deployed_service u = u.effective_services

abbrev pub class_limit : QuotaResourceClass → Settings → ℕ
class_limit concurrent_job s = s.workspace_job_concurrency
class_limit concurrent_build s = s.workspace_build_concurrency
class_limit deployed_service s = s.workspace_service_cap

abbrev pub class_ttl : QuotaResourceClass → Settings → ℕ
class_ttl concurrent_job s = s.job_timeout_seconds
class_ttl concurrent_build s = s.build_timeout_seconds
class_ttl deployed_service s = 86400

abbrev pub class_name : QuotaResourceClass → String
class_name concurrent_job = "CONCURRENT_JOB"
class_name concurrent_build = "CONCURRENT_BUILD"
class_name deployed_service = "DEPLOYED_SERVICE"

abbrev pub class_retry_after : QuotaResourceClass → ℕ
class_retry_after deployed_service = 60
class_retry_after _ = 15

abbrev pub new_reservation : Env → ℕ → Uuid → QuotaResourceClass → QuotaReservation
new_reservation env n ws c = record {
  id = env.uuid n;
  workspace_id = ws;
  resource_class = c;
  units = 1;
  status = active;
  expires_at = env.now + seconds (class_ttl c env.settings);
  created_at = env.now;
}

abbrev pub reserve_if : Bool → QuotaReservation → M (Option QuotaReservation)
reserve_if false r = pure none
reserve_if true r = do stage (insert_reservation r); pure (some r)

unfoldable pub enforce_workspace_quota :
    Env → ℕ → Uuid → QuotaResourceClass → Option Uuid → Bool → M (Option QuotaReservation)
unfolding usage_for_admission
enforce_workspace_quota env n ws c app reserve = do
  u ← usage_for_admission env ws app
  raise_if (leb env.settings.workspace_pending_operations u.effective_pending) 429
      (quota_exceeded "PENDING_OPERATIONS" env.settings.workspace_pending_operations 30)
  raise_if (leb (class_limit c env.settings) (class_usage c u)) 429
      (quota_exceeded (class_name c) (class_limit c env.settings) (class_retry_after c))
  reserve_if reserve (new_reservation env n ws c)
