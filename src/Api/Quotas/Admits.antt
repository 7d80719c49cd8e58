-- ===== src/Api/Quotas/Admits.antt =====
-- The quotas that a workspace is shown, and the admissions of apps/api/app/core/quotas.py.
use hamicloud.Api.Quotas.{WorkspaceQuotaResponse}
use hamicloud.Session.{ok, quota_exceeded, raised, Result}
use hamicloud.Models.Records.{
  deployed_service, concurrent_build, concurrent_job, QuotaResourceClass, QuotaReservation,
}
use hamicloud.Prelude.{true, Bool, some, false, leb, none, if◌then◌else◌, Option, ℕ}
use hamicloud.Core.Quotas.{new_reservation, other_deployed_services, class_retry_after, class_name}
use hamicloud.Models.Db.{Db}
use hamicloud.Models.Tenancy.{Uuid}
use hamicloud.Env.{Env}

abbrev pub used : QuotaResourceClass → WorkspaceQuotaResponse → ℕ
used concurrent_job q = q.concurrent_jobs_used
used concurrent_build q = q.concurrent_builds_used
used deployed_service q = q.deployed_services_used

abbrev pub limit : QuotaResourceClass → WorkspaceQuotaResponse → ℕ
limit concurrent_job q = q.concurrent_jobs_limit
limit concurrent_build q = q.concurrent_builds_limit
limit deployed_service q = q.deployed_services_limit

-- What counts for an operation of a class: what was shown, but for a deployment of a given application
-- the other applications that are deployed.
abbrev pub counted : Uuid → Option Uuid → QuotaResourceClass → Db → WorkspaceQuotaResponse → ℕ
counted ws (some app) deployed_service x q = other_deployed_services ws app x
counted ws _ c x q = used c q

-- What an admission returns.
abbrev pub granted : Bool → QuotaReservation → Option QuotaReservation
granted true r = some r
granted false r = none

-- The answer to one more operation of a class, by a shown quota.
abbrev pub admission :
    Env
    → ℕ
    → Uuid
    → QuotaResourceClass
    → Option Uuid
    → Bool
    → Db
    → WorkspaceQuotaResponse
    → Result (Option QuotaReservation)
admission env n ws c app reserve x q =
    if leb q.pending_operations_limit q.pending_operations_used
    then raised (record {
      status = 429;
      detail = quota_exceeded "PENDING_OPERATIONS" q.pending_operations_limit 30;
    })
    else if leb (limit c q) (counted ws app c x q)
    then raised (record {
      status = 429;
      detail = quota_exceeded (class_name c) (limit c q) (class_retry_after c);
    })
    else ok (granted reserve (new_reservation env n ws c))
