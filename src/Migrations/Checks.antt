-- ===== src/Migrations/Checks.antt =====
-- The checks that migrations/versions put on the enumerated columns, and `SqlEnum` of
-- apps/api/app/db/base.py, which writes and reads those columns. A check that is created is tried on
-- the rows that are there.
pub mod Agreed
pub mod Undone
use hamicloud.Prelude.{
  not, ◌=s=◌, if◌then◌else◌, delete, any, Bool, Option, String, List, true, false, none, some, [],
  ◌∷◌,
}
use hamicloud.Models.Records.{
  OutboxStatus, QuotaResourceClass, QuotaStatus, concurrent_job, concurrent_build, deployed_service,
}
use hamicloud.Models.Tenancy.{WorkspaceRole, owner, admin, developer, viewer}
use hamicloud.Models.Apps.{WorkloadType, http_service, ReleaseStatus}
use hamicloud.Models.Jobs.{JobState, IntentStatus}

-- `column IN (...)`
abbrev pub in_values : List String → String → Bool
in_values values s = any (λ v. v =s= s) values

-- The members of an enumeration with their values, and `enum_cls(value)`.
abbrev pub Members : Type 0 → Type 0
Members E = List (String × E)

abbrev pub process_result_value : {E : Type 0} → Members E → String → Option E
process_result_value [] s = none
process_result_value ((v, e) ∷ ms) s = if v =s= s then some e else process_result_value ms s

abbrev pub job_state_members : Members JobState
job_state_members =
    ("QUEUED", JobState.queued)
    ∷ ("ADMITTED", JobState.admitted)
    ∷ ("STARTING", JobState.starting)
    ∷ ("RUNNING", JobState.running)
    ∷ ("SUCCEEDED", JobState.succeeded)
    ∷ ("RETRY_WAIT", JobState.retry_wait)
    ∷ ("RECOVERY_PENDING", JobState.recovery_pending)
    ∷ ("FAILED", JobState.failed)
    ∷ ("CANCEL_REQUESTED", JobState.cancel_requested)
    ∷ ("CANCELLED", JobState.cancelled)
    ∷ []

abbrev pub release_status_members : Members ReleaseStatus
release_status_members =
    ("REQUESTED", ReleaseStatus.requested)
    ∷ ("BUILDING", ReleaseStatus.building)
    ∷ ("IMAGE_READY", ReleaseStatus.image_ready)
    ∷ ("DEPLOYING", ReleaseStatus.deploying)
    ∷ ("HEALTHY", ReleaseStatus.healthy)
    ∷ ("BUILD_FAILED", ReleaseStatus.build_failed)
    ∷ ("DEPLOY_FAILED", ReleaseStatus.deploy_failed)
    ∷ ("SUPERSEDED", ReleaseStatus.superseded)
    ∷ []

abbrev pub outbox_status_members : Members OutboxStatus
outbox_status_members =
    ("PENDING", OutboxStatus.pending)
    ∷ ("PUBLISHED", OutboxStatus.published)
    ∷ ("FAILED", OutboxStatus.failed)
    ∷ []

abbrev pub intent_status_members : Members IntentStatus
intent_status_members =
    ("PENDING", IntentStatus.pending)
    ∷ ("CLAIMED", IntentStatus.claimed)
    ∷ ("APPLIED", IntentStatus.applied)
    ∷ ("TERMINATED", IntentStatus.terminated)
    ∷ []

-- IntentResourceType, which no handler reads.
pub data IntentResourceType : Type 0 where
  job_attempt service_release : IntentResourceType

abbrev pub intent_type_members : Members IntentResourceType
intent_type_members =
    ("JOB_ATTEMPT", IntentResourceType.job_attempt)
    ∷ ("SERVICE_RELEASE", IntentResourceType.service_release)
    ∷ []

abbrev pub quota_class_members : Members QuotaResourceClass
quota_class_members =
    ("CONCURRENT_JOB", QuotaResourceClass.concurrent_job)
    ∷ ("CONCURRENT_BUILD", QuotaResourceClass.concurrent_build)
    ∷ ("DEPLOYED_SERVICE", QuotaResourceClass.deployed_service)
    ∷ []

abbrev pub quota_status_members : Members QuotaStatus
quota_status_members =
    ("ACTIVE", QuotaStatus.active)
    ∷ ("RELEASED", QuotaStatus.released)
    ∷ ("EXPIRED", QuotaStatus.expired)
    ∷ []

abbrev pub role_members : Members WorkspaceRole
role_members =
    ("OWNER", WorkspaceRole.owner)
    ∷ ("ADMIN", WorkspaceRole.admin)
    ∷ ("DEVELOPER", WorkspaceRole.developer)
    ∷ ("VIEWER", WorkspaceRole.viewer)
    ∷ []

abbrev pub workload_type_members : Members WorkloadType
workload_type_members = ("HTTP_SERVICE", WorkloadType.http_service) ∷ []

-- `value.value` of the enumerations that no other module writes as text.
abbrev pub outbox_status_value : OutboxStatus → String
outbox_status_value OutboxStatus.pending = "PENDING"
outbox_status_value OutboxStatus.published = "PUBLISHED"
outbox_status_value OutboxStatus.failed = "FAILED"

abbrev pub intent_status_value : IntentStatus → String
intent_status_value IntentStatus.pending = "PENDING"
intent_status_value IntentStatus.claimed = "CLAIMED"
intent_status_value IntentStatus.applied = "APPLIED"
intent_status_value IntentStatus.terminated = "TERMINATED"

abbrev pub intent_type_value : IntentResourceType → String
intent_type_value IntentResourceType.job_attempt = "JOB_ATTEMPT"
intent_type_value IntentResourceType.service_release = "SERVICE_RELEASE"

abbrev pub quota_class_value : QuotaResourceClass → String
quota_class_value concurrent_job = "CONCURRENT_JOB"
quota_class_value concurrent_build = "CONCURRENT_BUILD"
quota_class_value deployed_service = "DEPLOYED_SERVICE"

abbrev pub quota_status_value : QuotaStatus → String
quota_status_value QuotaStatus.active = "ACTIVE"
quota_status_value QuotaStatus.released = "RELEASED"
quota_status_value QuotaStatus.expired = "EXPIRED"

abbrev pub workload_type_value : WorkloadType → String
workload_type_value http_service = "HTTP_SERVICE"

-- The values of the checks, in the revisions that name them.
abbrev pub old_job_states : List String
old_job_states =
    "QUEUED" ∷ "ADMITTED" ∷ "STARTING" ∷ "RUNNING" ∷ "SUCCEEDED" ∷ "RETRY_WAIT" ∷ "FAILED"
    ∷ "CANCEL_REQUESTED" ∷ "CANCELLED" ∷ []

abbrev pub new_job_states : List String
new_job_states =
    "QUEUED" ∷ "ADMITTED" ∷ "STARTING" ∷ "RUNNING" ∷ "SUCCEEDED" ∷ "RETRY_WAIT" ∷ "RECOVERY_PENDING"
    ∷ "FAILED" ∷ "CANCEL_REQUESTED" ∷ "CANCELLED" ∷ []

abbrev pub old_release_statuses : List String
old_release_statuses =
    "REQUESTED" ∷ "BUILDING" ∷ "IMAGE_READY" ∷ "DEPLOYING" ∷ "HEALTHY" ∷ "BUILD_FAILED"
    ∷ "DEPLOY_FAILED" ∷ []

abbrev pub new_release_statuses : List String
new_release_statuses =
    "REQUESTED" ∷ "BUILDING" ∷ "IMAGE_READY" ∷ "DEPLOYING" ∷ "HEALTHY" ∷ "BUILD_FAILED"
    ∷ "DEPLOY_FAILED" ∷ "SUPERSEDED" ∷ []

abbrev pub old_roles : List String
old_roles = "OWNER" ∷ "DEVELOPER" ∷ "VIEWER" ∷ []

abbrev pub new_roles : List String
new_roles = "OWNER" ∷ "ADMIN" ∷ "DEVELOPER" ∷ "VIEWER" ∷ []

-- The checks of the enumerated columns.
pub record Checks : Type 0 where
  pub outbox_status : List String
  pub job_attempts_state : List String
  pub intents_resource_type : List String
  pub intents_status : List String
  pub workload_type : List String
  pub quota_class : List String
  pub quota_status : List String
  pub releases_status : List String
  pub jobs_state : List String
  pub memberships_role : List String

-- After 0002_close_schema_gaps.
unfoldable pub checks_0002 : Checks
checks_0002 = record {
  outbox_status = "PENDING" ∷ "PUBLISHED" ∷ "FAILED" ∷ [];
  job_attempts_state = old_job_states;
  intents_resource_type = "JOB_ATTEMPT" ∷ "SERVICE_RELEASE" ∷ [];
  intents_status = "PENDING" ∷ "CLAIMED" ∷ "APPLIED" ∷ "TERMINATED" ∷ [];
  workload_type = "HTTP_SERVICE" ∷ [];
  quota_class = "CONCURRENT_JOB" ∷ "CONCURRENT_BUILD" ∷ "DEPLOYED_SERVICE" ∷ [];
  quota_status = "ACTIVE" ∷ "RELEASED" ∷ "EXPIRED" ∷ [];
  releases_status = old_release_statuses;
  jobs_state = old_job_states;
  memberships_role = old_roles;
}

unfoldable pub upgrade_0003 : Checks → Checks
upgrade_0003 c = record c { job_attempts_state = new_job_states; jobs_state = new_job_states }

unfoldable pub upgrade_0006 : Checks → Checks
upgrade_0006 c = record c { releases_status = new_release_statuses }

unfoldable pub upgrade_0008 : Checks → Checks
upgrade_0008 c = record c { memberships_role = new_roles }

-- The revisions between change no check.
unfoldable pub head_checks : Checks
unfolding checks_0002 upgrade_0003 upgrade_0006 upgrade_0008
head_checks = upgrade_0008 (upgrade_0006 (upgrade_0003 checks_0002))

-- `create_check_constraint` on a column: the rows, or an error.
abbrev pub created_check : List String → List String → Option (List String)
created_check values column =
    if any (λ s. not (in_values values s)) column then none else some column

-- The upgrades and downgrades of the columns with rows: the check is replaced, and the downgrade of
-- 0008 deletes the rows of administrators before.
abbrev both_checks :
    Option (List String) → Option (List String) → Option (List String × List String)
both_checks (some jobs) (some attempts) = some (jobs, attempts)
both_checks _ _ = none

-- The states of jobs, then those of job_attempts, in one transaction.
unfoldable pub downgrade_job_states : List String → List String → Option (List String × List String)
downgrade_job_states jobs attempts =
    both_checks (created_check old_job_states jobs) (created_check old_job_states attempts)

unfoldable pub downgrade_release_statuses : List String → Option (List String)
downgrade_release_statuses statuses = created_check old_release_statuses statuses

unfoldable pub downgrade_roles : List String → Option (List String)
downgrade_roles roles = created_check old_roles (delete (λ r. r =s= "ADMIN") roles)
