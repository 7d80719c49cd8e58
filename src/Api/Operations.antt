-- ===== src/Api/Operations.antt =====
-- apps/api/app/api/v1/operations.py, and the operations of apps/api/app/schemas/common.py: the status
-- of a job or a release under its operation's identifier.
pub mod Visible
use hamicloud.Core.Auth.{authorize_workspace_access}
use hamicloud.Api.Jobs.{job_with}
use hamicloud.Models.Jobs.{Job}
use hamicloud.Models.Db.{Db}
use hamicloud.Session.{pure, text, ◌>>◌, raise, found, ◌>>=◌, query, M}
use hamicloud.Models.Tenancy.{viewer, WorkspaceMembership, Time, Uuid}
use hamicloud.Schemas.{Caller}
use hamicloud.Models.Apps.{
  superseded, deploy_failed, build_failed, healthy, deploying, image_ready, building, Release,
  requested, ReleaseStatus,
}
use hamicloud.Prelude.{none, some, ◌=s=◌, ◌==◌, first, [], ◌+s◌, Option, ◌∷◌, List, String}
use hamicloud.Core.StateMachine.{state_value}
use hamicloud.Env.{Env}

pub data OperationKind : Type 0 where
  release job : OperationKind

-- The members of `OperationStatus`, by their values.
abbrev pub operation_statuses : List String
operation_statuses =
    "ACCEPTED" ∷ "QUEUED" ∷ "ADMITTED" ∷ "STARTING" ∷ "RUNNING" ∷ "SUCCEEDED" ∷ "RETRY_WAIT"
    ∷ "RECOVERY_PENDING" ∷ "FAILED" ∷ "CANCEL_REQUESTED" ∷ "CANCELLED" ∷ "REQUESTED" ∷ "BUILDING"
    ∷ "IMAGE_READY" ∷ "DEPLOYING" ∷ "HEALTHY" ∷ "BUILD_FAILED" ∷ "DEPLOY_FAILED" ∷ "SUPERSEDED" ∷ []

-- `OperationStatus(value)`, whose ValueError no handler catches.
unfoldable pub operation_status : String → M String
operation_status value =
    found (first (λ s. s =s= value) operation_statuses) 500
      (text "An unexpected internal platform error occurred.")

-- The values of `ReleaseStatus`.
unfoldable pub release_status_value : ReleaseStatus → String
release_status_value requested = "REQUESTED"
release_status_value building = "BUILDING"
release_status_value image_ready = "IMAGE_READY"
release_status_value deploying = "DEPLOYING"
release_status_value healthy = "HEALTHY"
release_status_value build_failed = "BUILD_FAILED"
release_status_value deploy_failed = "DEPLOY_FAILED"
release_status_value superseded = "SUPERSEDED"

pub record OperationStatusResponse : Type 0 where
  pub operation_id : Uuid
  pub operation_kind : OperationKind
  pub status : String
  pub status_url : String
  pub created_at : Time

abbrev pub release_with : Uuid → Db → Option Release
release_with id d = first (λ (r : Release). r.id == id) d.releases

abbrev pub operation_of :
    (Uuid → String) → Uuid → OperationKind → String → Time → OperationStatusResponse
operation_of text_of id kind status created_at = record {
  operation_id = id;
  operation_kind = kind;
  status = status;
  status_url = "/v1/operations/" +s text_of id;
  created_at = created_at;
}

-- The second part of the handler: an operation that is no release.
unfoldable pub job_status : (Uuid → String) → Caller → Option Job → M OperationStatusResponse
unfolding operation_status
job_status text_of caller none = raise 404 (text "Operation not found")
job_status text_of caller (some j) = do
  authorize_workspace_access caller j.workspace_id viewer "Operation not found"
  status ← operation_status (state_value j.state)
  pure (operation_of text_of j.id job status j.created_at)

unfoldable pub release_or_job_status :
    (Uuid → String) → Caller → Uuid → Option Release → M OperationStatusResponse
unfolding operation_status release_status_value job_status
release_or_job_status text_of caller id none = query (job_with id) >>= job_status text_of caller
release_or_job_status text_of caller id (some rel) = do
  authorize_workspace_access caller rel.workspace_id viewer "Operation not found"
  status ← operation_status (release_status_value rel.status)
  pure (operation_of text_of rel.id release status rel.created_at)

unfoldable pub get_operation_status : (Uuid → String) → Caller → Uuid → M OperationStatusResponse
unfolding release_or_job_status
get_operation_status text_of caller operation_id =
    query (release_with operation_id) >>= release_or_job_status text_of caller operation_id

-- Whether the caller may see the operation: the same checks before the stream's answer.
abbrev pub check_job : Caller → Option Job → M WorkspaceMembership
check_job caller none = raise 404 (text "Operation not found")
check_job caller (some j) =
    authorize_workspace_access caller j.workspace_id viewer "Operation not found"

abbrev pub check_release_or_job : Caller → Uuid → Option Release → M WorkspaceMembership
check_release_or_job caller id none = query (job_with id) >>= check_job caller
check_release_or_job caller id (some rel) =
    authorize_workspace_access caller rel.workspace_id viewer "Operation not found"

unfoldable pub stream_operation_events : Caller → Uuid → M (Unit {0})
stream_operation_events caller operation_id = do
  rel ← query (release_with operation_id)
  check_release_or_job caller operation_id rel
  raise 501 (text "Server-Sent Events streaming is not yet implemented in M0 baseline")
