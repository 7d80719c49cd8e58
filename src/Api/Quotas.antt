-- ===== src/Api/Quotas.antt =====
-- apps/api/app/api/v1/quotas.py: what a workspace uses of its quotas.
pub mod Admits
use hamicloud.Core.Auth.{authorize_workspace_access}
use hamicloud.Models.Records.{QuotaReservation}
use hamicloud.Session.{commit, ◌>>=◌, text, raise, ◌>>◌, pure, M}
use hamicloud.Models.Db.{Constraint}
use hamicloud.Schemas.{Caller}
use hamicloud.Core.Quotas.{Usage, get_workspace_quota_summary}
use hamicloud.Models.Tenancy.{viewer, Uuid}
use hamicloud.Prelude.{none, some, List, ℕ, Option}
use hamicloud.Env.{Env}

-- `WorkspaceQuotaResponse`, with the rows of its reservations.
pub record WorkspaceQuotaResponse : Type 0 where
  pub workspace_id : Uuid
  pub concurrent_jobs_limit : ℕ
  pub concurrent_jobs_used : ℕ
  pub concurrent_builds_limit : ℕ
  pub concurrent_builds_used : ℕ
  pub deployed_services_limit : ℕ
  pub deployed_services_used : ℕ
  pub pending_operations_limit : ℕ
  pub pending_operations_used : ℕ
  pub reservations : List QuotaReservation

abbrev pub quota_response : Env → Uuid → Usage → WorkspaceQuotaResponse
quota_response env ws u = record {
  workspace_id = ws;
  concurrent_jobs_limit = env.settings.workspace_job_concurrency;
  concurrent_jobs_used = u.effective_jobs;
  concurrent_builds_limit = env.settings.workspace_build_concurrency;
  concurrent_builds_used = u.effective_builds;
  deployed_services_limit = env.settings.workspace_service_cap;
  deployed_services_used = u.effective_services;
  pending_operations_limit = env.settings.workspace_pending_operations;
  pending_operations_used = u.effective_pending;
  reservations = u.active_reservations;
}

-- A violated constraint has no handler here.
abbrev pub after_summary : WorkspaceQuotaResponse → Option Constraint → M WorkspaceQuotaResponse
after_summary r none = pure r
after_summary r (some exc) = raise 500 (text "An unexpected internal platform error occurred.")

-- The commit keeps the expiry of the stale reservations.
unfoldable pub get_workspace_quotas : Env → Caller → Uuid → M WorkspaceQuotaResponse
unfolding get_workspace_quota_summary
get_workspace_quotas env caller ws = do
  authorize_workspace_access caller ws viewer "Workspace not found"
  u ← get_workspace_quota_summary env ws
  broken ← commit
  after_summary (quota_response env ws u) broken
