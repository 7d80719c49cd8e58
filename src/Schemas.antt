-- ===== src/Schemas.antt =====
-- The requests of apps/api/app/schemas that the handlers receive, after validation.
use hamicloud.Prelude.{ℕ, String, Option, List}
use hamicloud.Models.Tenancy.{Uuid, WorkspaceRole}
use hamicloud.Models.Apps.{WorkloadType}

-- `Caller` of apps/api/app/core/auth.py; its e-mail and user name are read by no handler.
pub record Caller : Type 0 where
  pub subject : String

pub record CreateWorkspaceRequest : Type 0 where
  pub name : String
  pub slug : String

pub record UpsertWorkspaceMemberRequest : Type 0 where
  pub user_subject : String
  pub role : WorkspaceRole

pub record UpsertSecretRequest : Type 0 where
  pub name : String
  pub value : String

pub record SubmitJobRequest : Type 0 where
  pub name : String
  pub image_digest : String
  pub command_args : List String
  pub env_vars : List (String × String)
  pub timeout_seconds : ℕ
  pub max_retries : ℕ

pub record CreateApplicationRequest : Type 0 where
  pub name : String
  pub slug : String
  pub workload_type : WorkloadType
  pub repository_id : Option Uuid
  pub dockerfile_path : String
  pub context_dir : String
  pub git_branch : Option String

-- `repository_id` is in `model_fields_set` when the first layer is there.
pub record UpdateApplicationRequest : Type 0 where
  pub name : Option String
  pub repository_id : Option (Option Uuid)
  pub dockerfile_path : Option String
  pub context_dir : Option String
  pub git_branch : Option String

pub record DeployReleaseRequest : Type 0 where
  pub image_digest : String
  pub port : ℕ
  pub health_path : String
  pub env_vars : List (String × String)
  pub cpu_limit : String
  pub memory_limit : String

pub record RollbackRequest : Type 0 where
  pub target_release_id : Uuid

pub record TriggerBuildRequest : Type 0 where
  pub commit_sha : Option String
  pub git_ref : String
  pub commit_message : Option String
  pub port : Option ℕ
  pub health_path : Option String

-- What `compute_payload_hash` digests.
pub data Payload : Type 0 where
  nothing : Payload
  job_body : SubmitJobRequest → Payload
  deploy_body : DeployReleaseRequest → Payload
  rollback_body : RollbackRequest → Payload
