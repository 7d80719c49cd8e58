-- ===== src/Models/Apps.antt =====
-- apps/api/app/models/application.py, release.py and repository.py. The dictionary `config_json`
-- has a field for each key that the code writes; a missing key is `none`.
use hamicloud.Prelude.{ℕ, String, Option, List}
use hamicloud.Models.Tenancy.{Uuid, Time}

pub data WorkloadType : Type 0 where
  http_service : WorkloadType

pub record Application : Type 0 where
  pub id : Uuid
  pub workspace_id : Uuid
  pub name : String
  pub slug : String
  pub workload_type : WorkloadType
  pub desired_generation : ℕ
  pub current_release_id : Option Uuid
  pub repository_id : Option Uuid
  pub dockerfile_path : String
  pub context_dir : String
  pub git_branch : Option String
  pub created_at : Time

pub data ReleaseStatus : Type 0 where
  requested building image_ready deploying healthy : ReleaseStatus
  build_failed deploy_failed superseded : ReleaseStatus

pub record ReleaseConfig : Type 0 where
  pub port : Option ℕ
  pub health_path : Option String
  pub env_vars : Option (List (String × String))
  pub cpu_limit : Option String
  pub memory_limit : Option String

pub record Release : Type 0 where
  pub id : Uuid
  pub application_id : Uuid
  pub workspace_id : Uuid
  pub release_number : ℕ
  pub commit_sha : Option String
  pub image_digest : String
  pub config_json : ReleaseConfig
  pub status : ReleaseStatus
  pub repository_id : Option Uuid
  pub git_ref : Option String
  pub commit_message : Option String
  pub created_at : Time

-- apps/api/app/models/webhook_delivery.py
pub record WebhookDelivery : Type 0 where
  pub id : Uuid
  pub workspace_id : Uuid
  pub repository_id : Uuid
  pub delivery_id : String
  pub event_type : String
  pub payload_hash : String
  pub status : String
  pub created_at : Time

pub record Repository : Type 0 where
  pub id : Uuid
  pub workspace_id : Uuid
  pub name : String
  pub repo_url : String
  pub webhook_secret : String
  pub default_branch : String
  pub created_at : Time
