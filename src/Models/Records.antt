-- ===== src/Models/Records.antt =====
-- apps/api/app/models/quota.py, outbox.py and idempotency.py, and the events of
-- apps/api/app/core/events.py. An event's payload has a constructor for each dictionary that a
-- producer builds.
use hamicloud.Prelude.{ℕ, String, Option, List}
use hamicloud.Models.Tenancy.{Uuid, Time}

pub data QuotaResourceClass : Type 0 where
  concurrent_job concurrent_build deployed_service : QuotaResourceClass

pub data QuotaStatus : Type 0 where
  active released expired : QuotaStatus

pub record QuotaReservation : Type 0 where
  pub id : Uuid
  pub workspace_id : Uuid
  pub resource_class : QuotaResourceClass
  pub units : ℕ
  pub status : QuotaStatus
  pub expires_at : Time
  pub created_at : Time

pub data OutboxTopic : Type 0 where
  job_submitted job_cancellation_requested app_deployment_requested app_build_requested :
      OutboxTopic
  app_build_completed job_attempt_failed job_attempt_succeeded : OutboxTopic
  workload_reconciliation_requested : OutboxTopic

pub data OutboxStatus : Type 0 where
  pending published failed : OutboxStatus

pub record JobPayload : Type 0 where
  pub job_id : Uuid
  pub name : String
  pub image_digest : String
  pub command_args : List String
  pub timeout_seconds : ℕ
  pub max_retries : ℕ
  pub parent_job_id : Option Uuid

pub record DeployPayload : Type 0 where
  pub application_id : Uuid
  pub release_id : Uuid
  pub generation : ℕ
  pub image_digest : String
  pub port : ℕ
  pub health_path : String
  pub target_release_id : Option Uuid

pub record BuildPayload : Type 0 where
  pub release_id : Uuid
  pub application_id : Uuid
  pub repository_id : Uuid
  pub commit_sha : Option String
  pub git_ref : String
  pub dockerfile_path : String
  pub context_dir : String
  pub repo_url : Option String

pub data EventPayload : Type 0 where
  job : JobPayload → EventPayload
  cancellation : Uuid → EventPayload
  deployment : DeployPayload → EventPayload
  build : BuildPayload → EventPayload

pub record OutboxEvent : Type 0 where
  pub id : Uuid
  pub event_id : Uuid
  pub workspace_id : Uuid
  pub schema_version : ℕ
  pub topic : OutboxTopic
  pub payload_json : EventPayload
  pub headers_json : List (String × String)
  pub status : OutboxStatus
  pub retry_count : ℕ
  pub next_attempt_at : Option Time
  pub published_at : Option Time
  pub created_at : Time

-- apps/api/app/schemas/common.py
pub record AcceptedOperationResponse : Type 0 where
  pub operation_id : Uuid
  pub status : String
  pub status_url : String

pub record IdempotencyRecord : Type 0 where
  pub id : Uuid
  pub workspace_id : Uuid
  pub endpoint : String
  pub idempotency_key : String
  pub request_hash : String
  pub response_code : ℕ
  pub response_body : AcceptedOperationResponse
  pub expires_at : Time
