-- ===== src/Models/Jobs.antt =====
-- apps/api/app/models/job.py and dead_letter.py.
use hamicloud.Prelude.{ℕ, String, Option, List}
use hamicloud.Models.Tenancy.{Uuid, Time}

pub data JobState : Type 0 where
  queued admitted starting running succeeded retry_wait recovery_pending failed : JobState
  cancel_requested cancelled : JobState

pub record Job : Type 0 where
  pub id : Uuid
  pub workspace_id : Uuid
  pub name : String
  pub image_digest : String
  pub command_args : List String
  pub env_vars : List (String × String)
  pub timeout_seconds : ℕ
  pub max_retries : ℕ
  pub current_attempt_number : ℕ
  pub state : JobState
  pub created_at : Time

pub record JobAttempt : Type 0 where
  pub id : Uuid
  pub job_id : Uuid
  pub workspace_id : Uuid
  pub attempt_number : ℕ
  pub state : JobState
  pub resource_uid : Option String
  pub lease_epoch : ℕ
  pub exit_code : Option ℕ
  pub failure_reason : Option String
  pub started_at : Option Time
  pub finished_at : Option Time

-- apps/api/app/models/execution_intent.py; its two foreign keys are one, with the resource's type.
pub data IntentStatus : Type 0 where
  pending claimed applied terminated : IntentStatus

pub data IntentResource : Type 0 where
  job_attempt service_release : Uuid → IntentResource

pub record ExecutionIntent : Type 0 where
  pub id : Uuid
  pub workspace_id : Uuid
  pub resource : IntentResource
  pub resource_uid : Option String
  pub target_generation : ℕ
  pub deterministic_resource_name : String
  pub status : IntentStatus
  pub claimed_by : Option String
  pub lease_epoch : ℕ
  pub lease_expires_at : Option Time

pub record DeadLetterRecord : Type 0 where
  pub id : Uuid
  pub job_id : Uuid
  pub workspace_id : Uuid
  pub last_attempt : ℕ
  pub exit_code : Option ℕ
  pub failure_reason : Option String
  pub created_at : Time
