-- ===== src/Api/Jobs.antt =====
-- apps/api/app/api/v1/jobs.py
pub mod Reads
pub mod Atomicity
pub mod Isolation
pub mod Outboxed
pub mod Replayed
pub mod Limits
pub mod Race
use hamicloud.Core.Audit.{record_audit_event}
use hamicloud.Core.Quotas.{enforce_workspace_quota}
use hamicloud.Core.ImagePolicy.{validate_image_policy}
use hamicloud.Core.RateLimit.{check_workspace_rate_limit}
use hamicloud.Core.StateMachine.{
  transition_error, validate_job_transition, accepted, state_value, same_state,
  is_terminal_job_state, Verdict,
}
use hamicloud.Core.Events.{create_outbox_event, Headers}
use hamicloud.Core.Auth.{authorize_workspace_access}
use hamicloud.Models.Db.{
  insert_outbox, set_job_state, insert_job, insert_idempotency, Db, Constraint,
}
use hamicloud.Models.Jobs.{cancel_requested, queued, Job}
use hamicloud.Models.Tenancy.{developer, WorkspaceRole, Uuid}
use hamicloud.Prelude.{
  [], some, ◌∷◌, false, none, if◌then◌else◌, ◌==◌, not, ◌==◌, first, ◌+s◌, take_text, String,
  Option, ℕ,
}
use hamicloud.Schemas.{job_body, nothing, SubmitJobRequest, Caller}
use hamicloud.Models.Json.{Fields, end, field}
use hamicloud.Models.Json.{text as json_text}
use hamicloud.Models.Records.{
  AcceptedOperationResponse, concurrent_job, job_submitted, job_cancellation_requested, job,
  cancellation, JobPayload,
}
use hamicloud.Session.{M, ◌>>=◌, ◌>>◌, pure, query, found, raise, raise_if, stage, commit, text}
use hamicloud.Core.Idempotency.{
  Request, check_idempotency, create_idempotency_record, handle_idempotency_race, accepted_response,
}
use hamicloud.Env.{Env}

-- Staged records are committed; a key that another request took first is replayed.
abbrev pub after_commit :
    Request → AcceptedOperationResponse → Option Constraint → M AcceptedOperationResponse
after_commit req response none = pure response
after_commit req response (some exc) = handle_idempotency_race exc req

unfoldable pub commit_or_replay : Env → ℕ → Request → Uuid → M AcceptedOperationResponse
commit_or_replay env n req op = do
  stage (insert_idempotency (create_idempotency_record env n req 202 op))
  broken ← commit
  after_commit req (accepted_response env op) broken

-- `if cached_response: return cached_response`
abbrev pub unless_cached :
    Option AcceptedOperationResponse → M AcceptedOperationResponse → M AcceptedOperationResponse
unless_cached (some response) rest = pure response
unless_cached none rest = rest

abbrev pub job_payload : Job → Option Uuid → JobPayload
job_payload j parent = record {
  job_id = j.id;
  name = j.name;
  image_digest = j.image_digest;
  command_args = j.command_args;
  timeout_seconds = j.timeout_seconds;
  max_retries = j.max_retries;
  parent_job_id = parent;
}

abbrev pub new_job : Env → Uuid → SubmitJobRequest → Job
new_job env ws p = record {
  id = env.uuid 0;
  workspace_id = ws;
  name = p.name;
  image_digest = p.image_digest;
  command_args = p.command_args;
  env_vars = p.env_vars;
  timeout_seconds = p.timeout_seconds;
  max_retries = p.max_retries;
  current_attempt_number = 0;
  state = queued;
  created_at = env.now;
}

abbrev pub submit_request : Env → Uuid → SubmitJobRequest → String → Request
submit_request env ws p key = record {
  workspace_id = ws;
  endpoint = "/v1/workspaces/" +s env.text_of ws +s "/jobs";
  idempotency_key = key;
  payload_hash = env.payload_hash (job_body p);
}

-- The staging of a new job: its row, an audit event and an outbox event, then the commit.
unfoldable pub enqueue_job :
    Env
    → Caller
    → Request
    → Job
    → Option Uuid
    → String
    → Fields
    → Headers
    → M AcceptedOperationResponse
unfolding commit_or_replay
enqueue_job env caller req j parent action details headers = do
  stage (insert_job j)
  record_audit_event env 1 j.workspace_id caller.subject action "JOB" (env.text_of j.id) details
  stage (
      insert_outbox (
        create_outbox_event env 3 j.workspace_id job_submitted (job (job_payload j parent)) headers
          (env.uuid 2)))
  commit_or_replay env 4 req j.id

unfoldable pub submit_job :
    Env → Caller → Uuid → SubmitJobRequest → String → M AcceptedOperationResponse
unfolding enqueue_job
submit_job env caller ws p key = do
  authorize_workspace_access caller ws developer "Workspace not found"
  validate_image_policy env p.image_digest
  let req = submit_request env ws p key
  cached ← check_idempotency env req
  unless_cached cached (do
    check_workspace_rate_limit env ws "jobs.submit"
    enforce_workspace_quota env 0 ws concurrent_job none false
    enqueue_job env caller req (new_job env ws p) none "job.submitted"
        (field "name" (json_text p.name) (field "image_digest" (json_text p.image_digest) end))
        (("idempotency_key", key) ∷ []))

-- The job with an identifier: `select(Job).where(Job.id == job_id)`.
abbrev pub job_with : Uuid → Db → Option Job
job_with id d = first (λ (j : Job). j.id == id) d.jobs

-- The lookup and the authorization that every endpoint of one job begins with.
unfoldable pub load_job : Caller → Uuid → WorkspaceRole → M Job
load_job caller job_id min_role = do
  row ← query (job_with job_id)
  j ← found row 404 (text "Job not found")
  authorize_workspace_access caller j.workspace_id min_role "Job not found"
  pure j

abbrev pub cancel_request : Env → Job → String → Request
cancel_request env j key = record {
  workspace_id = j.workspace_id;
  endpoint = "/v1/jobs/" +s env.text_of j.id +s "/cancel";
  idempotency_key = key;
  payload_hash = env.payload_hash nothing;
}

-- The transition, unless it was made before: the new state, an audit event and an outbox event.
abbrev pub request_cancellation : Env → Caller → Job → String → Verdict → M (Unit {0})
request_cancellation env caller j key accepted = do
  stage (set_job_state j.id cancel_requested)
  record_audit_event env 0 j.workspace_id caller.subject "job.cancel.requested" "JOB"
      (env.text_of j.id) (field "name" (json_text j.name) end)
  stage (
      insert_outbox (
        create_outbox_event env 2 j.workspace_id job_cancellation_requested (cancellation j.id)
          (("idempotency_key", key) ∷ []) (env.uuid 1)))
request_cancellation env caller j key verdict =
    raise 409 (text ("Cannot cancel job: " +s transition_error j.state cancel_requested verdict))

unfoldable pub cancel_job : Env → Caller → Uuid → String → M AcceptedOperationResponse
unfolding load_job commit_or_replay
cancel_job env caller job_id key = do
  j ← load_job caller job_id developer
  let req = cancel_request env j key
  cached ← check_idempotency env req
  unless_cached cached (do
    check_workspace_rate_limit env j.workspace_id "jobs.cancel"
    if same_state j.state cancel_requested
        then pure tt
        else request_cancellation env caller j key
            (validate_job_transition j.state cancel_requested)
    commit_or_replay env 3 req j.id)

abbrev pub rerun_request : Env → Job → String → Request
rerun_request env j key = record {
  workspace_id = j.workspace_id;
  endpoint = "/v1/jobs/" +s env.text_of j.id +s "/reruns";
  idempotency_key = key;
  payload_hash = env.payload_hash nothing;
}

-- A copy of the original under a new identifier and a name of at most 100 characters.
abbrev pub rerun_of : Env → Job → Job
rerun_of env original = record {
  id = env.uuid 0;
  workspace_id = original.workspace_id;
  name = take_text 94 original.name +s "-rerun";
  image_digest = original.image_digest;
  command_args = original.command_args;
  env_vars = original.env_vars;
  timeout_seconds = original.timeout_seconds;
  max_retries = original.max_retries;
  current_attempt_number = 0;
  state = queued;
  created_at = env.now;
}

unfoldable pub rerun_job : Env → Caller → Uuid → String → M AcceptedOperationResponse
unfolding load_job enqueue_job
rerun_job env caller job_id key = do
  original ← load_job caller job_id developer
  let req = rerun_request env original key
  cached ← check_idempotency env req
  unless_cached cached (do
    raise_if (not (is_terminal_job_state original.state)) 409
        (text ("Cannot rerun job while active in state '" +s state_value original.state +s "'"))
    check_workspace_rate_limit env original.workspace_id "jobs.rerun"
    enforce_workspace_quota env 0 original.workspace_id concurrent_job none false
    enqueue_job env caller req (rerun_of env original) (some original.id) "job.rerun.submitted"
        (field "parent_job_id" (json_text (env.text_of original.id))
          (field "name" (json_text (rerun_of env original).name) end))
        (("rerun_from", env.text_of original.id) ∷ ("idempotency_key", key) ∷ []))
