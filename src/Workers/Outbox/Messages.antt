-- ===== src/Workers/Outbox/Messages.antt =====
-- The messages of `drain_batch` in apps/api/app/workers/outbox_dispatcher.py, and what they carry of
-- the request that wrote their event.
pub mod Traced
use hamicloud.Models.Tenancy.{Uuid}
use hamicloud.Prelude.{
  refl, inr, inl, Option-cases, eq_iff, [], arith, ◌∙◌, ◌=s=◌, ◌∷◌, if◌then◌else◌, none, ◌≡◌, some,
  ℕ, Option, String,
}
use hamicloud.Models.Records.{
  workload_reconciliation_requested, job_attempt_succeeded, job_attempt_failed, app_build_completed,
  app_build_requested, app_deployment_requested, OutboxEvent, job_cancellation_requested,
  job_submitted, EventPayload, OutboxTopic,
}
use hamicloud.Core.Events.{Headers, put_header, update_headers, create_outbox_event}
use hamicloud.Env.{Env}

-- `OutboxTopic.value`
abbrev pub topic_value : OutboxTopic → String
topic_value job_submitted = "job.submitted.v1"
topic_value job_cancellation_requested = "job.cancellation.requested.v1"
topic_value app_deployment_requested = "app.deployment.requested.v1"
topic_value app_build_requested = "app.build.requested.v1"
topic_value app_build_completed = "app.build.completed.v1"
topic_value job_attempt_failed = "job.attempt.failed.v1"
topic_value job_attempt_succeeded = "job.attempt.succeeded.v1"
topic_value workload_reconciliation_requested = "workload.reconciliation.requested.v1"

pub record Message : Type 0 where
  pub subject : String
  pub payload : EventPayload
  pub headers : Headers

-- `str` of a UUID and of a number are parameters.
unfoldable pub base_headers : (Uuid → String) → (ℕ → String) → OutboxEvent → Headers
base_headers text_of str e =
    ("Nats-Msg-Id", text_of e.event_id)
    ∷ ("X-Schema-Version", str e.schema_version)
    ∷ ("X-Workspace-Id", text_of e.workspace_id)
    ∷ []

-- The JSON of the payload is left to the broker's side.
unfoldable pub nats_message : (Uuid → String) → (ℕ → String) → OutboxEvent → Message
unfolding base_headers update_headers
nats_message text_of str e = record {
  subject = topic_value e.topic;
  payload = e.payload_json;
  headers = update_headers (base_headers text_of str e) e.headers_json;
}

-- A dictionary's value, and the value that the last of some pairs gives a key.
abbrev pub header_of : String → Headers → Option String
header_of k [] = none
header_of k ((j, v) ∷ h) = if j =s= k then some v else header_of k h

abbrev pub or_else : Option String → Option String → Option String
or_else (some v) other = some v
or_else none other = other

abbrev pub last_of : String → Headers → Option String
last_of k [] = none
last_of k ((j, v) ∷ h) = or_else (last_of k h) (if j =s= k then some v else none)

pub put_lem :
    (k j v : String) (h : Headers)
    → header_of k (put_header j v h) ≡ (if j =s= k then some v else header_of k h)
unfolding put_header
put_lem k j v [] = refl
put_lem k j v ((i, w) ∷ h) = ground (arith, eq_iff i j, eq_iff j k, eq_iff i k, put_lem k j v h)

pub update_lem :
    (k : String) (m h : Headers)
    → header_of k (update_headers m h) ≡ or_else (last_of k h) (header_of k m)
unfolding update_headers
update_lem k m [] = refl
update_lem k m ((j, v) ∷ h) =
    update_lem k (put_header j v m) h ∙ elim (Option-cases (last_of k h)) [
      | inl nothing ↦ ground (arith, put_lem k j v m)
      | inr (w, found) ↦ ground arith
    ]
