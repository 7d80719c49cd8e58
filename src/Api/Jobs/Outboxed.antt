-- ===== src/Api/Jobs/Outboxed.antt =====
-- The transactional outbox of apps/api/app/api/v1/jobs.py: a job and its event are committed together.
use hamicloud.Core.Quotas.{enforce_workspace_quota}
use hamicloud.Core.RateLimit.{check_workspace_rate_limit}
use hamicloud.Session.Atomic.{pure-Quiet}
use hamicloud.Models.Json.{Fields}
use hamicloud.Schemas.{SubmitJobRequest, Caller}
use hamicloud.Core.Idempotency.{check_idempotency, accepted_response, Request}
use hamicloud.Models.Tenancy.{developer, WorkspaceRole, AuditEvent, Uuid}
use hamicloud.Core.Events.{Headers, create_outbox_event}
use hamicloud.Models.Records.{
  concurrent_job, AcceptedOperationResponse, EventPayload, IdempotencyRecord, job_submitted,
  pending, OutboxEvent,
}
use hamicloud.Models.Jobs.{queued, Job}
use hamicloud.Core.Audit.{record_audit_event}
use hamicloud.Prelude.{false, none, some, arith, inr, refl, inl, [], String, ◌∷◌, Option, ◌⊎◌, ◌≡◌}
use hamicloud.Api.Jobs.{
  submit_job, rerun_job, load_job, enqueue_job, commit_or_replay, after_commit, unless_cached,
  job_payload,
}
use hamicloud.Session.Effect.{
  raise_if-Neutral, serve-Ends, Quiet-Ends, Beside, commit-Ends, stage-Ends, Ends, Neutral,
  neutral_rules, bind-Ends,
}
use hamicloud.Session.{◌>>◌, ◌>>=◌, pure, serve, alone, M}
use hamicloud.Core.Auth.Access.{authorize-Neutral}
use hamicloud.Core.RateLimit.Window.{rate_limit-Neutral}
use hamicloud.Core.ImagePolicy.Allowed.{image_policy-Neutral}
use hamicloud.Core.Idempotency.Replay.{race-Quiet, check_idempotency-Neutral}
use hamicloud.Core.Quotas.Admission.{quota-Neutral}
use hamicloud.Models.Db.{
  written, insert_idempotency, insert_outbox, insert_audit, insert_job, write_all, Db,
}
use hamicloud.Env.{Env}

-- What a submission adds: nothing, or one QUEUED job with one PENDING event that names it.
abbrev pub OneJob : Db → Db → Type 0
OneJob d d' =
    ((d'.jobs ≡ d.jobs) × (d'.outbox ≡ d.outbox))
    ⊎ ((j : Job) × (e : OutboxEvent) × (parent : Option Uuid) × (d'.jobs ≡ j ∷ d.jobs)
        × (d'.outbox ≡ e ∷ d.outbox)
        × (j.state ≡ queued)
        × (e.status ≡ pending)
        × (e.topic ≡ job_submitted)
        × (e.workspace_id ≡ j.workspace_id)
        × (e.payload_json ≡ EventPayload.job (job_payload j parent)))

finish_changes :
    (d d' x : Db) (j : Job) (parent : Option Uuid) (a : AuditEvent) (e : OutboxEvent)
    (r : IdempotencyRecord)
    → j.state ≡ queued
    → e.status ≡ pending
    → e.topic ≡ job_submitted
    → e.workspace_id ≡ j.workspace_id
    → e.payload_json ≡ EventPayload.job (job_payload j parent)
    → Beside d d'
    → write_all (insert_job j ∷ insert_audit a ∷ insert_outbox e ∷ insert_idempotency r ∷ []) d'
      ≡ written x
    → OneJob d x
unfolding write_all
finish_changes d d' x j parent a e r q p t w c beside h =
    inr (j, e, parent, ground arith, ground arith, q, p, t, w, c)

enqueue-Ends :
    (d : Db) (env : Env) (caller : Caller) (req : Request) (j : Job) (parent : Option Uuid)
    (action : String) (details : Fields) (headers : Headers)
    → j.state ≡ queued
    → Ends d [] (OneJob d) (enqueue_job env caller req j parent action details headers)
unfolding enqueue_job commit_or_replay record_audit_event create_outbox_event
enqueue-Ends d env caller req j parent action details headers q = stage-Ends d _ (OneJob d) _ _ (
    stage-Ends d _ (OneJob d) _ _ (
      stage-Ends d _ (OneJob d) _ _ (
        stage-Ends d _ (OneJob d) _ _ (
          commit-Ends d _ (OneJob d) (after_commit req (accepted_response env j.id))
            (accepted_response env j.id) refl (λ c. race-Quiet c req) (inl (refl, refl))
            (λ d' x beside h.
              finish_changes d d' x j parent _ _ _ q refl refl refl refl beside h)))))

unless_cached-Ends :
    (d : Db) (o : Option AcceptedOperationResponse) (m : M AcceptedOperationResponse)
    → Ends d [] (OneJob d) m
    → Ends d [] (OneJob d) (unless_cached o m)
unless_cached-Ends d none m q = q
unless_cached-Ends d (some r) m q =
    Quiet-Ends d [] (OneJob d) (pure r) (inl (refl, refl)) (pure-Quiet r)

-- The quota, the rate limit and the caller's role come before the changes, and stage nothing else.
limited-Ends :
    (d : Db) (env : Env) (ws : Uuid) (route : String) (m : M AcceptedOperationResponse)
    → Ends d [] (OneJob d) m
    → Ends d [] (OneJob d) (do
      check_workspace_rate_limit env ws route
      enforce_workspace_quota env 0 ws concurrent_job none false
      m)
limited-Ends d env ws route m q =
    bind-Ends d (OneJob d) _ _ (inl (refl, refl)) (rate_limit-Neutral env ws route) (λ u.
      bind-Ends d (OneJob d) _ _ (inl (refl, refl))
        (quota-Neutral env 0 ws concurrent_job none false) (λ v. q))

keyed-Ends :
    (d : Db) (env : Env) (req : Request) (m : M AcceptedOperationResponse)
    → Ends d [] (OneJob d) m
    → Ends d [] (OneJob d) (check_idempotency env req >>= (λ cached. unless_cached cached m))
keyed-Ends d env req m q =
    bind-Ends d (OneJob d) _ _ (inl (refl, refl)) (check_idempotency-Neutral env req)
      (λ o. unless_cached-Ends d o m q)

-- A submission that no other transaction runs beside either leaves the jobs and the outbox as they
-- were, or adds one QUEUED job and, in the same commit, one PENDING event that carries it.
pub submit_outboxed :
    (env : Env) (caller : Caller) (ws : Uuid) (p : SubmitJobRequest) (key : String) (d : Db)
    → OneJob d (serve alone (submit_job env caller ws p key) d).1
unfolding submit_job
submit_outboxed env caller ws p key d = serve-Ends d (OneJob d) _ (
    bind-Ends d (OneJob d) _ _ (inl (refl, refl)) (authorize-Neutral caller ws developer _) (λ u.
      bind-Ends d (OneJob d) _ _ (inl (refl, refl)) (image_policy-Neutral env p.image_digest) (λ v.
        keyed-Ends d env _ _
          (limited-Ends d env ws "jobs.submit" _ (enqueue-Ends d env caller _ _ none _ _ _ refl)))))

load_job-Neutral :
    (caller : Caller) (id : Uuid) (r : WorkspaceRole) → Neutral (load_job caller id r)
unfolding load_job
load_job-Neutral caller id r = search (neutral_rules, authorize-Neutral) depth 9

-- A rerun that no other transaction runs beside either leaves the jobs and the outbox as they were, or
-- adds one QUEUED job and, in the same commit, one PENDING event that carries it.
pub rerun_outboxed :
    (env : Env) (caller : Caller) (id : Uuid) (key : String) (d : Db)
    → OneJob d (serve alone (rerun_job env caller id key) d).1
unfolding rerun_job
rerun_outboxed env caller id key d = serve-Ends d (OneJob d) _ (
    bind-Ends d (OneJob d) _ _ (inl (refl, refl)) (load_job-Neutral caller id developer) (λ j.
      keyed-Ends d env _ _ (
        bind-Ends d (OneJob d) _ _ (inl (refl, refl)) (raise_if-Neutral _ 409 _) (λ v.
          limited-Ends d env j.workspace_id "jobs.rerun" _
            (enqueue-Ends d env caller _ _ (some j.id) _ _ _ refl)))))
