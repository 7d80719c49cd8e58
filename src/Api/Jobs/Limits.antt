-- ===== src/Api/Jobs/Limits.antt =====
-- The quota of pending operations (apps/api/app/core/quotas.py) under the submissions of
-- apps/api/app/api/v1/jobs.py.
use hamicloud.Core.StateMachine.{state_in}
use hamicloud.Core.Quotas.Admission.{quota-Neutral}
use hamicloud.Core.RateLimit.Window.{rate_limit-Neutral}
use hamicloud.Core.Idempotency.Replay.{race-Quiet, check_idempotency-Neutral}
use hamicloud.Session.Atomic.{pure-Quiet}
use hamicloud.Core.ImagePolicy.Allowed.{image_policy-Neutral}
use hamicloud.Core.Auth.Access.{authorize-Neutral}
use hamicloud.Models.Json.{Fields}
use hamicloud.Session.Effect.{
  bind_ok-Ends, commit-Ends, Beside, stage-Ends, Quiet-Ends, bind-Ends, serve-Ends, Ends,
}
use hamicloud.Core.Idempotency.{accepted_response, Request}
use hamicloud.Core.Events.{Headers, create_outbox_event}
use hamicloud.Models.Jobs.{Job}
use hamicloud.Models.Records.{
  IdempotencyRecord, concurrent_job, OutboxEvent, QuotaReservation, AcceptedOperationResponse,
}
use hamicloud.Core.Audit.{record_audit_event}
use hamicloud.Schemas.{SubmitJobRequest, Caller}
use hamicloud.Prelude.{
  ◌&&◌, ◌==◌, count, ap, subst, refl, arith, ◌∷◌, ◌≡◌, false, some, ◌+◌, none, [], String, ◌≤◌,
  Option, ℕ,
}
use hamicloud.Api.Jobs.{after_commit, unless_cached, commit_or_replay, enqueue_job, submit_job}
use hamicloud.Models.Db.{
  written, insert_idempotency, insert_outbox, insert_audit, insert_job, write, violated, write_all,
  Db,
}
use hamicloud.Models.Tenancy.{developer, AuditEvent, Uuid}
use hamicloud.Env.{Env}
use hamicloud.Core.Quotas.{
  pending_job_states, usage_of, jobs_in, get_workspace_quota_summary, usage_for_admission,
  enforce_workspace_quota,
}
use hamicloud.Session.{pure, ok, alone, Tx, serve, M}

abbrev pub pending_jobs : Uuid → Db → ℕ
pending_jobs ws d = jobs_in pending_job_states ws d

-- The quota passes only where there is room for one more pending operation.
quota_room :
    (env : Env) (n : ℕ) (ws : Uuid) (r : Option QuotaReservation) (t : Tx)
    → (enforce_workspace_quota env n ws concurrent_job none false t).0 ≡ ok r
    → pending_jobs ws t.db + 1 ≤ env.settings.workspace_pending_operations
unfolding enforce_workspace_quota usage_for_admission get_workspace_quota_summary usage_of
quota_room env n ws r t h = ground arith

module _ (env : Env) (ws : Uuid) where
  abbrev pub Within : Db → Type 0
  Within x = pending_jobs ws x ≤ env.settings.workspace_pending_operations

  one_more :
      (d d' x : Db) (j : Job) (a : AuditEvent) (e : OutboxEvent) (k : IdempotencyRecord)
      → pending_jobs ws d + 1 ≤ env.settings.workspace_pending_operations
      → Beside d d'
      → write_all (insert_job j ∷ insert_audit a ∷ insert_outbox e ∷ insert_idempotency k ∷ []) d'
        ≡ written x
      → Within x
  unfolding write_all violated write jobs_in
  one_more d d' x j a e k room beside h =
      let jobs : x.jobs ≡ j ∷ d.jobs = ground arith in
      let same =
        ap (count (λ (i : Job). i.workspace_id == ws && state_in i.state pending_job_states))
          jobs in
      ground arith

  enqueue-Ends :
      (d : Db) (caller : Caller) (req : Request) (j : Job) (parent : Option Uuid) (action : String)
      (details : Fields) (headers : Headers)
      → pending_jobs ws d + 1 ≤ env.settings.workspace_pending_operations
      → Ends d [] Within (enqueue_job env caller req j parent action details headers)
  unfolding enqueue_job commit_or_replay record_audit_event create_outbox_event
  enqueue-Ends d caller req j parent action details headers room = stage-Ends d _ _ _ _ (
      stage-Ends d _ _ _ _ (
        stage-Ends d _ _ _ _ (
          stage-Ends d _ _ _ _ (
            commit-Ends d _ Within (after_commit req (accepted_response env j.id))
              (accepted_response env j.id) refl (λ c. race-Quiet c req) (omega arith)
              (λ d' x beside h. one_more d d' x j _ _ _ room beside h)))))

  unless_cached-Ends :
      (d : Db) (o : Option AcceptedOperationResponse) (m : M AcceptedOperationResponse)
      → Within d
      → Ends d [] Within m
      → Ends d [] Within (unless_cached o m)
  unless_cached-Ends d none m i q = q
  unless_cached-Ends d (some r) m i q = Quiet-Ends d [] _ (pure r) i (pure-Quiet r)

  -- A workspace whose pending jobs are within the limit of pending operations is within it after any
  -- submission to it that no other transaction runs beside.
  pub pending_bounded :
      (caller : Caller) (p : SubmitJobRequest) (key : String) (d : Db)
      → Within d
      → Within (serve alone (submit_job env caller ws p key) d).1
  unfolding submit_job
  pending_bounded caller p key d i = serve-Ends d _ _ (
      bind-Ends d _ _ _ i (authorize-Neutral caller ws developer _) (λ m.
        bind-Ends d _ _ _ i (image_policy-Neutral env p.image_digest) (λ u.
          bind-Ends d _ _ _ i (check_idempotency-Neutral env _) (λ o. unless_cached-Ends d o _ i (
            bind-Ends d _ _ _ i (rate_limit-Neutral env ws "jobs.submit") (λ v.
              bind_ok-Ends d _ _ _ i (quota-Neutral env 0 ws concurrent_job none false) (λ r t e h.
                enqueue-Ends d caller _ _ _ _ _ _ (
                  subst (λ x. pending_jobs ws x + 1 ≤ env.settings.workspace_pending_operations) e
                    (quota_room env 0 ws r t h)))))))))
