-- ===== src/Api/Jobs/Replayed.antt =====
-- The replay of a submission of apps/api/app/api/v1/jobs.py under its Idempotency-Key.
use hamicloud.Core.Quotas.Admission.{quota-Neutral}
use hamicloud.Core.RateLimit.Window.{rate_limit-Neutral}
use hamicloud.Core.Idempotency.Replay.{race-Quiet, check_idempotency-Neutral}
use hamicloud.Session.Atomic.{pure-Quiet}
use hamicloud.Models.Json.{Fields}
use hamicloud.Core.ImagePolicy.Allowed.{image_policy-Neutral}
use hamicloud.Core.Events.{Headers, create_outbox_event}
use hamicloud.Core.Audit.{record_audit_event}
use hamicloud.Core.Auth.Access.{authorize-Neutral, authorize_decides, membership, decision}
use hamicloud.Session.Effect.{
  commit-Ends, stage-Ends, bind-Ends, Quiet-Ends, Ends, bind_ok-Ends, serve-Ends, Beside,
}
use hamicloud.Models.Jobs.{Job}
use hamicloud.Core.Auth.{authorize_workspace_access}
use hamicloud.Core.ImagePolicy.{validate_image_policy}
use hamicloud.Api.Jobs.{
  new_job, after_commit, unless_cached, commit_or_replay, enqueue_job, submit_request, submit_job,
}
use hamicloud.Models.Records.{
  concurrent_job, IdempotencyRecord, OutboxEvent, AcceptedOperationResponse,
}
use hamicloud.Core.Idempotency.{
  accepted_response, stored, create_idempotency_record, check_idempotency,
}
use hamicloud.Session.{pure, ok, alone, serve, Tx, M}
use hamicloud.Models.Db.{
  same_member, written, insert_idempotency, insert_outbox, insert_audit, insert_job, write,
  violated, write_all, Db,
}
use hamicloud.Prelude.{
  none, inl, Option, ap, sym, first, subst, ◌∙◌, ==_refl, ◌==◌, inr, [], ◌∷◌, refl, eq_iff, ◌=s=◌,
  arith, false, leb, some, ◌⊎◌, true, ◌≡◌, ◌*◌, ◌+◌, ltb, String, ℕ,
}
use hamicloud.Schemas.{job_body, SubmitJobRequest, Caller}
use hamicloud.Models.Tenancy.{AuditEvent, developer, WorkspaceMembership, seconds, Uuid, Time}
use hamicloud.Env.{RedisReply, RateKey, Env}

-- The environment of a later request: another time, other fresh identifiers, other counts.
abbrev later : Env → Time → (ℕ → Uuid) → (RateKey → RedisReply) → Env
later env now uuids redis = record env { now = now; uuid = uuids; redis = redis }

module _ (env : Env) (caller : Caller) (ws : Uuid) (p : SubmitJobRequest) (key : String)
    (now : Time) (uuids : ℕ → Uuid) (redis : RateKey → RedisReply)
    (soon : ltb now (env.now + seconds (24 * 3600)) ≡ true) where
  abbrev again : M AcceptedOperationResponse
  again = submit_job (later env now uuids redis) caller ws p key

  abbrev pub Repeats : Db → Db → Type 0
  Repeats d x = (x ≡ d) ⊎ (serve alone again x ≡ (ok (accepted_response env (env.uuid 0)), x))

  -- The stored record answers.
  check_replays :
      (t : Tx)
      → stored (submit_request env ws p key) t.db
        ≡ some (create_idempotency_record env 4 (submit_request env ws p key) 202 (env.uuid 0))
      → check_idempotency (later env now uuids redis) (submit_request env ws p key) t
        ≡ (ok (some (accepted_response env (env.uuid 0))), t)
  unfolding check_idempotency create_idempotency_record
  check_replays t h =
      let late : leb (env.now + seconds (24 * 3600)) now ≡ false = ground arith in
      let same : (env.payload_hash (job_body p) =s= env.payload_hash (job_body p)) ≡ true =
        (eq_iff _ _).1 refl in
      rw (h, late, same)

  -- An authorized request under a stored key.
  replays :
      (t : Tx) (m : WorkspaceMembership)
      → authorize_workspace_access caller ws developer "Workspace not found" t ≡ (ok m, t)
      → validate_image_policy env p.image_digest t ≡ (ok tt, t)
      → stored (submit_request env ws p key) t.db
        ≡ some (create_idempotency_record env 4 (submit_request env ws p key) 202 (env.uuid 0))
      → again t ≡ (ok (accepted_response env (env.uuid 0)), t)
  unfolding submit_job validate_image_policy
  replays t m a i h = rw (a, i, check_replays t h)

  abbrev record_of : IdempotencyRecord
  record_of = create_idempotency_record env 4 (submit_request env ws p key) 202 (env.uuid 0)

  changes_stored :
      (d' x : Db) (j : Job) (a : AuditEvent) (e : OutboxEvent)
      → write_all
          (insert_job j ∷ insert_audit a ∷ insert_outbox e ∷ insert_idempotency record_of ∷ [])
          d'
        ≡ written x
      → (stored (submit_request env ws p key) x ≡ some record_of) × (x.memberships ≡ d'.memberships)
  unfolding write_all violated write create_idempotency_record
  changes_stored d' x j a e h =
      let own : (ws == ws) ≡ true = ==_refl ws in
      let endpoint : ((submit_request env ws p key).endpoint
            =s= (submit_request env ws p key).endpoint)
          ≡ true =
        (eq_iff _ _).1 refl in
      let same : (key =s= key) ≡ true = (eq_iff key key).1 refl in (ground arith, ground arith)

  changes_replayed :
      (d d' x : Db) (m : WorkspaceMembership) (j : Job) (a : AuditEvent) (e : OutboxEvent)
      → decision caller ws developer "Workspace not found" (membership caller ws d) ≡ ok m
      → ((t : Tx) → validate_image_policy env p.image_digest t ≡ (ok tt, t))
      → Beside d d'
      → write_all
          (insert_job j ∷ insert_audit a ∷ insert_outbox e ∷ insert_idempotency record_of ∷ [])
          d'
        ≡ written x
      → Repeats d x
  unfolding serve
  changes_replayed d d' x m j a e auth image beside h =
      let (row, members) = changes_stored d' x j a e h in
      let same : x.memberships ≡ d.memberships = members ∙ beside.4 in
      let allowed : decision caller ws developer "Workspace not found" (membership caller ws x)
          ≡ ok m =
        subst
          (λ l.
            decision caller ws developer "Workspace not found"
              (first (same_member ws caller.subject) l)
            ≡ ok m)
          (sym same) auth in
      let t : Tx = record { db = x; staged = []; others = alone } in
      inr (
        ap (λ r. (r.0, r.1.db))
          (replays t m
            (authorize_decides caller ws developer "Workspace not found" t
              ∙ ap (λ r. (r, t)) allowed)
            (image t) row))

  enqueue-Ends :
      (d : Db) (m : WorkspaceMembership) (action : String) (details : Fields) (headers : Headers)
      → decision caller ws developer "Workspace not found" (membership caller ws d) ≡ ok m
      → ((t : Tx) → validate_image_policy env p.image_digest t ≡ (ok tt, t))
      → Ends d [] (Repeats d) (
          enqueue_job env caller
            (submit_request env ws p key)
            (new_job env ws p)
            none
            action
            details
            headers)
  unfolding enqueue_job commit_or_replay record_audit_event create_outbox_event
  enqueue-Ends d m action details headers auth image =
      let req = submit_request env ws p key in
      stage-Ends d _ _ _ _ (
        stage-Ends d _ _ _ _ (
          stage-Ends d _ _ _ _ (
            stage-Ends d _ _ _ _ (
              commit-Ends d _ (Repeats d) (after_commit req (accepted_response env (env.uuid 0)))
                (accepted_response env (env.uuid 0)) refl (λ c. race-Quiet c req) (inl refl)
                (λ d' x beside h. changes_replayed d d' x m _ _ _ auth image beside h)))))

  unless_cached-Ends :
      (d : Db) (o : Option AcceptedOperationResponse) (m : M AcceptedOperationResponse)
      → Ends d [] (Repeats d) m
      → Ends d [] (Repeats d) (unless_cached o m)
  unless_cached-Ends d none m q = q
  unless_cached-Ends d (some r) m q = Quiet-Ends d [] _ (pure r) (inl refl) (pure-Quiet r)

  image_fixed :
      (t s : Tx)
      → (validate_image_policy env p.image_digest t).0 ≡ ok tt
      → validate_image_policy env p.image_digest s ≡ (ok tt, s)
  unfolding validate_image_policy
  image_fixed t s h = ground arith

  -- A submission that no other transaction runs beside either leaves the database as it was, or the
  -- same submission made again within 24 hours, whatever the rate limit and the quota then say, gets
  -- the response with the same operation and leaves the database as the first one left it.
  pub submit_replayed : (d : Db) → Repeats d (serve alone (submit_job env caller ws p key) d).1
  unfolding submit_job
  submit_replayed d = serve-Ends d _ _ (
      bind_ok-Ends d _ _ _ (inl refl) (authorize-Neutral caller ws developer _) (λ m t e r.
        bind_ok-Ends d _ _ _ (inl refl) (image_policy-Neutral env p.image_digest) (λ u t2 e2 r2.
          bind-Ends d _ _ _ (inl refl) (check_idempotency-Neutral env _) (λ o.
            unless_cached-Ends d o _ (
              bind-Ends d _ _ _ (inl refl) (rate_limit-Neutral env ws "jobs.submit") (λ v.
                bind-Ends d _ _ _ (inl refl) (quota-Neutral env 0 ws concurrent_job none false)
                  (λ w.
                    enqueue-Ends d m _ _ _
                      (subst
                        (λ x.
                          decision caller ws developer "Workspace not found"
                            (membership caller ws x)
                          ≡ ok m)
                        e
                        (ap (λ q. q.0)
                            (sym (authorize_decides caller ws developer "Workspace not found" t))
                          ∙ r))
                      (λ s. image_fixed t2 s r2))))))))
