-- ===== src/Api/Apps/Cap.antt =====
-- The cap on deployed services (apps/api/app/core/quotas.py) under the deployments of
-- apps/api/app/api/v1/apps.py.
use hamicloud.Core.Idempotency.Replay.{race-Quiet, check_idempotency-Neutral}
use hamicloud.Core.ImagePolicy.Allowed.{image_policy-Neutral}
use hamicloud.Core.Quotas.Admission.{quota-Neutral}
use hamicloud.Api.Apps.Numbers.{load_app-Neutral}
use hamicloud.Session.Atomic.{pure-Quiet}
use hamicloud.Models.Json.{Fields}
use hamicloud.Core.RateLimit.Window.{rate_limit-Neutral}
use hamicloud.Core.Idempotency.{accepted_response, Request}
use hamicloud.Core.Events.{Headers, create_outbox_event}
use hamicloud.Core.RateLimit.{check_workspace_rate_limit}
use hamicloud.Session.Effect.{
  found-Neutral, commit-Ends, stage-Ends, query-Ends, query-Neutral, Beside, bind_ok-Ends,
  serve-Ends, Quiet-Ends, bind-Ends, Ends,
}
use hamicloud.Core.Audit.{record_audit_event}
use hamicloud.Schemas.{RollbackRequest, DeployReleaseRequest, Caller}
use hamicloud.Api.Jobs.{after_commit, unless_cached, commit_or_replay}
use hamicloud.Api.Apps.Releases.{
  rollback_as, deploy_as, release_of, next_release_number, rollback_release, deploy_release,
  publish_release,
}
use hamicloud.Models.Records.{
  DeployPayload, IdempotencyRecord, OutboxEvent, AcceptedOperationResponse, deployed_service,
  QuotaReservation,
}
use hamicloud.Models.Apps.{Application, Release}
use hamicloud.Models.Db.{
  written, insert_idempotency, insert_outbox, insert_audit, insert_release, set_generation, write,
  violated, write_all, Db,
}
use hamicloud.Prelude.{
  none, String, inr, refl, subst, some, [], ==_refl, not, ==_iff, false, true, inl, ◌&&◌,
  Bool-cases, distinct_counts, ◌==◌, select, Option, ◌∷◌, arith, ℕ, map, ◌+◌, ◌≡◌, ◌≤◌, List,
}
use hamicloud.Env.{Env}
use hamicloud.Core.Quotas.{
  is_deployed, get_workspace_quota_summary, usage_for_admission, deployed_services,
  enforce_workspace_quota, other_deployed_services,
}
use hamicloud.Models.Tenancy.{developer, AuditEvent, Uuid}
use hamicloud.Session.{pure, alone, serve, M, text, ◌>>◌, ok, Tx, ◌>>◌}

other_values :
    (ws app : Uuid) (rs : List Release)
    → map
        (λ (r : Release). r.application_id)
        (select (λ r. is_deployed ws r && not (r.application_id == app)) rs)
      ≡ select
          (λ y. not (y == app))
          (map (λ (r : Release). r.application_id) (select (is_deployed ws) rs))
other_values ws app [] = refl
other_values ws app (r ∷ rs) = ground (arith, other_values ws app rs)

-- An application adds at most one to the others.
services_split :
    (ws app : Uuid) (d : Db) → deployed_services ws d ≤ other_deployed_services ws app d + 1
unfolding deployed_services other_deployed_services
services_split ws app d = rw (other_values ws app d.releases) (
    ground (
      arith,
      distinct_counts app
          (map (λ (r : Release). r.application_id) (select (is_deployed ws) d.releases)),
    ))

-- A release of the application does not change the count of the others.
others_same :
    (ws : Uuid) (d x : Db) (r : Release)
    → x.releases ≡ r ∷ d.releases
    → other_deployed_services ws r.application_id x ≡ other_deployed_services ws r.application_id d
unfolding other_deployed_services
others_same ws d x r e =
    let own : (r.application_id == r.application_id) ≡ true = ==_refl r.application_id in
    rw e (ground arith)

elsewhere_same :
    (w : Uuid) (d x : Db) (r : Release)
    → x.releases ≡ r ∷ d.releases
    → (r.workspace_id == w) ≡ false
    → deployed_services w x ≡ deployed_services w d
unfolding deployed_services
elsewhere_same w d x r e o = rw e (ground arith)

-- The quota passes only where there is room for one more service beside the other applications.
quota_room :
    (env : Env) (n : ℕ) (ws app : Uuid) (r : Option QuotaReservation) (t : Tx)
    → (enforce_workspace_quota env n ws deployed_service (some app) true t).0 ≡ ok r
    → other_deployed_services ws app t.db + 1 ≤ env.settings.workspace_service_cap
unfolding enforce_workspace_quota usage_for_admission get_workspace_quota_summary
quota_room env n ws app r t h = ground arith

module _ (env : Env) (w : Uuid) where
  abbrev pub Capped : Db → Type 0
  Capped x = deployed_services w x ≤ env.settings.workspace_service_cap

  release-Capped :
      (d x : Db) (r : Release)
      → x.releases ≡ r ∷ d.releases
      → other_deployed_services r.workspace_id r.application_id d + 1
        ≤ env.settings.workspace_service_cap
      → Capped d
      → Capped x
  release-Capped d x r e room i = elim (Bool-cases (r.workspace_id == w)) [
    | inl here ↦
        let same : r.workspace_id ≡ w = (==_iff r.workspace_id w).0 here in
        subst (λ v. deployed_services v x ≤ env.settings.workspace_service_cap) same
          (omega (
            arith,
            services_split r.workspace_id r.application_id x,
            others_same r.workspace_id d x r e,
          ))
    | inr there ↦ omega (arith, elsewhere_same w d x r e there)
  ]

  changes-Capped :
      (d d' x : Db) (app : Uuid) (n : ℕ) (r : Release) (a : AuditEvent) (e : OutboxEvent)
      (k : IdempotencyRecord)
      → other_deployed_services r.workspace_id r.application_id d + 1
        ≤ env.settings.workspace_service_cap
      → Capped d
      → Beside d d'
      → write_all
          (set_generation app n
            ∷ insert_release r
            ∷ insert_audit a
            ∷ insert_outbox e
            ∷ insert_idempotency k
            ∷ [])
          d'
        ≡ written x
      → Capped x
  unfolding write_all violated write
  changes-Capped d d' x app n r a e k room i beside h =
      let added : x.releases ≡ r ∷ d.releases = ground arith in release-Capped d x r added room i

  publish-Ends :
      (d : Db) (caller : Caller) (req : Request) (app : Application) (r : Release) (action : String)
      (details : Fields) (p : DeployPayload) (headers : Headers)
      → other_deployed_services r.workspace_id r.application_id d + 1
        ≤ env.settings.workspace_service_cap
      → Capped d
      → Ends d [] Capped (publish_release env caller req app r action details p headers)
  unfolding publish_release commit_or_replay record_audit_event create_outbox_event
  publish-Ends d caller req app r action details p headers room i = stage-Ends d _ _ _ _ (
      stage-Ends d _ _ _ _ (
        stage-Ends d _ _ _ _ (
          stage-Ends d _ _ _ _ (
            stage-Ends d _ _ _ _ (
              commit-Ends d _ Capped (after_commit req (accepted_response env r.id))
                (accepted_response env r.id) refl (λ c. race-Quiet c req) i
                (λ d' x beside h. changes-Capped d d' x app.id _ r _ _ _ room i beside h))))))

  unless_cached-Ends :
      (d : Db) (o : Option AcceptedOperationResponse) (m : M AcceptedOperationResponse)
      → Capped d
      → Ends d [] Capped m
      → Ends d [] Capped (unless_cached o m)
  unless_cached-Ends d none m i q = q
  unless_cached-Ends d (some r) m i q = Quiet-Ends d [] _ (pure r) i (pure-Quiet r)

  -- The rate limit and the quota, which leaves room for one more service.
  limited-Ends :
      (d : Db) (ws app : Uuid) (route : String) (m : M AcceptedOperationResponse)
      → Capped d
      → (other_deployed_services ws app d + 1 ≤ env.settings.workspace_service_cap
          → Ends d [] Capped m)
      → Ends d [] Capped (do
        check_workspace_rate_limit env ws route
        enforce_workspace_quota env 0 ws deployed_service (some app) true
        m)
  limited-Ends d ws app route m i q = bind-Ends d _ _ _ i (rate_limit-Neutral env ws route) (λ u.
      bind_ok-Ends d _ _ _ i (quota-Neutral env 0 ws deployed_service (some app) true) (λ r t e h.
        q (
          subst (λ x. other_deployed_services ws app x + 1 ≤ env.settings.workspace_service_cap) e
            (quota_room env 0 ws app r t h))))

  -- A workspace whose deployed services are within the cap is within it after any deployment, of any
  -- application, that no other transaction runs beside.
  pub deploy-Capped :
      (caller : Caller) (id : Uuid) (p : DeployReleaseRequest) (key : String) (d : Db)
      → Capped d
      → Capped (serve alone (deploy_release env caller id p key) d).1
  unfolding deploy_release
  deploy-Capped caller id p key d i = serve-Ends d _ _ (
      bind-Ends d _ _ _ i (load_app-Neutral caller id developer) (λ app.
        bind-Ends d _ _ _ i (image_policy-Neutral env p.image_digest) (λ u.
          bind-Ends d _ _ _ i (check_idempotency-Neutral env _) (λ o. unless_cached-Ends d o _ i (
            limited-Ends d app.workspace_id app.id "apps.deploy" _ i (λ room.
              query-Ends d [] _ (next_release_number app.id) (deploy_as env caller app p key)
                (publish-Ends d caller _ app _ _ _ _ _ room i)))))))

  -- A workspace whose deployed services are within the cap is within it after any rollback, of any
  -- application, that no other transaction runs beside.
  pub rollback-Capped :
      (caller : Caller) (id : Uuid) (p : RollbackRequest) (key : String) (d : Db)
      → Capped d
      → Capped (serve alone (rollback_release env caller id p key) d).1
  unfolding rollback_release
  rollback-Capped caller id p key d i = serve-Ends d _ _ (
      bind-Ends d _ _ _ i (load_app-Neutral caller id developer) (λ app.
        bind-Ends d _ _ _ i (check_idempotency-Neutral env _) (λ o. unless_cached-Ends d o _ i (
          bind-Ends d _ _ _ i (query-Neutral (release_of app.id p.target_release_id)) (λ row.
            bind-Ends d _ _ _ i
              (found-Neutral row 404 (text "Target release not found for this application"))
              (λ target. limited-Ends d app.workspace_id app.id "apps.rollback" _ i (λ room.
                query-Ends d [] _ (next_release_number app.id)
                  (rollback_as env caller app target p key)
                  (publish-Ends d caller _ app _ _ _ _ _ room i))))))))
