-- ===== src/Api/Apps/Numbers.antt =====
-- The release numbers and generations of apps/api/app/api/v1/apps.py.
use hamicloud.Core.Quotas.Admission.{quota-Neutral}
use hamicloud.Core.RateLimit.Window.{rate_limit-Neutral}
use hamicloud.Core.Quotas.{enforce_workspace_quota}
use hamicloud.Core.RateLimit.{check_workspace_rate_limit}
use hamicloud.Core.ImagePolicy.Allowed.{image_policy-Neutral}
use hamicloud.Session.Atomic.{pure-Quiet}
use hamicloud.Core.Auth.Access.{authorize-Neutral}
use hamicloud.Session.{text, ◌>>◌, ◌>>=◌, pure, alone, serve, M, ok, Tx}
use hamicloud.Core.Auth.{authorize_workspace_access}
use hamicloud.Core.Idempotency.Replay.{check_idempotency-Neutral, race-Quiet}
use hamicloud.Models.Json.{Fields}
use hamicloud.Core.Idempotency.{accepted_response, Request}
use hamicloud.Schemas.{RollbackRequest, DeployReleaseRequest, Caller}
use hamicloud.Session.Effect.{
  query-Neutral, found-Neutral, query-Ends, bind-Ends, bind_ok-Ends, serve-Ends, Quiet-Ends,
  neutral_rules, Neutral, commit-Ends, stage-Ends, Ends, Beside,
}
use hamicloud.Env.{Env}
use hamicloud.Core.Events.{Headers, create_outbox_event}
use hamicloud.Core.Audit.{record_audit_event}
use hamicloud.Api.Jobs.{unless_cached, after_commit, commit_or_replay}
use hamicloud.Api.Apps.{load_app, app_with}
use hamicloud.Models.Records.{
  deployed_service, AcceptedOperationResponse, IdempotencyRecord, deployment, pending,
  DeployPayload, OutboxEvent,
}
use hamicloud.Models.Apps.{Application, Release}
use hamicloud.Prelude.{
  sym, subst, none, Option, first-eq_some, ==_iff, refl, inl, inr, String, ap, arith, ◌<◌, update,
  [], true, ◌∷◌, some, false, ◌+◌, leb, ◌&&◌, ◌==◌, not, any, ◌⊎◌, ◌≡◌, Bool, ℕ, List,
}
use hamicloud.Models.Db.{
  written, insert_idempotency, insert_outbox, insert_audit, insert_release, set_generation, write,
  violated, write_all, Db,
}
use hamicloud.Api.Apps.Releases.{
  release_of, deploy_as, rollback_as, deploy_release, rollback_release, publish_release,
  next_release_number, max_release_number,
}
use hamicloud.Models.Tenancy.{developer, WorkspaceRole, AuditEvent, Uuid}

-- No release of the application has a number as large as this one.
abbrev pub is_newest : Uuid → ℕ → Db → Bool
is_newest app n d =
    not (any (λ (r : Release). r.application_id == app && leb n r.release_number) d.releases)

pub max_bounds :
    (app : Uuid) (rs : List Release) (n : ℕ)
    → max_release_number app rs < n
    → any (λ (r : Release). r.application_id == app && leb n r.release_number) rs ≡ false
unfolding max_release_number
max_bounds app [] n h = refl
max_bounds app (r ∷ rs) n h = let ih = max_bounds app rs n in ground arith

next_newest : (app : Uuid) (d : Db) → is_newest app (next_release_number app d) d ≡ true
unfolding next_release_number
next_newest app d =
    ap not (max_bounds app d.releases (max_release_number app d.releases + 1) (omega arith))

-- What a deployment of one of the applications adds: nothing, or a release of the application with
-- a new number, the application's next generation, and one PENDING event that names both.
abbrev pub OneRelease : Uuid → Db → Db → Type 0
OneRelease id d d' =
    ((d'.releases ≡ d.releases) × (d'.applications ≡ d.applications) × (d'.outbox ≡ d.outbox))
    ⊎ ((app : Application) × (r : Release) × (e : OutboxEvent) × (p : DeployPayload) × (app_with id
            d
          ≡ some app)
        × (d'.releases ≡ r ∷ d.releases)
        × (r.application_id ≡ id)
        × (is_newest id r.release_number d ≡ true)
        × (d'.applications
            ≡ update (λ (a : Application). a.id == id)
                (λ a. record a { desired_generation = app.desired_generation + 1 }) d.applications)
        × (d'.outbox ≡ e ∷ d.outbox)
        × (e.status ≡ pending)
        × (e.payload_json ≡ deployment p)
        × (p.release_id ≡ r.id)
        × (p.generation ≡ app.desired_generation + 1))

release_changes :
    (d d' x : Db) (app : Application) (r : Release) (p : DeployPayload) (a : AuditEvent)
    (e : OutboxEvent) (k : IdempotencyRecord)
    → app_with app.id d ≡ some app
    → r.application_id ≡ app.id
    → is_newest app.id r.release_number d ≡ true
    → e.status ≡ pending
    → e.payload_json ≡ deployment p
    → p.release_id ≡ r.id
    → p.generation ≡ app.desired_generation + 1
    → Beside d d'
    → write_all
        (set_generation app.id (app.desired_generation + 1)
          ∷ insert_release r
          ∷ insert_audit a
          ∷ insert_outbox e
          ∷ insert_idempotency k
          ∷ [])
        d'
      ≡ written x
    → OneRelease app.id d x
unfolding write_all violated write
release_changes d d' x app r p a e k f o n s c i g beside h =
    inr (app, r, e, p, f, ground arith, o, n, ground arith, ground arith, s, c, i, g)

publish-Ends :
    (id : Uuid) (d : Db) (env : Env) (caller : Caller) (req : Request) (app : Application)
    (r : Release) (action : String) (details : Fields) (p : DeployPayload) (headers : Headers)
    → app.id ≡ id
    → app_with id d ≡ some app
    → r.application_id ≡ app.id
    → is_newest app.id r.release_number d ≡ true
    → p.release_id ≡ r.id
    → p.generation ≡ app.desired_generation + 1
    → Ends d [] (OneRelease id d) (publish_release env caller req app r action details p headers)
unfolding publish_release commit_or_replay record_audit_event create_outbox_event
publish-Ends id d env caller req app r action details p headers s f o n i g = stage-Ends d _ _ _ _ (
    stage-Ends d _ _ _ _ (
      stage-Ends d _ _ _ _ (
        stage-Ends d _ _ _ _ (
          stage-Ends d _ _ _ _ (
            commit-Ends d _ (OneRelease id d) (after_commit req (accepted_response env r.id))
              (accepted_response env r.id) refl (λ c. race-Quiet c req) (inl (refl, refl, refl))
              (λ d' x beside h.
                subst (λ k. OneRelease k d x) s
                  (release_changes d d' x app r p _ _ _
                    (subst (λ k. app_with k d ≡ some app) (sym s) f) o n refl refl i g beside
                    h)))))))

pub load_app-Neutral :
    (caller : Caller) (id : Uuid) (r : WorkspaceRole) → Neutral (load_app caller id r)
unfolding load_app
load_app-Neutral caller id r = search (neutral_rules, authorize-Neutral) depth 9

-- The application that the lookup returns is the one with the identifier.
load_app_finds :
    (caller : Caller) (id : Uuid) (r : WorkspaceRole) (t : Tx) (app : Application)
    → (load_app caller id r t).0 ≡ ok app
    → app_with id t.db ≡ some app
unfolding load_app authorize_workspace_access
load_app_finds caller id r t app h = grind arith

app_with_id : (id : Uuid) (d : Db) (app : Application) → app_with id d ≡ some app → app.id ≡ id
app_with_id id d app h =
    (==_iff app.id id).0 (first-eq_some (λ (a : Application). a.id == id) d.applications app h)

same_all : (id : Uuid) (d : Db) → OneRelease id d d
same_all id d = inl (refl, refl, refl)

unless_cached-Ends :
    (id : Uuid) (d : Db) (o : Option AcceptedOperationResponse) (m : M AcceptedOperationResponse)
    → Ends d [] (OneRelease id d) m
    → Ends d [] (OneRelease id d) (unless_cached o m)
unless_cached-Ends id d none m q = q
unless_cached-Ends id d (some r) m q = Quiet-Ends d [] _ (pure r) (same_all id d) (pure-Quiet r)

-- The rate limit and the quota come before the changes, and stage nothing else.
limited-Ends :
    (id : Uuid) (d : Db) (env : Env) (ws app : Uuid) (route : String)
    (m : M AcceptedOperationResponse)
    → Ends d [] (OneRelease id d) m
    → Ends d [] (OneRelease id d) (do
      check_workspace_rate_limit env ws route
      enforce_workspace_quota env 0 ws deployed_service (some app) true
      m)
limited-Ends id d env ws app route m q =
    bind-Ends d _ _ _ (same_all id d) (rate_limit-Neutral env ws route) (λ u.
      bind-Ends d _ _ _ (same_all id d) (quota-Neutral env 0 ws deployed_service (some app) true)
        (λ v. q))

-- The lookup of the application, and its row.
loaded-Ends :
    (id : Uuid) (d : Db) (caller : Caller) (f : Application → M AcceptedOperationResponse)
    → ((app : Application) → app_with id d ≡ some app → Ends d [] (OneRelease id d) (f app))
    → Ends d [] (OneRelease id d) (load_app caller id developer >>= f)
loaded-Ends id d caller f q =
    bind_ok-Ends d _ _ _ (same_all id d) (load_app-Neutral caller id developer) (λ app t e r.
      q app (subst (λ x. app_with id x ≡ some app) e (load_app_finds caller id developer t app r)))

-- A deployment that no other transaction runs beside leaves releases, applications and outbox as they
-- were, or adds, in one commit, a release of the application whose number is above all of the
-- application's numbers, the application's next generation, and one PENDING event that names both.
pub deploy_numbered :
    (env : Env) (caller : Caller) (id : Uuid) (p : DeployReleaseRequest) (key : String) (d : Db)
    → OneRelease id d (serve alone (deploy_release env caller id p key) d).1
unfolding deploy_release
deploy_numbered env caller id p key d = serve-Ends d (OneRelease id d) _ (
    loaded-Ends id d caller _ (λ app row.
      bind-Ends d _ _ _ (same_all id d) (image_policy-Neutral env p.image_digest) (λ u.
        bind-Ends d _ _ _ (same_all id d) (check_idempotency-Neutral env _) (λ o.
          unless_cached-Ends id d o _ (
            limited-Ends id d env app.workspace_id app.id "apps.deploy" _ (
              query-Ends d [] _ (next_release_number app.id) (deploy_as env caller app p key) (
                publish-Ends id d env caller _ app _ _ _ _ _ (app_with_id id d app row) row refl
                  (next_newest app.id d) refl refl)))))))

-- A rollback that no other transaction runs beside leaves releases, applications and outbox as they
-- were, or adds, in one commit, a release of the application whose number is above all of the
-- application's numbers, the application's next generation, and one PENDING event that names both.
pub rollback_numbered :
    (env : Env) (caller : Caller) (id : Uuid) (p : RollbackRequest) (key : String) (d : Db)
    → OneRelease id d (serve alone (rollback_release env caller id p key) d).1
unfolding rollback_release
rollback_numbered env caller id p key d = serve-Ends d (OneRelease id d) _ (
    loaded-Ends id d caller _ (λ app row.
      bind-Ends d _ _ _ (same_all id d) (check_idempotency-Neutral env _) (λ o.
        unless_cached-Ends id d o _ (
          bind-Ends d _ _ _ (same_all id d) (query-Neutral (release_of app.id p.target_release_id))
            (λ target_row.
              bind-Ends d _ _ _ (same_all id d)
                (found-Neutral target_row 404
                  (text "Target release not found for this application"))
                (λ target. limited-Ends id d env app.workspace_id app.id "apps.rollback" _ (
                  query-Ends d [] _ (next_release_number app.id)
                    (rollback_as env caller app target p key)
                    (publish-Ends id d env caller _ app _ _ _ _ _ (app_with_id id d app row) row
                      refl (next_newest app.id d) refl refl))))))))
