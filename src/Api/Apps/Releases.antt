-- ===== src/Api/Apps/Releases.antt =====
-- `deploy_release` and `rollback_release` of apps/api/app/api/v1/apps.py.
use hamicloud.Core.Audit.{record_audit_event}
use hamicloud.Core.Quotas.{enforce_workspace_quota}
use hamicloud.Core.ImagePolicy.{validate_image_policy}
use hamicloud.Core.Events.{create_outbox_event, Headers}
use hamicloud.Core.RateLimit.{check_workspace_rate_limit}
use hamicloud.Prelude.{
  max, if◌then◌else◌, [], or_default, ◌∷◌, ◌&&◌, true, ◌==◌, some, ◌+s◌, first, ◌+◌, none, String,
  ℕ, Option, List,
}
use hamicloud.Schemas.{rollback_body, deploy_body, RollbackRequest, DeployReleaseRequest, Caller}
use hamicloud.Api.Apps.{load_app}
use hamicloud.Api.Jobs.{unless_cached, commit_or_replay}
use hamicloud.Models.Json.{end, field, number, Fields}
use hamicloud.Models.Json.{text as json_text}
use hamicloud.Models.Apps.{ReleaseConfig, Release, Application, image_ready}
use hamicloud.Models.Records.{
  deployed_service, app_deployment_requested, deployment, DeployPayload, AcceptedOperationResponse,
}
use hamicloud.Models.Db.{Db, set_generation, insert_release, insert_outbox}
use hamicloud.Models.Tenancy.{Uuid, developer}
use hamicloud.Session.{M, ◌>>=◌, ◌>>◌, query, found, stage, text}
use hamicloud.Core.Idempotency.{Request, check_idempotency}
use hamicloud.Env.{Env}

-- `coalesce(max(release_number), 0)` of an application.
unfoldable pub max_release_number : Uuid → List Release → ℕ
max_release_number app [] = 0
max_release_number app (r ∷ rs) =
    let rest = max_release_number app rs in
    if r.application_id == app then max r.release_number rest else rest

unfoldable pub next_release_number : Uuid → Db → ℕ
unfolding max_release_number
next_release_number app d = max_release_number app d.releases + 1

abbrev pub config_of : DeployReleaseRequest → ReleaseConfig
config_of p = record {
  port = some p.port;
  health_path = some p.health_path;
  env_vars = some p.env_vars;
  cpu_limit = some p.cpu_limit;
  memory_limit = some p.memory_limit;
}

-- A release whose image exists already; its identifier is the second UUID of the request.
abbrev pub ready_release : Env → Application → ℕ → String → ReleaseConfig → Release
ready_release env app n image config = record {
  id = env.uuid 1;
  application_id = app.id;
  workspace_id = app.workspace_id;
  release_number = n;
  commit_sha = none;
  image_digest = image;
  config_json = config;
  status = image_ready;
  repository_id = none;
  git_ref = none;
  commit_message = none;
  created_at = env.now;
}

-- The staging that both handlers share: the new generation and release, an audit event and an
-- outbox event, then the commit.
unfoldable pub publish_release :
    Env
    → Caller
    → Request
    → Application
    → Release
    → String
    → Fields
    → DeployPayload
    → Headers
    → M AcceptedOperationResponse
publish_release env caller req app rel action details payload headers = do
  stage (set_generation app.id (app.desired_generation + 1))
  stage (insert_release rel)
  record_audit_event env 2 app.workspace_id caller.subject action "RELEASE" (env.text_of rel.id)
      details
  stage (
      insert_outbox (
        create_outbox_event env 4 app.workspace_id app_deployment_requested (deployment payload)
          headers (env.uuid 3)))
  commit_or_replay env 5 req rel.id

abbrev pub deploy_request : Env → Application → DeployReleaseRequest → String → Request
deploy_request env app p key = record {
  workspace_id = app.workspace_id;
  endpoint = "/v1/apps/" +s env.text_of app.id +s "/deployments";
  idempotency_key = key;
  payload_hash = env.payload_hash (deploy_body p);
}

abbrev pub deploy_payload : Application → Release → ℕ → String → Option Uuid → DeployPayload
deploy_payload app rel port health_path target = record {
  application_id = app.id;
  release_id = rel.id;
  generation = app.desired_generation + 1;
  image_digest = rel.image_digest;
  port = port;
  health_path = health_path;
  target_release_id = target;
}

-- The release of a deployment, under its number.
abbrev pub deploy_as :
    Env → Caller → Application → DeployReleaseRequest → String → ℕ → M AcceptedOperationResponse
deploy_as env caller app p key n =
    let rel = ready_release env app n p.image_digest (config_of p) in
    publish_release env caller (deploy_request env app p key) app rel "app.release.deployed"
      (field "application_id" (json_text (env.text_of app.id))
        (field "release_number" (number n) (field "image_digest" (json_text p.image_digest) end)))
      (deploy_payload app rel p.port p.health_path none) (("idempotency_key", key) ∷ [])

unfoldable pub deploy_release :
    Env → Caller → Uuid → DeployReleaseRequest → String → M AcceptedOperationResponse
unfolding load_app publish_release
deploy_release env caller app_id p key = do
  app ← load_app caller app_id developer
  validate_image_policy env p.image_digest
  cached ← check_idempotency env (deploy_request env app p key)
  unless_cached cached (do
    check_workspace_rate_limit env app.workspace_id "apps.deploy"
    enforce_workspace_quota env 0 app.workspace_id deployed_service (some app.id) true
    n ← query (next_release_number app.id)
    deploy_as env caller app p key n)

abbrev pub rollback_request : Env → Application → RollbackRequest → String → Request
rollback_request env app p key = record {
  workspace_id = app.workspace_id;
  endpoint = "/v1/apps/" +s env.text_of app.id +s "/rollbacks";
  idempotency_key = key;
  payload_hash = env.payload_hash (rollback_body p);
}

-- A release of this application.
abbrev pub release_of : Uuid → Uuid → Db → Option Release
release_of app id d = first (λ (r : Release). r.id == id && r.application_id == app) d.releases

-- The release that repeats the target, under its number.
abbrev pub rollback_as :
    Env
    → Caller
    → Application
    → Release
    → RollbackRequest
    → String
    → ℕ
    → M AcceptedOperationResponse
rollback_as env caller app target p key n =
    let rel = ready_release env app n target.image_digest target.config_json in
    publish_release env caller (rollback_request env app p key) app rel "app.release.rolled_back"
      (field "application_id" (json_text (env.text_of app.id)) (
        field "target_release_id" (json_text (env.text_of target.id))
          (field "release_number" (number n) end)))
      (deploy_payload app rel (or_default target.config_json.port 8080)
        (or_default target.config_json.health_path "/healthz") (some target.id))
      (("rollback_from", env.text_of target.id) ∷ ("idempotency_key", key) ∷ [])

unfoldable pub rollback_release :
    Env → Caller → Uuid → RollbackRequest → String → M AcceptedOperationResponse
unfolding load_app publish_release
rollback_release env caller app_id p key = do
  app ← load_app caller app_id developer
  cached ← check_idempotency env (rollback_request env app p key)
  unless_cached cached (do
    row ← query (release_of app.id p.target_release_id)
    target ← found row 404 (text "Target release not found for this application")
    check_workspace_rate_limit env app.workspace_id "apps.rollback"
    enforce_workspace_quota env 0 app.workspace_id deployed_service (some app.id) true
    n ← query (next_release_number app.id)
    rollback_as env caller app target p key n)
