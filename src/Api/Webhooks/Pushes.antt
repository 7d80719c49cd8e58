-- ===== src/Api/Webhooks/Pushes.antt =====
-- What apps/api/app/api/v1/webhooks.py builds for a push.
use hamicloud.Core.Events.{create_outbox_event}
use hamicloud.Core.Idempotency.{unexpected_integrity_error}
use hamicloud.Api.Apps.Releases.{next_release_number}
use hamicloud.Api.Webhooks.Rows.{delivery_row, answer, GitHub, WebhookDeliveryResponse}
use hamicloud.Models.Records.{build, app_build_requested, BuildPayload}
use hamicloud.Models.Db.{
  uq_webhook_deliveries_repo_delivery, insert_outbox, insert_delivery, insert_release, Constraint,
  Db,
}
use hamicloud.Session.{commit, stage, rollback, ◌>>◌, query, ◌>>=◌, pure, M}
use hamicloud.Api.Apps.Builds.{default_config, latest_release}
use hamicloud.Env.{Env}
use hamicloud.Models.Apps.{ReleaseConfig, requested, Application, Release, Repository}
use hamicloud.Prelude.{
  [], ◌+◌, ◌&&◌, ◌∷◌, ◌==◌, take_text, is_blank, select, ◌=s=◌, true, none, false, if◌then◌else◌,
  some, Bool, List, starts_with, remove_all, ℕ, String, Option,
}
use hamicloud.Models.Tenancy.{Uuid}

-- `ref.replace("refs/heads/", "")` where the ref starts so.
unfoldable pub branch_of : String → String
unfolding remove_all starts_with
branch_of ref = if starts_with ref "refs/heads/" then remove_all "refs/heads/" ref else ref

abbrev pub builds_branch : String → Option String → Bool
builds_branch branch none = true
builds_branch branch (some b) = b =s= branch

abbrev pub names : Option Uuid → Uuid → Bool
names none id = false
names (some r) id = r == id

-- The applications that a push to a branch builds.
unfoldable pub matched_apps : Repository → String → Db → List Application
matched_apps repo branch d =
    select
      (λ (a : Application).
        (a.workspace_id == repo.workspace_id && names a.repository_id repo.id)
        && builds_branch branch a.git_branch)
      d.applications

abbrev pub pushed_config : Option Release → ReleaseConfig
pushed_config none = default_config
pushed_config (some r) = r.config_json

-- `commit_msg[:250] if commit_msg else None`
abbrev pub short_message : Option String → Option String
short_message none = none
short_message (some m) = if is_blank m then none else some (take_text 250 m)

-- The release of an application for a push; its identifier is the nth UUID.
abbrev pub pushed_release :
    Env
    → ℕ
    → Repository
    → String
    → String
    → Option String
    → Application
    → ℕ
    → Option Release
    → Release
pushed_release env n repo branch sha message app number latest = record {
  id = env.uuid n;
  application_id = app.id;
  workspace_id = app.workspace_id;
  release_number = number;
  commit_sha = some sha;
  image_digest = "pending";
  config_json = pushed_config latest;
  status = requested;
  repository_id = some repo.id;
  git_ref = some branch;
  commit_message = short_message message;
  created_at = env.now;
}

abbrev pub pushed_payload : Repository → String → String → Application → Release → BuildPayload
pushed_payload repo branch sha app rel = record {
  release_id = rel.id;
  application_id = app.id;
  repository_id = repo.id;
  commit_sha = some sha;
  git_ref = branch;
  dockerfile_path = app.dockerfile_path;
  context_dir = app.context_dir;
  repo_url = some repo.repo_url;
}

-- The loop over the matched applications, and the release of the last one. Each takes three UUIDs:
-- the release's, the event's row's and the event's.
unfoldable pub stage_builds :
    Env
    → ℕ
    → Repository
    → String
    → String
    → Option String
    → List Application
    → Option Uuid
    → M (Option Uuid)
unfolding latest_release
stage_builds env n repo branch sha message [] last_release_id = pure last_release_id
stage_builds env n repo branch sha message (app ∷ apps) last_release_id = do
  number ← query (next_release_number app.id)
  latest ← query (latest_release app.id)
  let rel = pushed_release env n repo branch sha message app number latest
  stage (insert_release rel)
  stage (
      insert_outbox (
        create_outbox_event env (n + 1) app.workspace_id app_build_requested
          (build (pushed_payload repo branch sha app rel)) [] (env.uuid (n + 2))))
  stage_builds env (n + 3) repo branch sha message apps (some rel.id)

-- A delivery that another transaction stored first is a duplicate too.
abbrev pub delivered :
    Env → String → WebhookDeliveryResponse → Option Constraint → M WebhookDeliveryResponse
delivered env event r none = pure r
delivered env event r (some uq_webhook_deliveries_repo_delivery) = do
  rollback
  pure (answer env 200 r.delivery_id "DUPLICATE" event none none)
delivered env event r (some exc) = do rollback; unexpected_integrity_error

-- The releases and events of a push, and its delivery, in one commit.
unfoldable pub process_push :
    Env
    → GitHub
    → Repository
    → String
    → String
    → String
    → String
    → String
    → Option String
    → List Application
    → M WebhookDeliveryResponse
unfolding stage_builds
process_push env lib repo id event body branch sha message apps = do
  last_release_id ← stage_builds env 1 repo branch sha message apps none
  stage (insert_delivery (delivery_row env lib 0 repo id event body "PROCESSED"))
  broken ← commit
  delivered env event (answer env 202 id "PROCESSED" event last_release_id (some sha)) broken
