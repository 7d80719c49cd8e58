-- ===== src/Api/Apps/Builds.antt =====
-- `trigger_build` of apps/api/app/api/v1/apps.py.
use hamicloud.Core.Events.{create_outbox_event}
use hamicloud.Core.Audit.{record_audit_event}
use hamicloud.Core.Quotas.{enforce_workspace_quota}
use hamicloud.Core.RateLimit.{check_workspace_rate_limit}
use hamicloud.Schemas.{TriggerBuildRequest, Caller}
use hamicloud.Prelude.{
  [], ◌==◌, select, ◌||◌, ltb, false, ◌&&◌, is_some, true, is_blank, first, not, suc, leb, none,
  if◌then◌else◌, some, Bool, String, ℕ, Option, order_by, strip,
}
use hamicloud.Api.Apps.{load_app}
use hamicloud.Api.Apps.Releases.{next_release_number}
use Prim.Native.Char.{code}
use mathlib.Core.Option
use hamicloud.Models.Json.{end, field, number, Json}
use hamicloud.Models.Json.{text as json_text, null as json_null}
use hamicloud.Models.Apps.{ReleaseConfig, Release, Application, requested}
use hamicloud.Models.Records.{concurrent_build, app_build_requested, build, BuildPayload}
use hamicloud.Models.Db.{Db, insert_release, insert_outbox, Constraint}
use hamicloud.Models.Tenancy.{Uuid, developer}
use hamicloud.Session.{M, ◌>>=◌, ◌>>◌, pure, query, found, raise, stage, commit, text}
use hamicloud.Env.{Env}

abbrev pub is_hex : ℕ → Bool
is_hex c = (leb b'0' c && leb c b'9') || (leb b'a' c && leb c b'f') || (leb b'A' c && leb c b'F')

-- The number of characters, if all are hexadecimal digits.
unfoldable pub hex_length : String → Option ℕ
hex_length String.[] = some 0
hex_length (String.◌∷◌ c s) =
    let rest = Option.map suc (hex_length s) in if is_hex (code c) then rest else none

-- `^[0-9a-fA-F]{7,40}$`, of a text that ends in no line break.
unfoldable pub is_commit_sha : String → Bool
unfolding hex_length
is_commit_sha s = elim (hex_length s) [ none ↦ false | some n ↦ leb 7 n && leb n 40 ]

abbrev checked_sha : String → M (Option String)
checked_sha s =
    if is_commit_sha s
    then pure (some s)
    else raise 422 (text "Invalid commit_sha format; expected 7-40 hex characters")

-- An empty text passes unread.
unfoldable pub read_commit_sha : Option String → M (Option String)
unfolding is_commit_sha strip
read_commit_sha none = pure none
read_commit_sha (some s) = if is_blank s then pure (some s) else checked_sha (strip s)

-- `a or b` of texts.
abbrev pub or_text : Option String → String → String
or_text none d = d
or_text (some s) d = if is_blank s then d else s

unfoldable pub latest_release : Uuid → Db → Option Release
unfolding order_by
latest_release app d =
    first (λ r. true)
      (order_by (λ (a b : Release). ltb b.release_number a.release_number)
        (select (λ (r : Release). r.application_id == app) d.releases))

abbrev pub is_empty_config : ReleaseConfig → Bool
is_empty_config c = not (
    is_some c.port
    || is_some c.health_path
    || is_some c.env_vars
    || is_some c.cpu_limit
    || is_some c.memory_limit)

abbrev pub default_config : ReleaseConfig
default_config = record {
  port = some 8080;
  health_path = some "/healthz";
  env_vars = none;
  cpu_limit = none;
  memory_limit = none;
}

abbrev base_config : Option Release → ReleaseConfig
base_config none = default_config
base_config (some r) = if is_empty_config r.config_json then default_config else r.config_json

abbrev or_else {ℓ} : {A : Type ℓ} → Option A → Option A → Option A
or_else none b = b
or_else (some a) b = some a

unfoldable pub build_config : Option Release → TriggerBuildRequest → ReleaseConfig
build_config latest p =
    let c = base_config latest in
    record c { port = or_else p.port c.port; health_path = or_else p.health_path c.health_path }

-- `payload.git_ref or app.git_branch or "main"`
unfoldable pub build_ref : TriggerBuildRequest → Application → String
build_ref p app = or_text (some p.git_ref) (or_text app.git_branch "main")

unfoldable pub build_release :
    Env → Application → Uuid → ℕ → Option String → TriggerBuildRequest → Option Release → Release
unfolding build_config build_ref
build_release env app repo n sha p latest = record {
  id = env.uuid 1;
  application_id = app.id;
  workspace_id = app.workspace_id;
  release_number = n;
  commit_sha = sha;
  image_digest = "pending";
  config_json = build_config latest p;
  status = requested;
  repository_id = some repo;
  git_ref = some (build_ref p app);
  commit_message = some (or_text p.commit_message "Manual trigger build");
  created_at = env.now;
}

abbrev pub build_payload : Application → Uuid → Release → String → BuildPayload
build_payload app repo rel ref = record {
  release_id = rel.id;
  application_id = app.id;
  repository_id = repo;
  commit_sha = rel.commit_sha;
  git_ref = ref;
  dockerfile_path = app.dockerfile_path;
  context_dir = app.context_dir;
  repo_url = none;
}

abbrev text_or_null : Option String → Json
text_or_null none = json_null
text_or_null (some s) = json_text s

abbrev build_saved : Release → Option Constraint → M Release
build_saved r none = pure r
build_saved r (some _) = raise 500 (text "An unexpected internal platform error occurred.")

unfoldable pub trigger_build : Env → Caller → Uuid → TriggerBuildRequest → M Release
unfolding load_app read_commit_sha build_release
trigger_build env caller app_id p = do
  app ← load_app caller app_id developer
  repo ← found app.repository_id 422 (text "Application has no connected Git repository")
  n ← query (next_release_number app.id)
  sha ← read_commit_sha p.commit_sha
  check_workspace_rate_limit env app.workspace_id "apps.build"
  enforce_workspace_quota env 0 app.workspace_id concurrent_build none true
  latest ← query (latest_release app.id)
  let rel = build_release env app repo n sha p latest
  let ref = build_ref p app
  stage (insert_release rel)
  record_audit_event env 2 app.workspace_id caller.subject "app.build.triggered" "RELEASE"
      (env.text_of rel.id)
      (field "application_id" (json_text (env.text_of app.id)) (
        field "release_number" (number n)
          (field "commit_sha" (text_or_null sha) (field "git_ref" (json_text ref) end))))
  stage (
      insert_outbox (
        create_outbox_event env 3 app.workspace_id app_build_requested
          (build (build_payload app repo rel ref)) [] (env.uuid 4)))
  broken ← commit
  build_saved rel broken
