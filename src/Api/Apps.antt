-- ===== src/Api/Apps.antt =====
-- apps/api/app/api/v1/apps.py: applications. Their releases are in the child modules.
pub mod Releases
pub mod Builds
pub mod Reads
pub mod Numbers
pub mod Cap
use hamicloud.Core.Audit.{record_audit_event}
use hamicloud.Core.Auth.{authorize_workspace_access}
use hamicloud.Prelude.{◌&&◌, ◌==◌, any, first, some, none, Option, ◌+s◌, String}
use hamicloud.Schemas.{CreateApplicationRequest, UpdateApplicationRequest, Caller}
use hamicloud.Models.Apps.{Repository, Application}
use hamicloud.Models.Json.{end, field}
use hamicloud.Models.Json.{text as json_text}
use hamicloud.Models.Db.{
  patch_with, Db, Constraint, same_slug, insert_application, patch_application, AppPatch,
  uq_application_workspace_slug,
}
use hamicloud.Models.Tenancy.{WorkspaceRole, Uuid, developer, viewer}
use hamicloud.Session.{
  M, ◌>>=◌, ◌>>◌, pure, query, found, raise, raise_if, stage, commit, rollback, text,
}
use hamicloud.Core.Idempotency.{unexpected_integrity_error}
use hamicloud.Env.{Env}

abbrev pub app_with : Uuid → Db → Option Application
app_with id d = first (λ (a : Application). a.id == id) d.applications

-- The lookup and the authorization that every endpoint of one application begins with.
unfoldable pub load_app : Caller → Uuid → WorkspaceRole → M Application
load_app caller app_id min_role = do
  row ← query (app_with app_id)
  app ← found row 404 (text "Application not found")
  authorize_workspace_access caller app.workspace_id min_role "Application not found"
  pure app

-- The repository of a request must be one of the workspace.
unfoldable pub check_repository : Uuid → Option Uuid → M (Unit {0})
check_repository ws none = pure tt
check_repository ws (some id) = do
  row ← query (λ d. first (λ (r : Repository). r.id == id && r.workspace_id == ws) d.repositories)
  found row 404 (text "Repository not found in this workspace")
  pure tt

abbrev pub app_slug_taken : String → String
app_slug_taken slug = "Application with slug '" +s slug +s "' already exists in this workspace"

abbrev pub app_created : Application → Option Constraint → M Application
app_created a none = pure a
app_created a (some uq_application_workspace_slug) = do
  rollback
  raise 409 (text (app_slug_taken a.slug))
app_created a (some _) = do rollback; unexpected_integrity_error

abbrev pub new_application : Env → Uuid → CreateApplicationRequest → Application
new_application env ws p = record {
  id = env.uuid 0;
  workspace_id = ws;
  name = p.name;
  slug = p.slug;
  workload_type = p.workload_type;
  desired_generation = 1;
  current_release_id = none;
  repository_id = p.repository_id;
  dockerfile_path = p.dockerfile_path;
  context_dir = p.context_dir;
  git_branch = p.git_branch;
  created_at = env.now;
}

unfoldable pub create_application : Env → Caller → Uuid → CreateApplicationRequest → M Application
unfolding check_repository
create_application env caller ws p = do
  authorize_workspace_access caller ws developer "Workspace not found"
  taken ← query (λ d. any (same_slug ws p.slug) d.applications)
  raise_if taken 409 (text (app_slug_taken p.slug))
  check_repository ws p.repository_id
  let app = new_application env ws p
  stage (insert_application app)
  record_audit_event env 1 ws caller.subject "app.created" "APPLICATION" (env.text_of app.id)
      (field "slug" (json_text app.slug) (field "workload_type" (json_text "HTTP_SERVICE") end))
  broken ← commit
  app_created app broken

unfoldable pub get_application : Caller → Uuid → M Application
unfolding load_app
get_application caller app_id = load_app caller app_id viewer

-- The repository that the request names; a given null clears it, and nothing is checked then.
abbrev named_repository : UpdateApplicationRequest → Option Uuid
named_repository p = elim p.repository_id [ none ↦ none | some r ↦ r ]

abbrev pub patch_of : UpdateApplicationRequest → AppPatch
patch_of p = record {
  name = p.name;
  repository_id = p.repository_id;
  dockerfile_path = p.dockerfile_path;
  context_dir = p.context_dir;
  git_branch = p.git_branch;
}

abbrev app_updated : Application → Option Constraint → M Application
app_updated a none = pure a
app_updated a (some _) = raise 500 (text "An unexpected internal platform error occurred.")

unfoldable pub update_application : Env → Caller → Uuid → UpdateApplicationRequest → M Application
unfolding load_app check_repository
update_application env caller app_id p = do
  app ← load_app caller app_id developer
  check_repository app.workspace_id (named_repository p)
  stage (patch_application app.id (patch_of p))
  broken ← commit
  app_updated (patch_with (patch_of p) app) broken
