-- ===== src/Api/Workspaces.antt =====
-- apps/api/app/api/v1/workspaces.py: workspaces and their members.
pub mod Members
pub mod Effects
pub mod Owners
use hamicloud.Core.Audit.{record_audit_event}
use hamicloud.Core.Auth.{authorize_workspace_access}
use hamicloud.Prelude.{
  select, ◌==◌, none, false, first, ltb, true, List, ◌=s=◌, ◌=s=◌, some, Option, any, ◌+s◌, Bool,
  ◌+s◌, ℕ, String, order_by,
}
use hamicloud.Schemas.{CreateWorkspaceRequest, Caller}
use hamicloud.Models.Json.{end, field}
use hamicloud.Models.Json.{text as json_text}
use hamicloud.Models.Db.{
  Db, Constraint, same_member, insert_workspace, insert_membership, set_role, delete_membership,
  uq_workspace_slug, uq_workspace_membership_user,
}
use hamicloud.Models.Tenancy.{
  WorkspaceMembership, Uuid, Workspace, WorkspaceRole, owner, admin, developer, viewer,
}
use hamicloud.Session.{
  M, ◌>>=◌, ◌>>◌, pure, query, found, raise, raise_if, stage, commit, rollback, text,
}
use hamicloud.Core.Idempotency.{unexpected_integrity_error}
use hamicloud.Env.{Env}

abbrev pub is_owner : WorkspaceRole → Bool
is_owner owner = true
is_owner _ = false

-- `role.value`
abbrev pub role_value : WorkspaceRole → String
role_value owner = "OWNER"
role_value admin = "ADMIN"
role_value developer = "DEVELOPER"
role_value viewer = "VIEWER"

abbrev pub slug_taken : String → String
slug_taken slug = "Workspace with slug '" +s slug +s "' already exists"

abbrev pub created : Workspace → String → Option Constraint → M Workspace
created w slug none = pure w
created w slug (some uq_workspace_slug) = do rollback; raise 409 (text (slug_taken slug))
created w slug (some _) = do rollback; unexpected_integrity_error

abbrev pub new_workspace : Env → CreateWorkspaceRequest → Workspace
new_workspace env p = record { id = env.uuid 0; name = p.name; slug = p.slug; created_at = env.now }

abbrev pub new_membership : Env → ℕ → Uuid → String → WorkspaceRole → WorkspaceMembership
new_membership env n ws subject role = record {
  id = env.uuid n;
  workspace_id = ws;
  user_subject = subject;
  role = role;
  created_at = env.now;
}

unfoldable pub create_workspace : Env → Caller → CreateWorkspaceRequest → M Workspace
create_workspace env caller p = do
  taken ← query (λ d. any (λ (w : Workspace). w.slug =s= p.slug) d.workspaces)
  raise_if taken 409 (text (slug_taken p.slug))
  let w = new_workspace env p
  stage (insert_workspace w)
  stage (insert_membership (new_membership env 1 w.id caller.subject owner))
  record_audit_event env 2 w.id caller.subject "workspace.created" "WORKSPACE" (env.text_of w.id)
      (field "slug" (json_text w.slug) (field "name" (json_text w.name) end))
  broken ← commit
  created w p.slug broken

unfoldable pub get_workspace : Caller → Uuid → M Workspace
get_workspace caller ws = do
  authorize_workspace_access caller ws viewer "Workspace not found"
  row ← query (λ d. first (λ (w : Workspace). w.id == ws) d.workspaces)
  found row 404 (text "Workspace not found")

unfoldable pub list_workspace_members : Caller → Uuid → M (List WorkspaceMembership)
unfolding order_by
list_workspace_members caller ws = do
  authorize_workspace_access caller ws viewer "Workspace not found"
  query (λ d.
      order_by (λ (a b : WorkspaceMembership). ltb a.created_at b.created_at)
        (select (λ (m : WorkspaceMembership). m.workspace_id == ws) d.memberships))
