-- ===== src/Api/Workspaces/Members.antt =====
-- `upsert_workspace_member` and `remove_workspace_member` of apps/api/app/api/v1/workspaces.py.
use hamicloud.Core.Audit.{record_audit_event}
use hamicloud.Core.Auth.{authorize_workspace_access}
use hamicloud.Prelude.{
  if◌then◌else◌, not, none, ◌+s◌, ◌&&◌, ◌==◌, count, ◌&&◌, first, some, ℕ, Option, leb, Bool,
  String, strip,
}
use hamicloud.Schemas.{UpsertWorkspaceMemberRequest, Caller}
use hamicloud.Api.Workspaces.{is_owner, role_value, new_membership}
use hamicloud.Models.Json.{end, field}
use hamicloud.Models.Json.{text as json_text}
use hamicloud.Models.Db.{
  Db, Constraint, same_member, insert_membership, set_role, delete_membership,
  uq_workspace_membership_user,
}
use hamicloud.Models.Tenancy.{WorkspaceRole, WorkspaceMembership, Uuid, admin}
use hamicloud.Session.{
  M, ◌>>=◌, ◌>>◌, pure, query, found, raise, raise_if, stage, commit, rollback, text,
}
use hamicloud.Core.Idempotency.{unexpected_integrity_error}
use hamicloud.Env.{Env}

-- The number of owners of a workspace.
abbrev pub is_owner_of : Uuid → WorkspaceMembership → Bool
is_owner_of ws m = m.workspace_id == ws && is_owner m.role

unfoldable pub owner_count : Uuid → Db → ℕ
owner_count ws d = count (is_owner_of ws) d.memberships

-- Refuses to lose the last owner. The lock on the workspace's row has no step here.
unfoldable pub keep_one_owner : Uuid → String → M (Unit {0})
unfolding owner_count
keep_one_owner ws detail = do
  owners ← query (owner_count ws)
  raise_if (leb owners 1) 422 (text detail)

-- The change of an existing member's role.
abbrev pub change_role :
    WorkspaceMembership → WorkspaceMembership → WorkspaceRole → M WorkspaceMembership
change_role caller_membership existing role = do
  raise_if (is_owner existing.role && not (is_owner caller_membership.role)) 403
      (text "Only workspace OWNER can modify an existing OWNER membership")
  if is_owner existing.role && not (is_owner role)
      then keep_one_owner existing.workspace_id "Cannot demote the last OWNER of a workspace"
      else pure tt
  stage (set_role existing.id role)
  pure (record existing { role = role })

abbrev pub upsert_row :
    Env
    → Uuid
    → WorkspaceMembership
    → String
    → WorkspaceRole
    → Option WorkspaceMembership
    → M WorkspaceMembership
upsert_row env ws cm subject role (some existing) = change_role cm existing role
upsert_row env ws cm subject role none = do
  stage (insert_membership (new_membership env 0 ws subject role))
  pure (new_membership env 0 ws subject role)

abbrev pub upserted : WorkspaceMembership → String → Option Constraint → M WorkspaceMembership
upserted m subject none = pure m
upserted m subject (some uq_workspace_membership_user) = do
  rollback
  raise 409 (text ("Membership for '" +s subject +s "' already exists in this workspace"))
upserted m subject (some _) = do rollback; unexpected_integrity_error

-- What the caller's membership lets him do. The audit event's identifier follows a new row's.
unfoldable pub upsert_as :
    Env → Caller → Uuid → UpsertWorkspaceMemberRequest → WorkspaceMembership → M WorkspaceMembership
unfolding strip
upsert_as env caller ws p cm = do
  raise_if (is_owner p.role && not (is_owner cm.role)) 403
      (text "Only workspace OWNER can grant OWNER role")
  let subject = strip p.user_subject
  existing ← query (λ d. first (same_member ws subject) d.memberships)
  m ← upsert_row env ws cm subject p.role existing
  record_audit_event env 1 ws caller.subject "workspace.member.upserted" "WORKSPACE_MEMBER" subject
      (field "user_subject" (json_text subject) (field "role" (json_text (role_value p.role)) end))
  broken ← commit
  upserted m subject broken

unfoldable pub upsert_workspace_member :
    Env → Caller → Uuid → UpsertWorkspaceMemberRequest → M WorkspaceMembership
unfolding upsert_as
upsert_workspace_member env caller ws p = do
  cm ← authorize_workspace_access caller ws admin "Workspace not found"
  upsert_as env caller ws p cm

-- An IntegrityError that the handler does not catch is answered with 500.
abbrev pub removed : String → Option Constraint → M String
removed subject none = pure subject
removed subject (some _) = raise 500 (text "An unexpected internal platform error occurred.")

unfoldable pub remove_as : Env → Caller → Uuid → String → WorkspaceMembership → M String
remove_as env caller ws subject cm = do
  row ← query (λ d. first (same_member ws subject) d.memberships)
  target ← found row 404 (text "Workspace member not found")
  raise_if (is_owner target.role && not (is_owner cm.role)) 403
      (text "Only workspace OWNER can remove an OWNER member")
  if is_owner target.role
      then keep_one_owner ws "Cannot remove the last OWNER of a workspace"
      else pure tt
  stage (delete_membership target.id)
  record_audit_event env 0 ws caller.subject "workspace.member.removed" "WORKSPACE_MEMBER" subject (
      field "user_subject" (json_text subject)
        (field "previous_role" (json_text (role_value target.role)) end))
  broken ← commit
  removed subject broken

unfoldable pub remove_workspace_member : Env → Caller → Uuid → String → M String
unfolding remove_as
remove_workspace_member env caller ws subject = do
  cm ← authorize_workspace_access caller ws admin "Workspace not found"
  remove_as env caller ws subject cm
