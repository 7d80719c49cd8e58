-- ===== src/Core/Auth.antt =====
-- `authorize_workspace_access` and the role ranks of apps/api/app/core/auth.py.
pub mod Access
pub mod Tokens
pub mod Verified
use hamicloud.Prelude.{ℕ, String, first, ltb}
use hamicloud.Models.Tenancy.{
  Uuid, WorkspaceRole, owner, admin, developer, viewer, WorkspaceMembership,
}
use hamicloud.Models.Db.{same_member}
use hamicloud.Session.{M, ◌>>=◌, ◌>>◌, pure, query, found, raise_if, text}
use hamicloud.Schemas.{Caller}

-- ROLE_RANK
abbrev pub role_rank : WorkspaceRole → ℕ
role_rank viewer = 1
role_rank developer = 2
role_rank admin = 3
role_rank owner = 4

unfoldable pub authorize_workspace_access :
    Caller → Uuid → WorkspaceRole → String → M WorkspaceMembership
authorize_workspace_access caller workspace_id min_role not_found_detail = do
  row ← query (λ d. first (same_member workspace_id caller.subject) d.memberships)
  membership ← found row 404 (text not_found_detail)
  raise_if (ltb (role_rank membership.role) (role_rank min_role)) 403
      (text "Insufficient role for this operation")
  pure membership
