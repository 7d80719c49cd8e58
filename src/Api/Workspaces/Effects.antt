-- ===== src/Api/Workspaces/Effects.antt =====
-- What the member endpoints of apps/api/app/api/v1/workspaces.py do to the membership rows.
use hamicloud.Prelude.{
  if◌then◌else◌, leb, Bool-cases, update, ◌∷◌, strip, false, none, ◌≤◌, true, inr, ◌==◌, [], delete,
  some, arith, ◌⊎◌, inl, ◌≡◌, ◌≡◌, first, Option-cases, List, String,
}
use hamicloud.Schemas.{UpsertWorkspaceMemberRequest, Caller}
use hamicloud.Models.Tenancy.{admin, WorkspaceMembership, Uuid}
use hamicloud.Api.Workspaces.{is_owner, new_membership}
use hamicloud.Api.Workspaces.Members.{
  remove_as, upsert_as, remove_workspace_member, upsert_workspace_member, owner_count,
  keep_one_owner,
}
use hamicloud.Core.Auth.Access.{membership, authorize_decides}
use hamicloud.Core.Auth.{role_rank}
use hamicloud.Core.Audit.{record_audit_event}
use hamicloud.Models.Db.{Db, same_member, write_all}
use hamicloud.Session.{serve, alone, commit, Tx, raised, ok, text}
use hamicloud.Env.{Env}

abbrev pub start : Db → Tx
start d = record { db = d; staged = []; others = alone }

-- The check for the last owner passes exactly beside another owner.
keep_decides :
    (ws : Uuid) (detail : String) (t : Tx)
    → keep_one_owner ws detail t ≡ (
      if leb (owner_count ws t.db) 1
          then raised (record { status = 422; detail = text detail })
          else ok tt,
      t,
    )
unfolding keep_one_owner
keep_decides ws detail t = ground arith

abbrev pub removed_rows :
    Env → Caller → Uuid → String → Db → WorkspaceMembership → List WorkspaceMembership
removed_rows env caller ws subject d cm =
    (remove_as env caller ws subject cm (start d)).1.db.memberships

-- What a removal by a member leaves of the memberships, given the row that it finds.
pub remove_found :
    (env : Env) (caller : Caller) (ws : Uuid) (subject : String) (d : Db)
    (cm target : WorkspaceMembership)
    → first (same_member ws subject) d.memberships ≡ some target
    → (removed_rows env caller ws subject d cm ≡ d.memberships)
      ⊎ ((removed_rows env caller ws subject d cm ≡ delete (λ m. m.id == target.id) d.memberships)
          × ((is_owner target.role ≡ false) ⊎ (2 ≤ owner_count ws d))
          × ((is_owner cm.role ≡ true) ⊎ (is_owner target.role ≡ false)))
unfolding remove_as commit write_all record_audit_event
remove_found env caller ws subject d cm target there =
    ground (arith, keep_decides ws "Cannot remove the last OWNER of a workspace" (start d))

pub remove_absent :
    (env : Env) (caller : Caller) (ws : Uuid) (subject : String) (d : Db) (cm : WorkspaceMembership)
    → first (same_member ws subject) d.memberships ≡ none
    → removed_rows env caller ws subject d cm ≡ d.memberships
unfolding remove_as
remove_absent env caller ws subject d cm absent = ground arith

abbrev pub upserted_rows :
    Env
    → Caller
    → Uuid
    → UpsertWorkspaceMemberRequest
    → Db
    → WorkspaceMembership
    → List WorkspaceMembership
upserted_rows env caller ws p d cm = (upsert_as env caller ws p cm (start d)).1.db.memberships

-- What an upsert by a member leaves of the memberships, where the subject has a row already.
pub upsert_found :
    (env : Env) (caller : Caller) (ws : Uuid) (p : UpsertWorkspaceMemberRequest) (d : Db)
    (cm existing : WorkspaceMembership)
    → first (same_member ws (strip p.user_subject)) d.memberships ≡ some existing
    → (upserted_rows env caller ws p d cm ≡ d.memberships)
      ⊎ ((upserted_rows env caller ws p d cm
            ≡ update (λ m. m.id == existing.id) (λ m. record m { role = p.role }) d.memberships)
          × ((is_owner p.role ≡ true)
              ⊎ (is_owner existing.role ≡ false)
              ⊎ (2 ≤ owner_count existing.workspace_id d))
          × ((is_owner cm.role ≡ true)
              ⊎ ((is_owner p.role ≡ false) × (is_owner existing.role ≡ false))))
unfolding upsert_as commit write_all record_audit_event
upsert_found env caller ws p d cm existing there = ground (
  arith,
  keep_decides existing.workspace_id "Cannot demote the last OWNER of a workspace" (start d),
)

-- The same, where the subject has none.
pub upsert_new :
    (env : Env) (caller : Caller) (ws : Uuid) (p : UpsertWorkspaceMemberRequest) (d : Db)
    (cm : WorkspaceMembership)
    → first (same_member ws (strip p.user_subject)) d.memberships ≡ none
    → (upserted_rows env caller ws p d cm ≡ d.memberships)
      ⊎ ((upserted_rows env caller ws p d cm
            ≡ new_membership env 0 ws (strip p.user_subject) p.role ∷ d.memberships)
          × ((is_owner cm.role ≡ true) ⊎ (is_owner p.role ≡ false)))
unfolding upsert_as commit write_all record_audit_event
upsert_new env caller ws p d cm absent = ground arith

-- A change of a workspace's members.
pub data MemberCommand : Type 0 where
  upsert : UpsertWorkspaceMemberRequest → MemberCommand
  remove : String → MemberCommand

abbrev pub rows_after : Env → Caller → Uuid → Db → MemberCommand → List WorkspaceMembership
rows_after env caller ws d (upsert p) =
    (serve alone (upsert_workspace_member env caller ws p) d).1.memberships
rows_after env caller ws d (remove s) =
    (serve alone (remove_workspace_member env caller ws s) d).1.memberships

abbrev pub rows_by :
    Env → Caller → Uuid → Db → WorkspaceMembership → MemberCommand → List WorkspaceMembership
rows_by env caller ws d cm (upsert p) = upserted_rows env caller ws p d cm
rows_by env caller ws d cm (remove s) = removed_rows env caller ws s d cm

-- Only a member's command has an effect, and that of his membership.
pub by_member :
    (env : Env) (caller : Caller) (ws : Uuid) (d : Db) (c : MemberCommand)
    → (rows_after env caller ws d c ≡ d.memberships)
      ⊎ ((cm : WorkspaceMembership) × (membership caller ws d ≡ some cm)
          × (rows_after env caller ws d c ≡ rows_by env caller ws d cm c))
unfolding serve upsert_workspace_member remove_workspace_member
by_member env caller ws d (upsert p) = elim (Option-cases (membership caller ws d)) [
  | inl stranger ↦
      inl (ground (arith, authorize_decides caller ws admin "Workspace not found" (start d)))
  | inr (cm, mine) ↦ elim (Bool-cases (leb 3 (role_rank cm.role))) [
    | inl enough ↦ inr (
      cm,
      mine,
      ground (arith, authorize_decides caller ws admin "Workspace not found" (start d)),
    )
    | inr low ↦
        inl (ground (arith, authorize_decides caller ws admin "Workspace not found" (start d)))
  ]
]
by_member env caller ws d (remove s) = elim (Option-cases (membership caller ws d)) [
  | inl stranger ↦
      inl (ground (arith, authorize_decides caller ws admin "Workspace not found" (start d)))
  | inr (cm, mine) ↦ elim (Bool-cases (leb 3 (role_rank cm.role))) [
    | inl enough ↦ inr (
      cm,
      mine,
      ground (arith, authorize_decides caller ws admin "Workspace not found" (start d)),
    )
    | inr low ↦
        inl (ground (arith, authorize_decides caller ws admin "Workspace not found" (start d)))
  ]
]
