-- ===== src/Api/Workspaces/Owners.antt =====
-- A workspace keeps an owner through apps/api/app/api/v1/workspaces.py, and only owners make or
-- unmake owners.
use hamicloud.Prelude.{
  select-update, select-delete, select, false, ==_refl, count-update, first_by_key, first-eq_some,
  strip, count-delete, true, some, arith, ◌≡◌, inr, ◌==◌, first, Option-cases, Bool, inl, String,
  ◌≤◌, count,
}
use hamicloud.Schemas.{Caller}
use hamicloud.Models.Tenancy.{WorkspaceMembership, Uuid}
use hamicloud.Api.Workspaces.{is_owner}
use hamicloud.Api.Workspaces.Members.{is_owner_of, owner_count}
use hamicloud.Api.Workspaces.Effects.{
  MemberCommand, upsert, remove, rows_after, rows_by, by_member, remove_found, remove_absent,
  upsert_found, upsert_new,
}
use hamicloud.Core.Auth.Access.{membership}
use hamicloud.Models.Db.{Db, same_member}
use hamicloud.Env.{Env}

abbrev has_id : Uuid → WorkspaceMembership → Bool
has_id id m = m.id == id

-- The primary key of the memberships.
abbrev pub UniqueIds : Db → Type 0
UniqueIds d = (id : Uuid) → count (λ (m : WorkspaceMembership). m.id == id) d.memberships ≤ 1

-- The row that a lookup by subject finds is the row of its identifier, in the asked workspace.
found_by_id :
    (ws : Uuid) (subject : String) (d : Db) (m : WorkspaceMembership)
    → UniqueIds d
    → first (same_member ws subject) d.memberships ≡ some m
    → (first (has_id m.id) d.memberships ≡ some m) × (m.workspace_id ≡ ws)
found_by_id ws subject d m u e =
    let hit : same_member ws subject m ≡ true =
      first-eq_some (same_member ws subject) d.memberships m e in
    (
      first_by_key (same_member ws subject) (has_id m.id) d.memberships m e (==_refl m.id) (u m.id),
      ground arith,
    )

rows_keep_owner :
    (env : Env) (caller : Caller) (ws : Uuid) (d : Db) (cm : WorkspaceMembership)
    (c : MemberCommand) (w : Uuid)
    → UniqueIds d
    → 1 ≤ count (is_owner_of w) d.memberships
    → 1 ≤ count (is_owner_of w) (rows_by env caller ws d cm c)
unfolding owner_count
rows_keep_owner env caller ws d cm (remove s) w u h =
    elim (Option-cases (first (same_member ws s) d.memberships)) [
      | inl absent ↦ rw (remove_absent env caller ws s d cm absent) h
      | inr (target, there) ↦ elim (remove_found env caller ws s d cm target there) [
        | inl same ↦ rw same h
        | inr (gone, beside, _) ↦ rw gone (
            ground (
              arith,
              found_by_id ws s d target u there,
              count-delete (is_owner_of w) (has_id target.id) d.memberships target,
              u target.id,
            ))
      ]
    ]
rows_keep_owner env caller ws d cm (upsert p) w u h =
    elim (Option-cases (first (same_member ws (strip p.user_subject)) d.memberships)) [
      | inl absent ↦ elim (upsert_new env caller ws p d cm absent) [
        | inl same ↦ rw same h
        | inr (added, _) ↦ rw added (ground arith)
      ]
      | inr (existing, there) ↦ elim (upsert_found env caller ws p d cm existing there) [
        | inl same ↦ rw same h
        | inr (changed, beside, _) ↦ rw changed (
            ground (
              arith,
              found_by_id ws (strip p.user_subject) d existing u there,
              count-update (is_owner_of w) (has_id existing.id) (λ m. record m { role = p.role })
                  d.memberships existing,
              u existing.id,
            ))
      ]
    ]

-- Where membership identifiers are unique, a workspace that has an owner still has one after any
-- request to change the members of any workspace that no other transaction runs beside, whoever makes
-- it and however it ends.
pub owner_kept :
    (env : Env) (caller : Caller) (ws : Uuid) (d : Db) (c : MemberCommand) (w : Uuid)
    → UniqueIds d
    → 1 ≤ count (is_owner_of w) d.memberships
    → 1 ≤ count (is_owner_of w) (rows_after env caller ws d c)
owner_kept env caller ws d c w u h = elim (by_member env caller ws d c) [
  | inl same ↦ rw same h
  | inr (cm, _, eff) ↦ rw eff (rows_keep_owner env caller ws d cm c w u h)
]

rows_keep_owners :
    (env : Env) (caller : Caller) (ws : Uuid) (d : Db) (cm : WorkspaceMembership)
    (c : MemberCommand) (w : Uuid)
    → UniqueIds d
    → is_owner cm.role ≡ false
    → select (is_owner_of w) (rows_by env caller ws d cm c) ≡ select (is_owner_of w) d.memberships
rows_keep_owners env caller ws d cm (remove s) w u n =
    elim (Option-cases (first (same_member ws s) d.memberships)) [
      | inl absent ↦ rw (remove_absent env caller ws s d cm absent)
      | inr (target, there) ↦ elim (remove_found env caller ws s d cm target there) [
        | inl same ↦ rw same
        | inr (gone, _, who) ↦ rw gone (
            select-delete (is_owner_of w) (has_id target.id) d.memberships target
              (found_by_id ws s d target u there).0 (u target.id) (ground arith))
      ]
    ]
rows_keep_owners env caller ws d cm (upsert p) w u n =
    elim (Option-cases (first (same_member ws (strip p.user_subject)) d.memberships)) [
      | inl absent ↦ elim (upsert_new env caller ws p d cm absent) [
        | inl same ↦ rw same
        | inr (added, who) ↦ rw added (ground arith)
      ]
      | inr (existing, there) ↦ elim (upsert_found env caller ws p d cm existing there) [
        | inl same ↦ rw same
        | inr (changed, _, who) ↦ rw changed (
            select-update (is_owner_of w) (has_id existing.id) (λ m. record m { role = p.role })
              d.memberships existing (found_by_id ws (strip p.user_subject) d existing u there).0
              (u existing.id) (ground arith) (ground arith))
      ]
    ]

-- Where membership identifiers are unique, a request to change members that no other transaction runs
-- beside and that comes from a caller who is not an owner of the named workspace leaves the owners' rows of every workspace as they were.
pub only_owners_change_owners :
    (env : Env) (caller : Caller) (ws : Uuid) (d : Db) (c : MemberCommand) (w : Uuid)
    → UniqueIds d
    → ((m : WorkspaceMembership) → membership caller ws d ≡ some m → is_owner m.role ≡ false)
    → select (is_owner_of w) (rows_after env caller ws d c) ≡ select (is_owner_of w) d.memberships
only_owners_change_owners env caller ws d c w u n = elim (by_member env caller ws d c) [
  | inl same ↦ rw same
  | inr (cm, mine, eff) ↦ rw eff (rows_keep_owners env caller ws d cm c w u (n cm mine))
]
