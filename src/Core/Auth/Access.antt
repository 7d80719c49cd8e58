-- ===== src/Core/Auth/Access.antt =====
-- What `authorize_workspace_access` (apps/api/app/core/auth.py) answers.
use hamicloud.Session.Effect.{neutral_rules, Neutral}
use hamicloud.Models.Db.{same_member, Db}
use hamicloud.Prelude.{
  eq_iff, ==_iff, ◌==◌, &&_both, first-eq_some, inr, inl, [], Option-cases, ◌⊎◌, ◌∷◌, List, false,
  any, Bool, refl, ap, true, ◌∙◌, arith, leb, first, if◌then◌else◌, some, none, Option, ◌≡◌, String,
}
use hamicloud.Models.Tenancy.{
  owner, admin, developer, viewer, WorkspaceMembership, WorkspaceRole, Uuid,
}
use hamicloud.Schemas.{Caller}
use hamicloud.Session.{text, Tx, ok, raised, Result}
use hamicloud.Core.Auth.{authorize_workspace_access, role_rank}
use hamicloud.Session.Atomic.{Quiet, quiet_rules}

-- The membership row of the caller, if there is one.
abbrev pub membership : Caller → Uuid → Db → Option WorkspaceMembership
membership caller ws d = first (same_member ws caller.subject) d.memberships

-- The roles that a minimal role permits.
abbrev pub is_permitted : WorkspaceRole → WorkspaceRole → Bool
is_permitted viewer _ = true
is_permitted developer viewer = false
is_permitted developer _ = true
is_permitted admin admin = true
is_permitted admin owner = true
is_permitted admin _ = false
is_permitted owner owner = true
is_permitted owner _ = false

rank-permitted : (min r : WorkspaceRole) → leb (role_rank min) (role_rank r) ≡ is_permitted min r
rank-permitted viewer viewer = refl
rank-permitted viewer developer = refl
rank-permitted viewer admin = refl
rank-permitted viewer owner = refl
rank-permitted developer viewer = refl
rank-permitted developer developer = refl
rank-permitted developer admin = refl
rank-permitted developer owner = refl
rank-permitted admin viewer = refl
rank-permitted admin developer = refl
rank-permitted admin admin = refl
rank-permitted admin owner = refl
rank-permitted owner viewer = refl
rank-permitted owner developer = refl
rank-permitted owner admin = refl
rank-permitted owner owner = refl

first-none :
    (p : WorkspaceMembership → Bool) (ms : List WorkspaceMembership)
    → first p ms ≡ none
    → any p ms ≡ false
first-none p [] h = refl
first-none p (m ∷ ms) h = ground (arith, first-none p ms)

module _ (caller : Caller) (ws : Uuid) (min_role : WorkspaceRole) (detail : String) where
  pub authorize-Quiet : Quiet (authorize_workspace_access caller ws min_role detail)
  unfolding authorize_workspace_access
  authorize-Quiet = search quiet_rules depth 9

  abbrev pub decision : Option WorkspaceMembership → Result WorkspaceMembership
  decision none = raised (record { status = 404; detail = text detail })
  decision (some m) =
      if leb (role_rank min_role) (role_rank m.role)
      then ok m
      else raised (record { status = 403; detail = text "Insufficient role for this operation" })

  pub authorize_decides :
      (t : Tx)
      → authorize_workspace_access caller ws min_role detail t
        ≡ (decision (membership caller ws t.db), t)
  unfolding authorize_workspace_access
  authorize_decides t = ground arith

  abbrev pub permitted_or_403 : WorkspaceMembership → Result WorkspaceMembership
  permitted_or_403 m =
      if is_permitted min_role m.role
      then ok m
      else raised (record { status = 403; detail = text "Insufficient role for this operation" })

  decision-permitted : (m : WorkspaceMembership) → decision (some m) ≡ permitted_or_403 m
  decision-permitted m =
      ap
        (λ b.
          if b
          then ok m
          else raised
              (record { status = 403; detail = text "Insufficient role for this operation" }))
        (rank-permitted min_role m.role)

  -- A caller with no membership row in the workspace gets 404 with the given text. Any other caller
  -- is judged by a row of his own subject in this very workspace: he gets the row if its role is one
  -- of those that the minimal role permits, which are, from the lowest to the highest, VIEWER,
  -- DEVELOPER, ADMIN and OWNER from itself on, and 403 otherwise. The transaction stays as it was.
  pub authorize_permits :
      (t : Tx)
      → ((any (same_member ws caller.subject) t.db.memberships ≡ false)
          × (authorize_workspace_access caller ws min_role detail t
              ≡ (raised (record { status = 404; detail = text detail }), t)))
        ⊎ ((m : WorkspaceMembership) × (membership caller ws t.db ≡ some m)
            × (m.workspace_id ≡ ws)
            × (m.user_subject ≡ caller.subject)
            × (authorize_workspace_access caller ws min_role detail t ≡ (permitted_or_403 m, t)))
  authorize_permits t = elim (Option-cases (membership caller ws t.db)) [
    | inl absent ↦ inl (
      first-none _ t.db.memberships absent,
      authorize_decides t ∙ ap (λ o. (decision o, t)) absent,
    )
    | inr (m, found) ↦
        let own = first-eq_some _ t.db.memberships m found in
        let (here, subject) = &&_both (m.workspace_id == ws) _ own in
        inr (
          m,
          found,
          (==_iff m.workspace_id ws).0 here,
          (eq_iff m.user_subject caller.subject).0 subject,
          authorize_decides t
              ∙ ap (λ o. (decision o, t)) found
              ∙ ap (λ r. (r, t)) (decision-permitted m),
        )
  ]

pub authorize-Neutral :
    (caller : Caller) (ws : Uuid) (r : WorkspaceRole) (detail : String)
    → Neutral (authorize_workspace_access caller ws r detail)
unfolding authorize_workspace_access
authorize-Neutral caller ws r detail = search neutral_rules depth 9

-- What a viewer's authorization gives: the membership's row, or 404.
abbrev pub member_or_404 : Option WorkspaceMembership → String → Result WorkspaceMembership
member_or_404 none detail = raised (record { status = 404; detail = text detail })
member_or_404 (some m) detail = ok m

pub viewer_decides :
    (caller : Caller) (ws : Uuid) (detail : String) (t : Tx)
    → authorize_workspace_access caller ws viewer detail t
      ≡ (member_or_404 (membership caller ws t.db) detail, t)
viewer_decides caller ws detail t =
    authorize_decides caller ws viewer detail t
    ∙ ap (λ r. (r, t)) (allowed (membership caller ws t.db))
  where
    ranked : (r : WorkspaceRole) → leb (role_rank viewer) (role_rank r) ≡ true
    ranked viewer = refl
    ranked developer = refl
    ranked admin = refl
    ranked owner = refl

    allowed :
        (o : Option WorkspaceMembership)
        → decision caller ws viewer detail o ≡ member_or_404 o detail
    allowed none = refl
    allowed (some m) = rw (ranked m.role)

-- A member is let through as a viewer.
pub viewer_passes :
    (caller : Caller) (ws : Uuid) (detail : String) (t : Tx) (m : WorkspaceMembership)
    → membership caller ws t.db ≡ some m
    → authorize_workspace_access caller ws viewer detail t ≡ (ok m, t)
viewer_passes caller ws detail t m h =
    viewer_decides caller ws detail t ∙ ap (λ o. (member_or_404 o detail, t)) h
