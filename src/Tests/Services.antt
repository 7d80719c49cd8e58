-- ===== src/Tests/Services.antt =====
-- The services of apps/api/app/core and the dispatcher at small data.
use hamicloud.Models.Db.{same_member}
use hamicloud.Core.RateLimit.Window.{admitted_min, admitted_requests}
use hamicloud.Tests.Data.{test_env, dan, test_db, waiting}
use hamicloud.Workers.Outbox.Delivery.{drain_touches_due, row_after}
use hamicloud.Models.Json.{end, field}
use hamicloud.Core.Audit.{sanitize_audit_details}
use hamicloud.Core.Audit.Redaction.{audit_redacted, are_clean}
use hamicloud.Core.StateMachine.{accepted, validate_job_transition}
use hamicloud.Core.StateMachine.Graph.{validate_iff_edge, ◌⟶◌}
use hamicloud.Workers.Outbox.{is_due, settle}
use hamicloud.Api.Workspaces.Effects.{start}
use hamicloud.Core.Auth.Access.{authorize_permits, permitted_or_403, membership}
use hamicloud.Models.Tenancy.{WorkspaceMembership, admin}
use hamicloud.Core.Auth.{authorize_workspace_access}
use hamicloud.Models.Jobs.{admitted, queued}
use hamicloud.Session.{text, raised}
use hamicloud.Models.Json.{Json}
use hamicloud.Prelude.{
  any, min, ◌↔◌, not, ◌&&◌, ◌⊎◌, ◌≡◌, arith, refl, none, some, [], ◌∷◌, true, false,
}

authorize_permits_example :
    ((any (same_member 1 "dan") (start test_db).db.memberships ≡ false)
      × (authorize_workspace_access dan 1 admin "Workspace not found" (start test_db)
          ≡ (raised (record { status = 404; detail = text "Workspace not found" }), start test_db)))
    ⊎ ((m : WorkspaceMembership) × (membership dan 1 test_db ≡ some m)
        × (m.workspace_id ≡ 1)
        × (m.user_subject ≡ "dan")
        × (authorize_workspace_access dan 1 admin "Workspace not found" (start test_db)
            ≡ (permitted_or_403 dan 1 admin "Workspace not found" m, start test_db)))
authorize_permits_example = authorize_permits dan 1 admin "Workspace not found" (start test_db)

validate_iff_edge_example :
    (validate_job_transition queued admitted ≡ accepted) ↔ (queued ⟶ admitted)
validate_iff_edge_example = validate_iff_edge queued admitted

audit_redacted_example :
    are_clean (λ s. s) (sanitize_audit_details (λ s. s) (field "api_token" (Json.text "t0p") end))
    ≡ true
audit_redacted_example = audit_redacted (λ s. s) (field "api_token" (Json.text "t0p") end)

drain_touches_due_example :
    (row_after (λ s. s) (λ e. none) 9_000_000 50 (λ e. false) (waiting ∷ []) 40 ≡ some waiting)
    ⊎ ((row_after (λ s. s) (λ e. none) 9_000_000 50 (λ e. false) (waiting ∷ []) 40
          ≡ some (settle (λ s. s) (λ e. none) 9_000_000 waiting))
        × ((is_due 9_000_000 waiting && not false) ≡ true))
drain_touches_due_example =
    drain_touches_due (λ s. s) (λ e. none) 9_000_000 50 (λ e. false) (waiting ∷ []) waiting refl
      (omega arith)

admitted_min_example : admitted_requests test_env 1 "jobs.submit" (start test_db) 130 ≡ min 130 120
admitted_min_example = admitted_min test_env 1 "jobs.submit" (start test_db) 130 (omega arith)
