-- ===== src/Api/Audit.antt =====
-- apps/api/app/api/v1/audit.py: the audit events of a workspace.
use hamicloud.Core.Auth.{authorize_workspace_access}
use hamicloud.Session.{query, text, found, ◌>>◌, ◌>>=◌, pure, M}
use hamicloud.Schemas.{Caller}
use hamicloud.Prelude.{
  ◌==◌, false, select, none, ◌=s=◌, ◌||◌, is_blank, some, List, ℕ, true, Bool, String, Option,
}
use hamicloud.Core.Pagination.{Cursor, CursorCodec, page}
use hamicloud.Models.Tenancy.{admin, Uuid, AuditEvent}
use mathlib.Core.Option

abbrev pub audit_key : AuditEvent → Cursor
audit_key e = record { created_at = e.created_at; id = e.id }

abbrev pub is_of : Uuid → AuditEvent → Bool
is_of ws e = elim e.workspace_id [ none ↦ false | some w ↦ w == ws ]

-- `if action: where(action == ...)`
abbrev pub has_action : Option String → AuditEvent → Bool
has_action none e = true
has_action (some a) e = is_blank a || e.action =s= a

-- `if cursor is not None: decode_cursor(cursor)`
unfoldable pub given_cursor : CursorCodec → Option String → M (Option Cursor)
given_cursor codec none = pure none
given_cursor codec (some given) = do
  c ← found (codec.decode given) 400 (text "Invalid pagination cursor")
  pure (some c)

unfoldable pub list_workspace_audit_events :
    CursorCodec
    → Caller
    → Uuid
    → ℕ
    → Option String
    → Option String
    → M (List AuditEvent × Option String)
unfolding given_cursor page
list_workspace_audit_events codec caller ws limit given action = do
  authorize_workspace_access caller ws admin "Workspace not found"
  cursor ← given_cursor codec given
  query (λ d.
      let (rows, next) =
        page audit_key limit cursor (select (has_action action) (select (is_of ws) d.audits)) in
      (rows, Option.map codec.encode next))
