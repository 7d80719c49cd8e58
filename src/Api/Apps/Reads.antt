-- ===== src/Api/Apps/Reads.antt =====
-- The list endpoints of apps/api/app/api/v1/apps.py.
use hamicloud.Core.Auth.{authorize_workspace_access}
use hamicloud.Prelude.{◌==◌, select, List, String, Option, ℕ}
use hamicloud.Models.Apps.{Application, Release}
use hamicloud.Schemas.{Caller}
use hamicloud.Api.Apps.{load_app}
use hamicloud.Core.Pagination.{Cursor, CursorCodec, read_cursor, page}
use hamicloud.Session.{M, ◌>>=◌, ◌>>◌, query}
use hamicloud.Models.Tenancy.{Uuid, viewer}
use mathlib.Core.Option

abbrev pub release_key : Release → Cursor
release_key r = record { created_at = r.created_at; id = r.id }

unfoldable pub list_releases :
    CursorCodec → Caller → Uuid → ℕ → Option String → M (List Release × Option String)
unfolding load_app read_cursor page
list_releases codec caller app_id limit given = do
  app ← load_app caller app_id viewer
  cursor ← read_cursor codec given
  query (λ d.
      let (rows, next) =
        page release_key limit cursor
          (select (λ (r : Release). r.application_id == app_id) d.releases) in
      (rows, Option.map codec.encode next))

abbrev pub application_key : Application → Cursor
application_key a = record { created_at = a.created_at; id = a.id }

unfoldable pub list_workspace_applications :
    CursorCodec → Caller → Uuid → ℕ → Option String → M (List Application × Option String)
unfolding read_cursor page
list_workspace_applications codec caller ws limit given = do
  authorize_workspace_access caller ws viewer "Workspace not found"
  cursor ← read_cursor codec given
  query (λ d.
      let (rows, next) =
        page application_key limit cursor
          (select (λ (a : Application). a.workspace_id == ws) d.applications) in
      (rows, Option.map codec.encode next))
