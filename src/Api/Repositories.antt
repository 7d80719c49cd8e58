-- ===== src/Api/Repositories.antt =====
-- apps/api/app/api/v1/repositories.py: the source repositories of a workspace.
pub mod Urls
pub mod Approved
use hamicloud.Core.Idempotency.{unexpected_integrity_error}
use hamicloud.Core.Auth.{authorize_workspace_access}
use hamicloud.Models.Db.{
  insert_repository, uq_repository_workspace_name, same_repository, Constraint,
}
use hamicloud.Session.{
  commit, stage, raise_if, raise, found, rollback, query, ◌>>◌, pure, text, ◌>>=◌, M, Detail,
}
use hamicloud.Core.Pagination.{CursorCodec, Cursor, page, read_cursor}
use hamicloud.Models.Tenancy.{developer, viewer, Time, Uuid}
use hamicloud.Schemas.{Caller}
use hamicloud.Prelude.{is_some, none, map, select, ◌==◌, first, List, some, ℕ, ◌+s◌, Option, String}
use hamicloud.Api.Repositories.Urls.{SplitResult, validate_repo_url}
use hamicloud.Models.Apps.{Repository}
use hamicloud.Env.{Env}
use mathlib.Core.Option

-- `CreateRepositoryRequest`, as pydantic has validated it.
pub record CreateRepositoryRequest : Type 0 where
  pub name : String
  pub repo_url : String
  pub webhook_secret : String
  pub default_branch : String

-- `RepositoryResponse`: the row without its webhook's secret.
pub record RepositoryResponse : Type 0 where
  pub id : Uuid
  pub workspace_id : Uuid
  pub name : String
  pub repo_url : String
  pub default_branch : String
  pub created_at : Time

abbrev pub response_of : Repository → RepositoryResponse
response_of r = record {
  id = r.id;
  workspace_id = r.workspace_id;
  name = r.name;
  repo_url = r.repo_url;
  default_branch = r.default_branch;
  created_at = r.created_at;
}

abbrev pub new_repository : Env → Uuid → CreateRepositoryRequest → String → Repository
new_repository env ws p url = record {
  id = env.uuid 0;
  workspace_id = ws;
  name = p.name;
  repo_url = url;
  webhook_secret = p.webhook_secret;
  default_branch = p.default_branch;
  created_at = env.now;
}

abbrev pub name_taken : String → Detail
name_taken name = text ("Repository with name '" +s name +s "' already exists in this workspace")

-- A name that another transaction took first is taken too.
abbrev pub after_insert : Repository → Option Constraint → M RepositoryResponse
after_insert r none = pure (response_of r)
after_insert r (some uq_repository_workspace_name) = do rollback; raise 409 (name_taken r.name)
after_insert r (some exc) = do rollback; unexpected_integrity_error

unfoldable pub create_repository :
    Env
    → (String → Option SplitResult)
    → Caller
    → Uuid
    → CreateRepositoryRequest
    → M RepositoryResponse
unfolding validate_repo_url
create_repository env urlsplit caller ws p = do
  authorize_workspace_access caller ws developer "Workspace not found"
  url ← validate_repo_url env urlsplit p.repo_url
  existing ← query (λ d. first (same_repository ws p.name) d.repositories)
  raise_if (is_some existing) 409 (name_taken p.name)
  stage (insert_repository (new_repository env ws p url))
  broken ← commit
  after_insert (new_repository env ws p url) broken

abbrev pub repository_key : Repository → Cursor
repository_key r = record { created_at = r.created_at; id = r.id }

unfoldable pub list_repositories :
    CursorCodec → Caller → Uuid → ℕ → Option String → M (List RepositoryResponse × Option String)
unfolding read_cursor page
list_repositories codec caller ws limit given = do
  authorize_workspace_access caller ws viewer "Workspace not found"
  cursor ← read_cursor codec given
  query (λ d.
      let (rows, next) =
        page repository_key limit cursor
          (select (λ (r : Repository). r.workspace_id == ws) d.repositories) in
      (map response_of rows, Option.map codec.encode next))

unfoldable pub get_repository : Caller → Uuid → M RepositoryResponse
get_repository caller repository_id = do
  row ← query (λ d. first (λ (r : Repository). r.id == repository_id) d.repositories)
  repo ← found row 404 (text "Repository not found")
  authorize_workspace_access caller repo.workspace_id viewer "Repository not found"
  pure (response_of repo)
