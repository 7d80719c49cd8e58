-- ===== src/Api/Secrets.antt =====
-- apps/api/app/api/v1/secrets.py: write-only secrets, rotated in place.
use hamicloud.Core.Audit.{record_audit_event}
use hamicloud.Core.Auth.{authorize_workspace_access}
use hamicloud.Prelude.{
  ◌==◌, select, map, List, none, first, ◌+s◌, ◌+s◌, ℕ, Bool, some, ◌+◌, String, Option, order_by,
}
use hamicloud.Schemas.{UpsertSecretRequest, Caller}
use hamicloud.Models.Json.{end, field, number}
use hamicloud.Models.Json.{text as json_text}
use hamicloud.Models.Db.{
  Constraint, same_secret, insert_secret, rotate_secret, delete_secret,
  uq_secret_reference_workspace_name,
}
use hamicloud.Models.Tenancy.{Time, SecretReference, Uuid, admin, developer, viewer}
use hamicloud.Session.{M, ◌>>=◌, ◌>>◌, pure, query, found, raise, stage, commit, rollback, text}
use hamicloud.Core.Idempotency.{unexpected_integrity_error}
use hamicloud.Env.{Env}

-- What a client sees of a secret: never its value.
pub record SecretMetadataResponse : Type 0 where
  pub id : Uuid
  pub workspace_id : Uuid
  pub name : String
  pub key_version : ℕ
  pub created_at : Time
  pub updated_at : Time

abbrev pub metadata_of : SecretReference → SecretMetadataResponse
metadata_of s = record {
  id = s.id;
  workspace_id = s.workspace_id;
  name = s.name;
  key_version = s.key_version;
  created_at = s.created_at;
  updated_at = s.updated_at;
}

abbrev pub new_secret : Env → Uuid → String → String → SecretReference
new_secret env ws name encrypted = record {
  id = env.uuid 0;
  workspace_id = ws;
  name = name;
  encrypted_value = encrypted;
  key_version = 1;
  created_at = env.now;
  updated_at = env.now;
}

abbrev pub rotated : Env → String → SecretReference → SecretReference
rotated env encrypted s = record s {
  encrypted_value = encrypted;
  key_version = s.key_version + 1;
  updated_at = env.now;
}

-- The staged row, and the audit action.
abbrev pub upsert_secret_row :
    Env → Uuid → String → String → Option SecretReference → M (SecretReference × String)
upsert_secret_row env ws name encrypted (some s) = do
  stage (rotate_secret s.id encrypted (s.key_version + 1) env.now)
  pure (rotated env encrypted s, "secret.rotated")
upsert_secret_row env ws name encrypted none = do
  stage (insert_secret (new_secret env ws name encrypted))
  pure (new_secret env ws name encrypted, "secret.created")

abbrev pub secret_saved : SecretReference → Option Constraint → M SecretMetadataResponse
secret_saved s none = pure (metadata_of s)
secret_saved s (some uq_secret_reference_workspace_name) = do
  rollback
  raise 409 (text ("Secret '" +s s.name +s "' already exists in this workspace"))
secret_saved s (some _) = do rollback; unexpected_integrity_error

unfoldable pub upsert_workspace_secret :
    Env → Caller → Uuid → UpsertSecretRequest → M SecretMetadataResponse
upsert_workspace_secret env caller ws p = do
  authorize_workspace_access caller ws developer "Workspace not found"
  let encrypted = env.encrypt p.value ws p.name
  existing ← query (λ d. first (same_secret ws p.name) d.secrets)
  saved ← upsert_secret_row env ws p.name encrypted existing
  record_audit_event env 1 ws caller.subject saved.1 "SECRET" p.name
      (field "name" (json_text p.name) (field "key_version" (number saved.0.key_version) end))
  broken ← commit
  secret_saved saved.0 broken

-- `order_by(name.asc())` compares texts as the database collates them: a parameter.
unfoldable pub list_workspace_secrets :
    (String → String → Bool) → Caller → Uuid → M (List SecretMetadataResponse)
unfolding order_by
list_workspace_secrets collates caller ws = do
  authorize_workspace_access caller ws viewer "Workspace not found"
  query (λ d. map metadata_of (
      order_by (λ (a b : SecretReference). collates a.name b.name)
        (select (λ (s : SecretReference). s.workspace_id == ws) d.secrets)))

abbrev pub deleted : Option Constraint → M (Unit {0})
deleted none = pure tt
deleted (some _) = raise 500 (text "An unexpected internal platform error occurred.")

unfoldable pub delete_workspace_secret : Env → Caller → Uuid → String → M (Unit {0})
delete_workspace_secret env caller ws name = do
  authorize_workspace_access caller ws admin "Workspace not found"
  row ← query (λ d. first (same_secret ws name) d.secrets)
  s ← found row 404 (text "Secret not found")
  stage (delete_secret s.id)
  record_audit_event env 0 ws caller.subject "secret.deleted" "SECRET" name
      (field "name" (json_text name) end)
  broken ← commit
  deleted broken
