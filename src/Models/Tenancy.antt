-- ===== src/Models/Tenancy.antt =====
-- apps/api/app/models/workspace.py, secret.py and audit.py. Identifiers are UUIDs, of which the
-- code uses only the equality and the order; times are microseconds since the epoch.
use hamicloud.Prelude.{ℕ, ◌*◌, String, Option}
use hamicloud.Models.Json.{Json}

abbrev pub Uuid : Type 0
Uuid = ℕ

abbrev pub Time : Type 0
Time = ℕ

abbrev pub seconds : ℕ → Time
seconds n = n * 1_000_000

pub data WorkspaceRole : Type 0 where
  owner admin developer viewer : WorkspaceRole

pub record Workspace : Type 0 where
  pub id : Uuid
  pub name : String
  pub slug : String
  pub created_at : Time

pub record WorkspaceMembership : Type 0 where
  pub id : Uuid
  pub workspace_id : Uuid
  pub user_subject : String
  pub role : WorkspaceRole
  pub created_at : Time

pub record SecretReference : Type 0 where
  pub id : Uuid
  pub workspace_id : Uuid
  pub name : String
  pub encrypted_value : String
  pub key_version : ℕ
  pub created_at : Time
  pub updated_at : Time

pub record AuditEvent : Type 0 where
  pub id : Uuid
  pub workspace_id : Option Uuid
  pub actor_subject : String
  pub action : String
  pub target_type : String
  pub target_id : String
  pub result : String
  pub details_json : Json
  pub created_at : Time
