-- ===== src/Migrations/Intents.antt =====
-- The change of execution_intents in migrations/versions/0002_close_schema_gaps.py, from one
use hamicloud.Models.Tenancy.{Uuid}
use hamicloud.Prelude.{
  false, [], ◌==◌, any, is_some, ◌||◌, not, ◌∷◌, map, true, ◌&&◌, some, ℕ, ◌=s=◌, if◌then◌else◌,
  String, Option, List, none, Bool,
}
-- resource_id to two typed columns, and back. The columns that both forms share and that no
-- constraint reads are one value.
pub mod Restored

pub record OldIntent (Shared : Type 0) : Type 0 where
  pub shared : Shared
  pub resource_type : String
  pub resource_id : Uuid
  pub target_generation : ℕ
  pub status : String

pub record TypedIntent (Shared : Type 0) : Type 0 where
  pub shared : Shared
  pub resource_type : String
  pub resource_uid : Option String
  pub job_attempt_id : Option Uuid
  pub release_id : Option Uuid
  pub target_generation : ℕ
  pub status : String

-- `COALESCE(job_attempt_id, release_id)`
abbrev pub coalesced : Option Uuid → Option Uuid → Option Uuid
coalesced (some id) other = some id
coalesced none other = other

-- A foreign key: a null, or the id of a row.
abbrev pub refers : List Uuid → Option Uuid → Bool
refers ids none = true
refers ids (some id) = any (λ k. k == id) ids

-- NULLS NOT DISTINCT
abbrev pub equal_ids : Option Uuid → Option Uuid → Bool
equal_ids none none = true
equal_ids (some a) (some b) = a == b
equal_ids _ _ = false

abbrev pub every : {A : Type 0} → (A → Bool) → List A → Bool
every p [] = true
every p (x ∷ xs) = p x && every p xs

-- A unique constraint, where `same` compares its columns.
abbrev pub all_differ : {A : Type 0} → (A → A → Bool) → List A → Bool
all_differ same [] = true
all_differ same (x ∷ xs) = every (λ y. not (same x y)) xs && all_differ same xs

abbrev pub is_status : String → Bool
is_status s = s =s= "PENDING" || s =s= "CLAIMED" || s =s= "APPLIED" || s =s= "TERMINATED"

-- The columns are there beside resource_id while the rows are moved.
module _ {Shared : Type 0} where
  abbrev pub with_columns : OldIntent Shared → TypedIntent Shared
  with_columns i = record {
    shared = i.shared;
    resource_type = i.resource_type;
    resource_uid = none;
    job_attempt_id = none;
    release_id = none;
    target_generation = i.target_generation;
    status = i.status;
  }

  -- UPDATE ... WHERE resource_type = 'JOB_ATTEMPT' AND job_attempt_id IS NULL
  abbrev pub set_job_attempt : Uuid → TypedIntent Shared → TypedIntent Shared
  set_job_attempt resource_id i =
      if i.resource_type =s= "JOB_ATTEMPT" && not (is_some i.job_attempt_id)
      then record i { job_attempt_id = some resource_id }
      else i

  -- UPDATE ... WHERE resource_type = 'SERVICE_RELEASE' AND release_id IS NULL
  abbrev pub set_release : Uuid → TypedIntent Shared → TypedIntent Shared
  set_release resource_id i =
      if i.resource_type =s= "SERVICE_RELEASE" && not (is_some i.release_id)
      then record i { release_id = some resource_id }
      else i

  unfoldable pub typed : OldIntent Shared → TypedIntent Shared
  typed i = set_release i.resource_id (set_job_attempt i.resource_id (with_columns i))

  -- ck_execution_intents_typed_resource, ck_execution_intents_resource_type and
  -- ck_execution_intents_status
  unfoldable pub fits_checks : TypedIntent Shared → Bool
  fits_checks i =
      (((i.resource_type =s= "JOB_ATTEMPT"
            && is_some i.job_attempt_id
            && not (is_some i.release_id))
          || (i.resource_type =s= "SERVICE_RELEASE"
              && is_some i.release_id
              && not (is_some i.job_attempt_id)))
        && (i.resource_type =s= "JOB_ATTEMPT" || i.resource_type =s= "SERVICE_RELEASE"))
      && is_status i.status

  -- The foreign keys to job_attempts and to releases.
  abbrev pub fits_keys : List Uuid → List Uuid → TypedIntent Shared → Bool
  fits_keys attempts releases i = refers attempts i.job_attempt_id && refers releases i.release_id

  -- uq_execution_intents_target
  abbrev pub same_target : TypedIntent Shared → TypedIntent Shared → Bool
  same_target i j =
      i.resource_type =s= j.resource_type
      && (equal_ids i.job_attempt_id j.job_attempt_id
          && (equal_ids i.release_id j.release_id && i.target_generation == j.target_generation))

  -- The rows after the upgrade, beside the attempts and releases that there are; none if a constraint
  -- refuses the rows, and the upgrade fails.
  unfoldable pub upgrade_intents :
      List Uuid → List Uuid → List (OldIntent Shared) → Option (List (TypedIntent Shared))
  unfolding typed fits_checks
  upgrade_intents attempts releases rows =
      let moved = map typed rows in
      if every (fits_keys attempts releases) moved
        && (every fits_checks moved && all_differ same_target moved)
      then some moved
      else none

  abbrev pub untyped_row :
      TypedIntent Shared
      → Option Uuid
      → Option (List (OldIntent Shared))
      → Option (List (OldIntent Shared))
  untyped_row i (some id) (some rows) = some (
      record {
        shared = i.shared;
        resource_type = i.resource_type;
        resource_id = id;
        target_generation = i.target_generation;
        status = i.status;
      }
      ∷ rows)
  untyped_row i _ _ = none

  -- The rows after the downgrade; none if the new column is null somewhere.
  unfoldable pub downgrade_intents : List (TypedIntent Shared) → Option (List (OldIntent Shared))
  downgrade_intents [] = some []
  downgrade_intents (i ∷ is) =
      untyped_row i (coalesced i.job_attempt_id i.release_id) (downgrade_intents is)
