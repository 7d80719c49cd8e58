-- ===== src/Models/Db.antt =====
-- The database that the handlers of apps/api/app/api/v1 read, and the changes that a session stages
-- and commits. A commit writes the staged changes in order and stops at the first unique constraint
-- that one of them breaks; it then changes nothing.
use hamicloud.Prelude.{
  text_length, ℕ, String, Bool, true, false, ◌&&◌, Option, some, none, List, [], ◌∷◌, ◌==◌, ◌=s=◌,
  if◌then◌else◌, leb, any, update, delete, or_default,
}
use hamicloud.Models.Tenancy.{
  Uuid, Time, Workspace, WorkspaceRole, WorkspaceMembership, SecretReference, AuditEvent,
}
use hamicloud.Models.Jobs.{Job, JobAttempt, JobState, DeadLetterRecord, ExecutionIntent}
use hamicloud.Models.Apps.{Application, Release, Repository, WebhookDelivery}
use hamicloud.Models.Records.{
  QuotaReservation, QuotaStatus, active, expired, OutboxEvent, IdempotencyRecord,
}

pub record Db : Type 0 where
  pub workspaces : List Workspace
  pub memberships : List WorkspaceMembership
  pub secrets : List SecretReference
  pub applications : List Application
  pub releases : List Release
  pub repositories : List Repository
  pub jobs : List Job
  pub attempts : List JobAttempt
  pub dead_letters : List DeadLetterRecord
  pub reservations : List QuotaReservation
  pub outbox : List OutboxEvent
  pub idempotency : List IdempotencyRecord
  pub audits : List AuditEvent
  pub deliveries : List WebhookDelivery
  pub intents : List ExecutionIntent

-- The columns of an application that a PATCH sets; `none` leaves a column as it is.
pub record AppPatch : Type 0 where
  pub name : Option String
  pub repository_id : Option (Option Uuid)
  pub dockerfile_path : Option String
  pub context_dir : Option String
  pub git_branch : Option String

pub data Write : Type 0 where
  insert_workspace : Workspace → Write
  insert_membership : WorkspaceMembership → Write
  set_role : Uuid → WorkspaceRole → Write
  delete_membership : Uuid → Write
  insert_secret : SecretReference → Write
  rotate_secret : Uuid → String → ℕ → Time → Write
  delete_secret : Uuid → Write
  insert_application : Application → Write
  set_generation : Uuid → ℕ → Write
  patch_application : Uuid → AppPatch → Write
  insert_release : Release → Write
  insert_job : Job → Write
  set_job_state : Uuid → JobState → Write
  expire_reservations : Uuid → Time → Write
  insert_reservation : QuotaReservation → Write
  insert_outbox : OutboxEvent → Write
  insert_idempotency : IdempotencyRecord → Write
  delete_idempotency : Uuid → Write
  insert_audit : AuditEvent → Write
  insert_repository : Repository → Write
  insert_delivery : WebhookDelivery → Write

-- The unique constraints that the handlers can meet.
pub data Constraint : Type 0 where
  uq_workspace_slug uq_workspace_membership_user uq_secret_reference_workspace_name : Constraint
  uq_application_workspace_slug uq_release_app_number uq_idempotency_workspace_key : Constraint
  uq_repository_workspace_name uq_webhook_deliveries_repo_delivery : Constraint

abbrev pub QuotaStatus-is_active : QuotaStatus → Bool
QuotaStatus-is_active active = true
QuotaStatus-is_active _ = false

-- `status = ACTIVE and expires_at <= now`
abbrev pub is_stale : Uuid → Time → QuotaReservation → Bool
is_stale ws now r = (r.workspace_id == ws && QuotaStatus-is_active r.status) && leb r.expires_at now

abbrev pub same_member : Uuid → String → WorkspaceMembership → Bool
same_member ws subject m = m.workspace_id == ws && m.user_subject =s= subject

abbrev pub same_secret : Uuid → String → SecretReference → Bool
same_secret ws name s = s.workspace_id == ws && s.name =s= name

abbrev pub same_slug : Uuid → String → Application → Bool
same_slug ws slug a = a.workspace_id == ws && a.slug =s= slug

abbrev pub same_number : Uuid → ℕ → Release → Bool
same_number app n r = r.application_id == app && r.release_number == n

abbrev pub same_key : Uuid → String → String → IdempotencyRecord → Bool
same_key ws endpoint key r =
    r.workspace_id == ws && (r.endpoint =s= endpoint && r.idempotency_key =s= key)

abbrev pub same_repository : Uuid → String → Repository → Bool
same_repository ws name r = r.workspace_id == ws && r.name =s= name

abbrev pub same_delivery : Uuid → String → WebhookDelivery → Bool
same_delivery repo id v = v.repository_id == repo && v.delivery_id =s= id

abbrev fits_option : ℕ → Option String → Bool
fits_option n none = true
fits_option n (some s) = leb (text_length s) n

-- Whether a change's texts fit their columns. The texts that the schemas of requests bound as their
-- columns do are not tested again, nor an audit entry's subject, which a membership has too. An excess of
-- spaces alone, which PostgreSQL cuts off, is not told apart.
abbrev pub fits_columns : Write → Bool
fits_columns (insert_membership m) = leb (text_length m.user_subject) 255
fits_columns (insert_release r) =
    leb (text_length r.image_digest) 255
    && (fits_option 40 r.commit_sha && fits_option 100 r.git_ref)
fits_columns (insert_job j) = leb (text_length j.image_digest) 255
fits_columns (insert_delivery v) =
    leb (text_length v.delivery_id) 100 && leb (text_length v.event_type) 50
fits_columns _ = true

-- The constraint that a change breaks, if it breaks one.
unfoldable pub violated : Write → Db → Option Constraint
violated (insert_workspace w) d =
    if any (λ v. v.slug =s= w.slug) d.workspaces then some uq_workspace_slug else none
violated (insert_membership m) d =
    if any (same_member m.workspace_id m.user_subject) d.memberships
    then some uq_workspace_membership_user
    else none
violated (insert_secret s) d =
    if any (same_secret s.workspace_id s.name) d.secrets
    then some uq_secret_reference_workspace_name
    else none
violated (insert_application a) d =
    if any (same_slug a.workspace_id a.slug) d.applications
    then some uq_application_workspace_slug
    else none
violated (insert_release r) d =
    if any (same_number r.application_id r.release_number) d.releases
    then some uq_release_app_number
    else none
violated (insert_idempotency r) d =
    if any (same_key r.workspace_id r.endpoint r.idempotency_key) d.idempotency
    then some uq_idempotency_workspace_key
    else none
violated (insert_repository r) d =
    if any (same_repository r.workspace_id r.name) d.repositories
    then some uq_repository_workspace_name
    else none
violated (insert_delivery v) d =
    if any (same_delivery v.repository_id v.delivery_id) d.deliveries
    then some uq_webhook_deliveries_repo_delivery
    else none
violated _ d = none

abbrev pub patch_with : AppPatch → Application → Application
patch_with p a = record a {
  name = or_default p.name a.name;
  repository_id = or_default p.repository_id a.repository_id;
  dockerfile_path = or_default p.dockerfile_path a.dockerfile_path;
  context_dir = or_default p.context_dir a.context_dir;
  git_branch = elim p.git_branch [ none ↦ a.git_branch | some b ↦ some b ];
}

unfoldable pub write : Write → Db → Db
write (insert_workspace w) d = record d { workspaces = w ∷ d.workspaces }
write (insert_membership m) d = record d { memberships = m ∷ d.memberships }
write (set_role id r) d = record d {
  memberships = update (λ m. m.id == id) (λ m. record m { role = r }) d.memberships;
}
write (delete_membership id) d = record d { memberships = delete (λ m. m.id == id) d.memberships }
write (insert_secret s) d = record d { secrets = s ∷ d.secrets }
write (rotate_secret id v n now) d = record d {
  secrets =
      update (λ s. s.id == id)
        (λ s. record s { encrypted_value = v; key_version = n; updated_at = now }) d.secrets;
}
write (delete_secret id) d = record d { secrets = delete (λ s. s.id == id) d.secrets }
write (insert_application a) d = record d { applications = a ∷ d.applications }
write (set_generation id n) d = record d {
  applications = update (λ a. a.id == id) (λ a. record a { desired_generation = n }) d.applications;
}
write (patch_application id p) d = record d {
  applications = update (λ a. a.id == id) (patch_with p) d.applications;
}
write (insert_release r) d = record d { releases = r ∷ d.releases }
write (insert_job j) d = record d { jobs = j ∷ d.jobs }
write (set_job_state id s) d = record d {
  jobs = update (λ j. j.id == id) (λ j. record j { state = s }) d.jobs;
}
write (expire_reservations ws now) d = record d {
  reservations = update (is_stale ws now) (λ r. record r { status = expired }) d.reservations;
}
write (insert_reservation r) d = record d { reservations = r ∷ d.reservations }
write (insert_outbox e) d = record d { outbox = e ∷ d.outbox }
write (insert_idempotency r) d = record d { idempotency = r ∷ d.idempotency }
write (delete_idempotency id) d = record d { idempotency = delete (λ r. r.id == id) d.idempotency }
write (insert_audit e) d = record d { audits = e ∷ d.audits }
write (insert_repository r) d = record d { repositories = r ∷ d.repositories }
write (insert_delivery v) d = record d { deliveries = v ∷ d.deliveries }

pub data Outcome : Type 0 where
  written : Db → Outcome
  violates : Constraint → Outcome
  too_long : Outcome

-- The staged changes in order, or the first constraint that is broken, unless a text before is too
-- long for its column.
unfoldable pub write_all : List Write → Db → Outcome
unfolding violated write
write_all [] d = written d
write_all (w ∷ ws) d = elim (fits_columns w) [
  | false ↦ too_long
  | true ↦ elim (violated w d) [ some c ↦ violates c | none ↦ write_all ws (write w d) ]
]
