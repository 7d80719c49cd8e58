-- ===== src/Migrations/Checks/Agreed.antt =====
-- The checks after the last revision, and what the enumerated columns are read and written as.
use hamicloud.Prelude.{arith, some, is_some, List, String, ◌≡◌, refl, [], ◌∷◌}
use hamicloud.Api.Operations.{release_status_value}
use hamicloud.Api.Workspaces.{role_value}
use hamicloud.Core.StateMachine.{state_value}
use hamicloud.Models.Records.{OutboxStatus, QuotaResourceClass, QuotaStatus}
use hamicloud.Models.Tenancy.{WorkspaceRole}
use hamicloud.Models.Apps.{WorkloadType, ReleaseStatus}
use hamicloud.Models.Jobs.{JobState, IntentStatus}
use hamicloud.Migrations.Checks.{
  intent_type_value, intent_type_members, IntentResourceType, Members, process_result_value,
  in_values, head_checks, job_state_members, release_status_members, outbox_status_members,
  intent_status_members, quota_class_members, quota_status_members, role_members,
  workload_type_members, outbox_status_value, intent_status_value, quota_class_value,
  quota_status_value, workload_type_value,
}

-- A text passes the check exactly when it is read as a member, and a member is read back from the
-- text that is written for it.
abbrev pub Agrees : {E : Type 0} → List String → Members E → String → E → String → Type 0
Agrees values members s e value =
    (in_values values s ≡ is_some (process_result_value members s))
    × (process_result_value members value ≡ some e)

abbrev names : {E : Type 0} → Members E → List String
names [] = []
names ((v, e) ∷ ms) = v ∷ names ms

names_read :
    {E : Type 0} (ms : Members E) (s : String)
    → in_values (names ms) s ≡ is_some (process_result_value ms s)
names_read [] s = refl
names_read ((v, e) ∷ ms) s = ground (arith, names_read ms s)

read_state : (j : JobState) → process_result_value job_state_members (state_value j) ≡ some j
read_state JobState.queued = refl
read_state j = refl

read_release :
    (r : ReleaseStatus)
    → process_result_value release_status_members (release_status_value r) ≡ some r
unfolding release_status_value
read_release ReleaseStatus.requested = refl
read_release r = refl

read_outbox :
    (o : OutboxStatus) → process_result_value outbox_status_members (outbox_status_value o) ≡ some o
read_outbox OutboxStatus.pending = refl
read_outbox o = refl

read_intent :
    (i : IntentStatus) → process_result_value intent_status_members (intent_status_value i) ≡ some i
read_intent IntentStatus.pending = refl
read_intent i = refl

read_type :
    (t : IntentResourceType)
    → process_result_value intent_type_members (intent_type_value t) ≡ some t
read_type IntentResourceType.job_attempt = refl
read_type t = refl

read_class :
    (q : QuotaResourceClass)
    → process_result_value quota_class_members (quota_class_value q) ≡ some q
read_class QuotaResourceClass.concurrent_job = refl
read_class q = refl

read_quota :
    (q : QuotaStatus) → process_result_value quota_status_members (quota_status_value q) ≡ some q
read_quota QuotaStatus.active = refl
read_quota q = refl

read_role : (r : WorkspaceRole) → process_result_value role_members (role_value r) ≡ some r
read_role WorkspaceRole.owner = refl
read_role r = refl

read_workload :
    (w : WorkloadType) → process_result_value workload_type_members (workload_type_value w) ≡ some w
read_workload WorkloadType.http_service = refl

-- After the last revision each enumerated column accepts exactly the texts that the models read as a
-- member, and every member that the models write is accepted and read back as itself.
pub columns_agree :
    (s : String) (j : JobState) (r : ReleaseStatus) (o : OutboxStatus) (t : IntentResourceType)
    (i : IntentStatus) (q : QuotaResourceClass) (a : QuotaStatus) (m : WorkspaceRole)
    (w : WorkloadType)
    → Agrees head_checks.jobs_state job_state_members s j (state_value j)
      × Agrees head_checks.job_attempts_state job_state_members s j (state_value j)
      × Agrees head_checks.releases_status release_status_members s r (release_status_value r)
      × Agrees head_checks.outbox_status outbox_status_members s o (outbox_status_value o)
      × Agrees head_checks.intents_resource_type intent_type_members s t (intent_type_value t)
      × Agrees head_checks.intents_status intent_status_members s i (intent_status_value i)
      × Agrees head_checks.quota_class quota_class_members s q (quota_class_value q)
      × Agrees head_checks.quota_status quota_status_members s a (quota_status_value a)
      × Agrees head_checks.memberships_role role_members s m (role_value m)
      × Agrees head_checks.workload_type workload_type_members s w (workload_type_value w)
unfolding head_checks
columns_agree s j r o t i q a m w = (
  (names_read job_state_members s, read_state j),
  (names_read job_state_members s, read_state j),
  (names_read release_status_members s, read_release r),
  (names_read outbox_status_members s, read_outbox o),
  (names_read intent_type_members s, read_type t),
  (names_read intent_status_members s, read_intent i),
  (names_read quota_class_members s, read_class q),
  (names_read quota_status_members s, read_quota a),
  (names_read role_members s, read_role m),
  (names_read workload_type_members s, read_workload w),
)
