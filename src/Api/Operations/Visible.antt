-- ===== src/Api/Operations/Visible.antt =====
-- Who sees an operation (apps/api/app/api/v1/operations.py).
use hamicloud.Api.Jobs.{job_with}
use hamicloud.Core.Auth.Access.{viewer_decides, member_or_404, membership}
use hamicloud.Core.Auth.{authorize_workspace_access}
use hamicloud.Core.StateMachine.{state_value}
use hamicloud.Models.Db.{Db}
use hamicloud.Session.{pure, ◌>>◌, raise, serve, M, continue, ◌>>=◌, ok, text, raised, Result, Tx}
use hamicloud.Models.Jobs.{Job, JobState}
use hamicloud.Models.Apps.{requested, Release, ReleaseStatus}
use hamicloud.Schemas.{Caller}
use hamicloud.Prelude.{[], ap, ◌∙◌, refl, none, ◌≡◌, some, String, Option}
use hamicloud.Api.Operations.{
  check_release_or_job, check_job, stream_operation_events, get_operation_status, release, job,
  operation_of, release_or_job_status, job_status, release_with, OperationStatusResponse,
  release_status_value, operation_status,
}
use hamicloud.Models.Tenancy.{viewer, WorkspaceMembership, Uuid}
use hamicloud.Models.Jobs.{queued}
use hamicloud.Api.Operations.{job}

-- The operation that a caller may see: the release or else the job of the identifier, in a workspace
-- where the caller has a membership.
abbrev pub for_member : {A : Type 0} → Option WorkspaceMembership → A → Option A
for_member none a = none
for_member (some m) a = some a

abbrev pub seen_job : (Uuid → String) → Caller → Db → Option Job → Option OperationStatusResponse
seen_job text_of caller d none = none
seen_job text_of caller d (some j) =
    for_member (membership caller j.workspace_id d)
      (operation_of text_of j.id job (state_value j.state) j.created_at)

unfoldable pub seen_release :
    (Uuid → String) → Caller → Uuid → Db → Option Release → Option OperationStatusResponse
unfolding release_status_value
seen_release text_of caller id d none = seen_job text_of caller d (job_with id d)
seen_release text_of caller id d (some rel) =
    for_member (membership caller rel.workspace_id d)
      (operation_of text_of rel.id release (release_status_value rel.status) rel.created_at)

unfoldable pub seen : (Uuid → String) → Caller → Uuid → Db → Option OperationStatusResponse
unfolding seen_release
seen text_of caller id d = seen_release text_of caller id d (release_with id d)

abbrev pub status_answer : Option OperationStatusResponse → Result OperationStatusResponse
status_answer none = raised (record { status = 404; detail = text "Operation not found" })
status_answer (some r) = ok r

abbrev pub stream_answer : {A : Type 0} → Option A → Result (Unit {0})
stream_answer none = raised (record { status = 404; detail = text "Operation not found" })
stream_answer (some r) = raised (record {
  status = 501;
  detail = text "Server-Sent Events streaming is not yet implemented in M0 baseline";
})

-- Every state of a job and every status of a release is a status of an operation.
job_value : (s : JobState) (t : Tx) → operation_status (state_value s) t ≡ (ok (state_value s), t)
unfolding operation_status
job_value queued t = refl
job_value other t = refl

release_value :
    (s : ReleaseStatus) (t : Tx)
    → operation_status (release_status_value s) t ≡ (ok (release_status_value s), t)
unfolding operation_status release_status_value
release_value requested t = refl
release_value other t = refl

-- What follows a viewer's authorization runs for a member alone.
after_viewer :
    {A : Type 0} (caller : Caller) (ws : Uuid) (f : M A) (t : Tx)
    → (authorize_workspace_access caller ws viewer "Operation not found" >> f) t
      ≡ continue (λ _. f) (member_or_404 (membership caller ws t.db) "Operation not found") t
after_viewer caller ws f t =
    ap (λ r. continue (λ _. f) r.0 r.1) (viewer_decides caller ws "Operation not found" t)

module _ (text_of : Uuid → String) (caller : Caller) (id : Uuid) (t : Tx) where
  shown :
      (o : Option WorkspaceMembership) (m : M String) (value : String)
      (r : String → OperationStatusResponse)
      → m t ≡ (ok value, t)
      → continue (λ _. m >>= (λ s. pure (r s))) (member_or_404 o "Operation not found") t
        ≡ (status_answer (for_member o (r value)), t)
  shown none m value r h = refl
  shown (some a) m value r h = ap (λ x. continue (λ s. pure (r s)) x.0 x.1) h

  job_answers :
      (o : Option Job)
      → job_status text_of caller o t ≡ (status_answer (seen_job text_of caller t.db o), t)
  unfolding job_status
  job_answers none = refl
  job_answers (some j) =
      after_viewer caller j.workspace_id
        (operation_status (state_value j.state)
          >>= (λ s. pure (operation_of text_of j.id job s j.created_at)))
        t
      ∙ shown (membership caller j.workspace_id t.db) (operation_status (state_value j.state))
          (state_value j.state) (λ s. operation_of text_of j.id job s j.created_at)
          (job_value j.state t)

  release_answers :
      (o : Option Release)
      → release_or_job_status text_of caller id o t
        ≡ (status_answer (seen_release text_of caller id t.db o), t)
  unfolding release_or_job_status seen_release
  release_answers none = job_answers (job_with id t.db)
  release_answers (some rel) =
      after_viewer caller rel.workspace_id
        (operation_status (release_status_value rel.status)
          >>= (λ s. pure (operation_of text_of rel.id release s rel.created_at)))
        t
      ∙ shown (membership caller rel.workspace_id t.db)
          (operation_status (release_status_value rel.status)) (release_status_value rel.status)
          (λ s. operation_of text_of rel.id release s rel.created_at) (release_value rel.status t)

  streamed :
      {A : Type 0} (o : Option WorkspaceMembership) (r : A)
      → continue
          (λ _.
            raise 501 (text "Server-Sent Events streaming is not yet implemented in M0 baseline"))
          (member_or_404 o "Operation not found")
          t
        ≡ (stream_answer (for_member o r), t)
  streamed none r = refl
  streamed (some a) r = refl

  abbrev unimplemented : M (Unit {0})
  unimplemented =
      raise 501 (text "Server-Sent Events streaming is not yet implemented in M0 baseline")

  stream_job_answers :
      (o : Option Job)
      → (check_job caller o >> unimplemented) t
        ≡ (stream_answer (seen_job text_of caller t.db o), t)
  stream_job_answers none = refl
  stream_job_answers (some j) =
      after_viewer caller j.workspace_id unimplemented t
      ∙ streamed (membership caller j.workspace_id t.db)
          (operation_of text_of j.id job (state_value j.state) j.created_at)

  stream_answers :
      (o : Option Release)
      → (check_release_or_job caller id o >> unimplemented) t
        ≡ (stream_answer (seen_release text_of caller id t.db o), t)
  unfolding seen_release
  stream_answers none = stream_job_answers (job_with id t.db)
  stream_answers (some rel) =
      after_viewer caller rel.workspace_id unimplemented t
      ∙ streamed (membership caller rel.workspace_id t.db)
          (operation_of text_of rel.id release (release_status_value rel.status) rel.created_at)

-- The status of an operation is given exactly to the members of the workspace of the release, or else
-- the job, that has the identifier: the kind, the state's name and the status URL. To every other
-- caller, and for an unknown identifier, both endpoints answer the same 404; to a member the events'
-- endpoint answers 501. Neither changes the database.
pub operations_visible :
    (text_of : Uuid → String) (caller : Caller) (id : Uuid) (others : Db → Db) (d : Db)
    → (serve others (get_operation_status text_of caller id) d
        ≡ (status_answer (seen text_of caller id d), d))
      × (serve others (stream_operation_events caller id) d
          ≡ (stream_answer (seen text_of caller id d), d))
unfolding serve get_operation_status stream_operation_events seen seen_release
operations_visible text_of caller id others d =
    let t : Tx = record { db = d; staged = []; others = others } in
    (
      ap (λ x. (x.0, x.1.db)) (release_answers text_of caller id t (release_with id d)),
      ap (λ x. (x.0, x.1.db)) (stream_answers text_of caller id t (release_with id d)),
    )
