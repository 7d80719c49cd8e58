-- ===== src/Api/Jobs/Reads.antt =====
-- The endpoints of apps/api/app/api/v1/jobs.py that only read.
use hamicloud.Api.Jobs.{load_job, job_with}
use hamicloud.Models.Tenancy.{viewer, Uuid}
use hamicloud.Schemas.{Caller}
use hamicloud.Models.Jobs.{JobAttempt, Job, DeadLetterRecord}
use hamicloud.Prelude.{
  ◌+s◌, is_blank, map, select, not, ◌==◌, none, ltb, ℕ, Bool, some, Option, String, List, order_by,
}
use hamicloud.Core.Pagination.{Cursor, CursorCodec, read_cursor, page}
use hamicloud.Core.StateMachine.{is_terminal_job_state}
use hamicloud.Core.Auth.{authorize_workspace_access}
use hamicloud.Session.{M, ◌>>=◌, ◌>>◌, pure, query, raise_if, text}
use hamicloud.Models.Db.{Db}
use mathlib.Core.Option

pub record JobDetailsResponse : Type 0 where
  pub job : Job
  pub attempts : List JobAttempt

pub record JobListResponse : Type 0 where
  pub items : List JobDetailsResponse
  pub next_cursor : Option String

-- The attempts of a job, by number.
unfoldable pub attempts_of : Uuid → Db → List JobAttempt
unfolding order_by
attempts_of id d =
    order_by (λ (a b : JobAttempt). ltb a.attempt_number b.attempt_number)
      (select (λ (a : JobAttempt). a.job_id == id) d.attempts)

abbrev pub details_of : Db → Job → JobDetailsResponse
details_of d j = record { job = j; attempts = attempts_of j.id d }

unfoldable pub get_job : Caller → Uuid → M JobDetailsResponse
unfolding load_job
get_job caller job_id = do j ← load_job caller job_id viewer; query (λ d. details_of d j)

abbrev pub job_key : Job → Cursor
job_key j = record { created_at = j.created_at; id = j.id }

unfoldable pub list_workspace_jobs :
    CursorCodec → Caller → Uuid → ℕ → Option String → M JobListResponse
unfolding read_cursor page
list_workspace_jobs codec caller ws limit given = do
  authorize_workspace_access caller ws viewer "Workspace not found"
  cursor ← read_cursor codec given
  query (λ d.
      let (rows, next) =
        page job_key limit cursor (select (λ (j : Job). j.workspace_id == ws) d.jobs) in
      record { items = map (details_of d) rows; next_cursor = Option.map codec.encode next })

-- The artifact's path; the directory and the test for a file are the file system's.
unfoldable pub get_job_output :
    String → (String → Bool) → (Uuid → String) → Caller → Uuid → M String
unfolding load_job
get_job_output artifacts_base is_file text_of caller job_id = do
  j ← load_job caller job_id viewer
  raise_if (not (is_terminal_job_state j.state)) 409
      (text "Job is still executing, output is not yet available")
  raise_if (is_blank artifacts_base) 500 (text "Artifacts storage directory is not configured")
  let path = artifacts_base +s "/" +s text_of j.workspace_id +s "/" +s text_of j.id +s "/output.txt"
  raise_if (not (is_file path)) 404 (text "Job output artifact not found")
  pure path

pub record DeadLetterRecordItem : Type 0 where
  pub row : DeadLetterRecord
  pub job_name : String

abbrev name_or_unknown : Option Job → String
name_or_unknown none = "unknown"
name_or_unknown (some j) = j.name

abbrev pub dead_letter_item : Db → DeadLetterRecord → DeadLetterRecordItem
dead_letter_item d r = record { row = r; job_name = name_or_unknown (job_with r.job_id d) }

abbrev pub dead_letter_key : DeadLetterRecord → Cursor
dead_letter_key r = record { created_at = r.created_at; id = r.id }

unfoldable pub list_workspace_dead_letter_records :
    CursorCodec → Caller → Uuid → ℕ → Option String → M (List DeadLetterRecordItem × Option String)
unfolding read_cursor page
list_workspace_dead_letter_records codec caller ws limit given = do
  authorize_workspace_access caller ws viewer "Workspace not found"
  cursor ← read_cursor codec given
  query (λ d.
      let (rows, next) =
        page dead_letter_key limit cursor
          (select (λ (r : DeadLetterRecord). r.workspace_id == ws) d.dead_letters) in
      (map (dead_letter_item d) rows, Option.map codec.encode next))
