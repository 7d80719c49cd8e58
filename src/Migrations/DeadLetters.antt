-- ===== src/Migrations/DeadLetters.antt =====
-- The trigger on jobs and the backfill of migrations/versions/0007_add_dead_letter_records.py.
-- The statement's time and the fresh identifiers are parameters.
pub mod Kept
pub mod Recorded
use hamicloud.Prelude.{
  [], not, none, select, update, ◌∷◌, ◌&&◌, false, some, any, String, ℕ, true, if◌then◌else◌, first,
  ◌==◌, Option, List, Bool,
}
use hamicloud.Models.Tenancy.{Time, Uuid}
use hamicloud.Models.Jobs.{DeadLetterRecord, Job, JobAttempt, JobState}

abbrev pub is_failed_state : JobState → Bool
is_failed_state JobState.failed = true
is_failed_state _ = false

-- The row of job_attempts with the job's current number.
abbrev pub current_attempt : Job → List JobAttempt → Option JobAttempt
current_attempt j attempts =
    first (λ (a : JobAttempt). a.job_id == j.id && a.attempt_number == j.current_attempt_number)
      attempts

abbrev pub of_job : Uuid → DeadLetterRecord → Bool
of_job id r = r.job_id == id

-- `ON CONFLICT (job_id) DO UPDATE`
abbrev pub overwritten : DeadLetterRecord → DeadLetterRecord → DeadLetterRecord
overwritten excluded r = record r {
  last_attempt = excluded.last_attempt;
  exit_code = excluded.exit_code;
  failure_reason = excluded.failure_reason;
  created_at = excluded.created_at;
}

unfoldable pub insert_or_update : DeadLetterRecord → List DeadLetterRecord → List DeadLetterRecord
insert_or_update r records =
    if any (of_job r.job_id) records
    then update (of_job r.job_id) (overwritten r) records
    else r ∷ records

-- `ON CONFLICT (job_id) DO NOTHING`
unfoldable pub insert_or_nothing : DeadLetterRecord → List DeadLetterRecord → List DeadLetterRecord
insert_or_nothing r records = if any (of_job r.job_id) records then records else r ∷ records

abbrev pub dead_letter_of : Uuid → Time → Job → Option ℕ → Option String → DeadLetterRecord
dead_letter_of id at j exit_code failure_reason = record {
  id = id;
  job_id = j.id;
  workspace_id = j.workspace_id;
  last_attempt = j.current_attempt_number;
  exit_code = exit_code;
  failure_reason = failure_reason;
  created_at = at;
}

-- The first INSERT where the attempt is there; the second where it found no row.
unfoldable pub record_failure :
    Uuid → Time → Job → Option JobAttempt → List DeadLetterRecord → List DeadLetterRecord
unfolding insert_or_update insert_or_nothing
record_failure id at j (some a) records =
    insert_or_update (dead_letter_of id at j a.exit_code a.failure_reason) records
record_failure id at j none records =
    insert_or_nothing (dead_letter_of id at j none (some "Job reached FAILED state")) records

-- The function of the trigger, for the row before and after the update.
unfoldable pub fn_jobs_insert_dead_letter :
    (Uuid → Uuid)
    → Time
    → List JobAttempt
    → Job
    → Job
    → List DeadLetterRecord
    → List DeadLetterRecord
unfolding record_failure
fn_jobs_insert_dead_letter fresh at attempts old new records =
    if is_failed_state new.state && not (is_failed_state old.state)
    then record_failure (fresh new.id) at new (current_attempt new attempts) records
    else records

-- `FOR EACH ROW`, after the rows of the statement were updated.
unfoldable pub fire_for_each :
    (Uuid → Uuid)
    → Time
    → List JobAttempt
    → (Job → Job)
    → List Job
    → List DeadLetterRecord
    → List DeadLetterRecord
unfolding fn_jobs_insert_dead_letter
fire_for_each fresh at attempts change [] records = records
fire_for_each fresh at attempts change (old ∷ olds) records =
    fire_for_each fresh at attempts change olds
      (fn_jobs_insert_dead_letter fresh at attempts old (change old) records)

-- The tables that the trigger reads and writes.
pub record JobTables : Type 0 where
  pub jobs : List Job
  pub attempts : List JobAttempt
  pub dead_letters : List DeadLetterRecord

-- UPDATE jobs SET ... WHERE ..., with a new state among the columns.
unfoldable pub update_jobs :
    (Uuid → Uuid) → Time → (Job → Bool) → (Job → Job) → JobTables → JobTables
unfolding fire_for_each
update_jobs fresh at chosen change t = record t {
  jobs = update chosen change t.jobs;
  dead_letters = fire_for_each fresh at t.attempts change (select chosen t.jobs) t.dead_letters;
}

abbrev pub reported_exit : Option JobAttempt → Option ℕ
reported_exit none = none
reported_exit (some a) = a.exit_code

abbrev pub reported_reason : Option JobAttempt → Option String
reported_reason none = none
reported_reason (some a) = a.failure_reason

-- The backfill of the upgrade: a LEFT JOIN with the current attempt.
unfoldable pub backfill_failed :
    (Uuid → Uuid)
    → (Job → Time)
    → List JobAttempt
    → List Job
    → List DeadLetterRecord
    → List DeadLetterRecord
unfolding insert_or_nothing
backfill_failed fresh updated_at attempts [] records = records
backfill_failed fresh updated_at attempts (j ∷ js) records =
    let a = current_attempt j attempts in
    let inserted =
      insert_or_nothing
        (dead_letter_of (fresh j.id) (updated_at j) j (reported_exit a) (reported_reason a))
        records in
    backfill_failed fresh updated_at attempts js
      (if is_failed_state j.state then inserted else records)
