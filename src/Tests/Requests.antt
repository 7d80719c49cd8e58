-- ===== src/Tests/Requests.antt =====
-- Requests of apps/api/app/api/v1 at the small database.
use hamicloud.Tests.Data.{test_env, olga, dan, eve, done_job, test_db, job_request, deploy_of}
use hamicloud.Api.Jobs.Race.{race_answers, second_answer}
use hamicloud.Core.Idempotency.{accepted_response, Request}
use hamicloud.Api.Apps.Cap.{deploy-Capped, Capped}
use hamicloud.Api.Jobs.Limits.{pending_bounded, Within}
use hamicloud.Core.Quotas.{deployed_services, jobs_in}
use hamicloud.Api.Jobs.Isolation.{jobs_isolated, job_not_found}
use hamicloud.Api.Workspaces.{is_owner}
use hamicloud.Api.Workspaces.Effects.{remove, rows_after}
use hamicloud.Api.Jobs.Atomicity.{jobs_atomic, submit, run_command}
use hamicloud.Api.Jobs.Reads.{get_job_output, get_job}
use hamicloud.Api.Apps.Releases.{deploy_release}
use hamicloud.Core.Auth.Access.{membership}
use hamicloud.Api.Jobs.{
  submit_request, commit_or_replay, new_job, cancel_job, rerun_job, submit_job,
}
use hamicloud.Api.Workspaces.Members.{is_owner_of}
use hamicloud.Models.Records.{IdempotencyRecord}
use hamicloud.Env.{counted}
use hamicloud.Models.Tenancy.{WorkspaceMembership}
use hamicloud.Api.Workspaces.Owners.{owner_kept, only_owners_change_owners, UniqueIds}
use hamicloud.Api.Apps.Numbers.{deploy_numbered, OneRelease}
use hamicloud.Models.Db.{written, write, insert_job, violated, write_all, Db}
use hamicloud.Core.Auth.{authorize_workspace_access}
use hamicloud.Api.Jobs.Replayed.{submit_replayed, Repeats}
use hamicloud.Session.{after, Tx, text, raised, alone, serve}
use hamicloud.Api.Jobs.Outboxed.{submit_outboxed, OneJob}
use hamicloud.Prelude.{
  text_length, ◌⊎◌, ◌≡◌, count, arith, ◌+◌, ◌≤◌, select, refl, some, [], ◌∷◌, true, false, inr,
}

submit_replayed_example :
    Repeats test_env dan 1 job_request "k" 9_000_000
      (λ n. 200 + n)
      (λ k. counted 500)
      refl
      test_db
      (serve alone (submit_job test_env dan 1 job_request "k") test_db).1
submit_replayed_example =
    submit_replayed test_env dan 1 job_request "k" 9_000_000 (λ n. 200 + n) (λ k. counted 500) refl
      test_db

submit_outboxed_example :
    OneJob test_db (serve alone (submit_job test_env dan 1 job_request "k") test_db).1
submit_outboxed_example = submit_outboxed test_env dan 1 job_request "k" test_db

deploy_numbered_example :
    OneRelease 30 test_db
      (serve alone (deploy_release test_env dan 30 (deploy_of "sha256:cc") "k") test_db).1
deploy_numbered_example = deploy_numbered test_env dan 30 (deploy_of "sha256:cc") "k" test_db

eve_refused :
    (serve alone (run_command test_env eve "k" (submit 1 job_request)) test_db).0
    ≡ raised (record { status = 404; detail = text "Workspace not found" })
unfolding serve submit_job authorize_workspace_access
eve_refused = refl

jobs_atomic_example :
    ((serve alone (run_command test_env eve "k" (submit 1 job_request)) test_db).1 ≡ test_db)
    ⊎ ((serve alone (run_command test_env eve "k" (submit 1 job_request)) test_db).1
        ≡ alone test_db)
jobs_atomic_example =
    jobs_atomic test_env eve "k" (submit 1 job_request) alone test_db
      (record { status = 404; detail = text "Workspace not found" }) eve_refused

jobs_isolated_example :
    (serve alone (get_job eve 20) test_db ≡ job_not_found test_db)
    × (serve alone (get_job_output "/data" (λ path. true) (λ id. "id") eve 20) test_db
        ≡ job_not_found test_db)
    × (serve alone (cancel_job test_env eve 20 "k") test_db ≡ job_not_found test_db)
    × (serve alone (rerun_job test_env eve 20 "k") test_db ≡ job_not_found test_db)
jobs_isolated_example =
    jobs_isolated test_env eve 20 "k" "/data" (λ path. true) alone test_db
      (inr (done_job, refl, refl))

test_ids : UniqueIds test_db
test_ids id = ground arith

owner_kept_example : 1 ≤ count (is_owner_of 1) (rows_after test_env olga 1 test_db (remove "olga"))
owner_kept_example = owner_kept test_env olga 1 test_db (remove "olga") 1 test_ids (omega arith)

dan_is_none :
    (m : WorkspaceMembership) → membership dan 1 test_db ≡ some m → is_owner m.role ≡ false
dan_is_none m h = ground arith

only_owners_change_owners_example :
    select (is_owner_of 1) (rows_after test_env dan 1 test_db (remove "olga"))
    ≡ select (is_owner_of 1) test_db.memberships
only_owners_change_owners_example =
    only_owners_change_owners test_env dan 1 test_db (remove "olga") 1 test_ids dan_is_none

within : Within test_env 1 test_db
unfolding jobs_in
within = omega arith

pending_bounded_example :
    Within test_env 1 (serve alone (submit_job test_env dan 1 job_request "k") test_db).1
pending_bounded_example = pending_bounded test_env 1 dan job_request "k" test_db within

one_service : Capped test_env 1 test_db
unfolding deployed_services
one_service = omega arith

deploy-Capped_example :
    Capped test_env 1
      (serve alone (deploy_release test_env dan 30 (deploy_of "sha256:cc") "k") test_db).1
deploy-Capped_example =
    deploy-Capped test_env 1 dan 30 (deploy_of "sha256:cc") "k" test_db one_service

abbrev taken_key : IdempotencyRecord
taken_key = record {
  id = 50;
  workspace_id = 1;
  endpoint = "/v1/workspaces/id/jobs";
  idempotency_key = "k";
  request_hash = "digest";
  response_code = 202;
  response_body = accepted_response test_env 60;
  expires_at = 9_000_000;
}

abbrev key_request : Request
key_request = submit_request test_env 1 job_request "k"

abbrev in_race : Tx
in_race = record {
  db = test_db;
  staged = insert_job (new_job test_env 1 job_request) ∷ [];
  others = λ d. record d { idempotency = taken_key ∷ d.idempotency };
}

abbrev raced_db : Db
raced_db = record test_db {
  jobs = new_job test_env 1 job_request ∷ test_db.jobs;
  idempotency = taken_key ∷ [];
}

job_written : write_all in_race.staged (in_race.others test_db) ≡ written raced_db
unfolding write_all violated write text_length
job_written = refl

race_answers_example :
    commit_or_replay test_env 4 key_request 100 in_race
    ≡ (second_answer key_request taken_key, after (in_race.others test_db) in_race)
race_answers_example =
    race_answers test_env 4 key_request 100 in_race raced_db taken_key job_written refl refl
